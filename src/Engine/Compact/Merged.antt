-- ===== src/Engine/Compact/Merged.antt =====
-- The merged index that `compact` makes of the tables and the memtable (src/vortex.cpp).
use vortex_db.Base.{
  ℕ, ◌+◌, ◌≡◌, refl, ap, ◌∙◌, none, some, List, [], ◌∷◌, length, drop, All, arith, inl, inr, sym,
}
use vortex_db.Base.Words.{Bytes}
use vortex_db.Base.Order.{lex, eq_of_lex, Ordering-cases}
use vortex_db.Base.Map
use vortex_db.Base.Map.{Map, IsSorted}
use vortex_db.Files.{ok, Disk, stream_at}
use vortex_db.Files.Reading.{read-ahead, read_string-ahead, need_word-ahead}
use vortex_db.Vlog.{ValuePointer}
use vortex_db.Vlog.Pointer.{pointer_bytes, length-pointer_bytes, to_pointer-pointer_bytes}
use vortex_db.SsTable.{entries_bytes, table_bytes}
use vortex_db.SsTable.Layout.{IsEntry, past, entry-ahead, key-ahead, pointer-ahead, rest-ahead}
use vortex_db.SsTable.Index.{entries_bytes-ahead, count-ahead}
use vortex_db.Engine.State.{VortexDb}
use vortex_db.Engine.Tables.{TableFile, tables_of, IsStored, newest}
use vortex_db.Engine.Compact.{merge_keys, merge_tables, merge_memtable, rewrite_index, compact}

merge_keys-merge_memtable :
    (content : Bytes) (pos : ℕ) (m merged : Map ValuePointer)
    → All IsEntry m
    → drop pos content ≡ entries_bytes m
    → merge_keys (length m) (stream_at content pos) merged ≡ ok (merge_memtable m merged)
unfolding merge_keys merge_memtable
merge_keys-merge_memtable content pos [] merged fits ahead = refl
merge_keys-merge_memtable content pos ((k, p) ∷ m) merged (fit, fits) ahead = ground (
  arith,
  need_word-ahead content pos 4 (length k) _ (entry-ahead content pos k p m fit ahead) fit.0,
  read_string-ahead content (pos + 4) k _ (key-ahead content pos k p m fit ahead) (length k) []
      refl,
  read-ahead content (pos + 4 + length k) (pointer_bytes p) (entries_bytes m)
      (pointer-ahead content pos k p m fit ahead) 16 (sym (length-pointer_bytes p)),
  to_pointer-pointer_bytes p fit.1,
  merge_keys-merge_memtable content (past pos k) m (Map.insert k p merged) fits
      (rest-ahead content pos k p m fit ahead),
)

-- The entries of the first map win.
find-merge_memtable :
    (k : Bytes) (m merged : Map ValuePointer)
    → IsSorted m
    → Map.find k (merge_memtable m merged)
      ≡ (elim (Map.find k m) [ some p ↦ some p | none ↦ Map.find k merged ])
unfolding merge_memtable Map.find
find-merge_memtable k [] merged s = refl
find-merge_memtable k ((j, p) ∷ m) merged (above, s) =
    let rest = find-merge_memtable k m (Map.insert j p merged) s in
    let inserted = Map.find-insert j k p merged in
    elim (Ordering-cases (lex k j)) [
      | inl below ↦ ground (arith, rest, inserted, below)
      | inr (inr more) ↦ ground (arith, rest, inserted, more)
      | inr (inl same) ↦
          let missing : Map.find k m ≡ none =
            ap (λ i. Map.find i m) (eq_of_lex k j same) ∙ Map.find_below j m above in
          ground (arith, rest, inserted, same, missing)
    ]

merge_memtable-IsSorted :
    (m merged : Map ValuePointer) → IsSorted merged → IsSorted (merge_memtable m merged)
unfolding merge_memtable
merge_memtable-IsSorted [] merged s = s
merge_memtable-IsSorted ((j, p) ∷ m) merged s =
    merge_memtable-IsSorted m (Map.insert j p merged) (Map.insert-IsSorted j p merged s)

merge_tables-newest :
    (files : List TableFile) (d : Disk) (merged : Map ValuePointer)
    → All (IsStored d) files
    → IsSorted merged
    → (from_tables : Map ValuePointer) × (merge_tables (tables_of files) d merged ≡ ok from_tables)
      × IsSorted from_tables
      × ((k : Bytes)
          → Map.find k from_tables
            ≡ (elim (newest k files) [ some p ↦ some p | none ↦ Map.find k merged ]))
unfolding merge_tables newest tables_of
merge_tables-newest [] d merged a s = (merged, refl, s, λ k. refl)
merge_tables-newest ((fname, m) ∷ files) d merged ((table, file), a) s =
    let read_all =
      merge_keys-merge_memtable (table_bytes m) 4 m merged table.fits
        (entries_bytes-ahead m table.few) in
    let (from_tables, run, sorted, finds) =
      merge_tables-newest files d (merge_memtable m merged) a
        (merge_memtable-IsSorted m merged s) in
    (
      from_tables,
      ground (arith, file, count-ahead m table.few, read_all, run),
      sorted,
      λ k. ground (arith, finds k, find-merge_memtable k m merged table.sorted),
    )

-- `compact` reads all tables, and goes on with an index that has, for each key, the pointer of the
-- memtable, or else that of the newest table with the key, and no other keys, in the order of the
-- keys: what `compact` answers is what the rewriting of this index answers. The memtable is sorted,
-- and each table is opened from a file that `write_new` has written for a sorted map in range.
pub compact-newest :
    (draws : ℕ → ℕ → ℕ) (now : ℕ) (files : List TableFile) (db : VortexDb) (d : Disk)
    → db.sstables ≡ tables_of files
    → All (IsStored d) files
    → IsSorted db.memtable
    → (merged_index : Map ValuePointer) × (compact draws now db d
        ≡ rewrite_index draws now merged_index db d)
      × IsSorted merged_index
      × ((k : Bytes)
          → Map.find k merged_index
            ≡ (elim (Map.find k db.memtable) [ some p ↦ some p | none ↦ newest k files ]))
unfolding Map.find compact
compact-newest draws now files db d tables stored s =
    let (from_tables, run, sorted, finds) = merge_tables-newest files d [] stored tt in
    let read_all = ap (λ t. merge_tables t d []) tables ∙ run in
    (
      merge_memtable db.memtable from_tables,
      rw (compact, read_all) refl,
      merge_memtable-IsSorted db.memtable from_tables sorted,
      λ k. ground (arith, find-merge_memtable k db.memtable from_tables s, finds k),
    )
