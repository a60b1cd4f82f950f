-- ===== src/Engine/Range/Sources.antt =====
-- The sources that `get_range_internal` merges (src/vortex.cpp): the memtable and the tables.
use vortex_db.Base.{◌≡◌, refl, ap, sym, ◌∙◌, List, [], ◌∷◌, ◌++◌, All, inl, inr}
use vortex_db.Base.Words.{Bytes}
use vortex_db.Base.Order.{Ordering-cases, lex}
use vortex_db.Base.Map.{Map, IsSorted, lower_bound}
use vortex_db.Files.{Disk}
use vortex_db.Vlog.{ValuePointer, VortexData}
use vortex_db.Vlog.Cache.{IsCoherent}
use vortex_db.SsTable.{new_iterator}
use vortex_db.SsTable.Index.{table_of}
use vortex_db.SsTable.Seek.{last_entry}
use vortex_db.SsTable.Find.{new_iterator-IsOn}
use vortex_db.Engine.State.{VortexDb, newest_first}
use vortex_db.Engine.Tables.{TableFile, tables_of, IsStored}
use vortex_db.Engine.Merge.{memtable_iterator, seek}
use vortex_db.Engine.Merge.Views.{memtable-Views, from_target, sst-seek-Views}
use vortex_db.Engine.Merge.Sources.{SeekTo}
use vortex_db.Engine.Range.{table_iterators, iterators}
use vortex_db.Engine.Range.Walk.{IsLoaded}

-- The files of the tables, the newest first.
unfoldable pub newest_files : List TableFile → List TableFile
newest_files [] = []
newest_files (f ∷ files) = newest_files files ++ f ∷ []

tables_of-append :
    (fs : List TableFile) (f : TableFile)
    → tables_of (fs ++ f ∷ []) ≡ tables_of fs ++ table_of f.0 f.1 ∷ []
unfolding tables_of
tables_of-append [] f = refl
tables_of-append (g ∷ fs) f = ap (λ ts. table_of g.0 g.1 ∷ ts) (tables_of-append fs f)

newest_first-tables_of :
    (files : List TableFile) → newest_first (tables_of files) ≡ tables_of (newest_files files)
unfolding newest_first tables_of newest_files
newest_first-tables_of [] = refl
newest_first-tables_of (f ∷ files) =
    ap (λ ts. ts ++ table_of f.0 f.1 ∷ []) (newest_first-tables_of files)
    ∙ sym (tables_of-append (newest_files files) f)

pub newest_files-All :
    (P : TableFile → Type 0) (files : List TableFile) → All P files → All P (newest_files files)
unfolding newest_files
newest_files-All P [] a = tt
newest_files-All P (f ∷ files) (a, rest) = snoc (newest_files files) (newest_files-All P files rest)
  where
    snoc : (fs : List TableFile) → All P fs → All P (fs ++ f ∷ [])
    snoc [] h = (a, tt)
    snoc (g ∷ fs) (h, hs) = (h, snoc fs hs)

-- The entries that each iterator shows after `seek`.
abbrev pub table_sources : Bytes → List TableFile → List (Map ValuePointer)
table_sources start [] = []
table_sources start ((fname, m) ∷ files) = from_target start m ∷ table_sources start files

abbrev pub sources : Bytes → Map ValuePointer → List TableFile → List (Map ValuePointer)
sources start m files = lower_bound start m ∷ table_sources start (newest_files files)

table_iterators-SeekTo :
    (start : Bytes) (files : List TableFile) (d : Disk)
    → All (IsStored d) files
    → SeekTo start (table_iterators (tables_of files) d) (table_sources start files)
unfolding table_iterators tables_of
table_iterators-SeekTo start [] d a = tt
table_iterators-SeekTo start ((fname, m) ∷ files) d ((t, file), a) = (
  sst-seek-Views start m (new_iterator (table_of fname m) d) t (new_iterator-IsOn fname m d t file),
  table_iterators-SeekTo start files d a,
)

-- The database and its files fit together, and `load` gives the value of each pointer.
pub record IsServing (load : ValuePointer → VortexData) (files : List TableFile) (db : VortexDb)
    (d : Disk) : Type 0 where
  pub sorted : IsSorted db.memtable
  pub tables : db.sstables ≡ tables_of files
  pub stored : All (IsStored d) files
  pub coherent : IsCoherent db.reader d
  pub loaded : IsLoaded load db.reader.base_path d db.memtable
  pub loaded_tables : All (λ f. IsLoaded load db.reader.base_path d f.1) files

pub iterators-SeekTo :
    (load : ValuePointer → VortexData) (start : Bytes) (files : List TableFile) (db : VortexDb)
    (d : Disk)
    → IsServing load files db d
    → SeekTo start (iterators db d) (sources start db.memtable files)
unfolding iterators seek
iterators-SeekTo load start files db d v =
    let same = ap newest_first v.tables ∙ newest_first-tables_of files in
    (
      (
        memtable_iterator db.memtable (lower_bound start db.memtable),
        refl,
        memtable-Views db.memtable (lower_bound start db.memtable),
      ),
      rw same (
          table_iterators-SeekTo start (newest_files files) d
            (newest_files-All (IsStored d) files v.stored)),
    )

module _ (P : Bytes × ValuePointer → Type 0) where
  pub lower_bound-All :
      (start : Bytes) (m : Map ValuePointer) → All P m → All P (lower_bound start m)
  unfolding lower_bound
  lower_bound-All start [] a = tt
  lower_bound-All start ((k, p) ∷ m) (a, rest) = elim (Ordering-cases (lex k start)) [
    | inl below ↦ rw (below, lower_bound) (lower_bound-All start m rest)
    | inr (inl same) ↦ rw (same, lower_bound) (a, rest)
    | inr (inr above) ↦ rw (above, lower_bound) (a, rest)
  ]

  last_entry-P :
      (e : Bytes × ValuePointer) (m : Map ValuePointer) → P e → All P m → P (last_entry e m)
  last_entry-P e [] h a = h
  last_entry-P e (f ∷ m) h (a, rest) = last_entry-P f m a rest

  from_target-All : (start : Bytes) (m : Map ValuePointer) → All P m → All P (from_target start m)
  unfolding from_target
  from_target-All start [] a = tt
  from_target-All start (e ∷ m) a = go (lower_bound start (e ∷ m)) (lower_bound-All start (e ∷ m) a)
    where
      go :
          (low : Map ValuePointer)
          → All P low
          → All P (elim low [ [] ↦ last_entry e m ∷ [] | l ∷ ls ↦ l ∷ ls ])
      go [] b = (last_entry-P e m a.0 a.1, tt)
      go (l ∷ ls) b = b

  pub table_sources-All :
      (start : Bytes) (files : List TableFile)
      → All (λ f. All P f.1) files
      → All (All P) (table_sources start files)
  table_sources-All start [] a = tt
  table_sources-All start ((fname, m) ∷ files) (a, rest) =
      (from_target-All start m a, table_sources-All start files rest)
