-- ===== src/Engine/Tables.antt =====
-- The lookup of `get` in the tables (src/vortex.cpp).
use vortex_db.Base.{
  ◌≡◌, refl, ap, true, Option, none, some, List, [], ◌∷◌, ◌++◌, arith, All, inl, inr, ◌⊎◌,
}
use vortex_db.Base.Words.{Bytes}
use vortex_db.Base.Map
use vortex_db.Base.Map.{Map}
use vortex_db.Files.{Run, ok, indeterminate, Disk}
use vortex_db.Vlog.{ValuePointer, VortexData}
use vortex_db.Vlog.Reader.{VLogReader}
use vortex_db.Vlog.Points.{Points}
use vortex_db.Vlog.Cache.{IsCoherent, target, read_value-Points}
use vortex_db.Cuckoo
use vortex_db.SsTable
use vortex_db.SsTable.{SsTable}
use vortex_db.SsTable.Index.{IsTable, IsFile, table_of}
use vortex_db.SsTable.Find.{find-table_of}
use vortex_db.Engine.State.{VortexDb, find_in_tables, newest_first, answer, look_up, get}

-- The name of a table with the entries that it holds.
abbrev pub TableFile : Type 0
TableFile = Bytes × Map ValuePointer

-- The tables that are opened from the files, the oldest first.
unfoldable pub tables_of : List TableFile → List SsTable
tables_of [] = []
tables_of ((fname, m) ∷ files) = table_of fname m ∷ tables_of files

abbrev pub IsStored : Disk → TableFile → Type 0
IsStored d (fname, m) = IsTable m × IsFile fname m d

-- What the newest table that has the key holds for it.
unfoldable pub newest : Bytes → List TableFile → Option ValuePointer
newest key [] = none
newest key ((fname, m) ∷ files) = elim (newest key files) [
  | some p ↦ some p
  | none ↦ Map.find key m
]

Run-cases :
    (r : Run (Option ValuePointer)) → (r ≡ indeterminate) ⊎ ((o : Option ValuePointer) × (r ≡ ok o))
Run-cases indeterminate = inl refl
Run-cases (ok o) = inr (o, refl)

find_in_tables-append :
    (ts : List SsTable) (t : SsTable) (key : Bytes) (d : Disk) (o : Option ValuePointer)
    (last : Option ValuePointer)
    → find_in_tables ts key d ≡ ok o
    → SsTable.find t d key ≡ ok last
    → find_in_tables (ts ++ t ∷ []) key d ≡ ok (elim o [ some p ↦ some p | none ↦ last ])
unfolding find_in_tables
find_in_tables-append [] t key d o last h e = ground (arith, h, e)
find_in_tables-append (u ∷ ts) t key d o last h e = elim (Run-cases (SsTable.find u d key)) [
  | inl stuck ↦ absurd (ground (arith, stuck, h))
  | inr (none, missing) ↦
      rw (missing, find_in_tables)
        (find_in_tables-append ts t key d o last (rw (missing, find_in_tables) at h) e)
  | inr (some p, found) ↦ ground (arith, found, h)
]

-- The loop of `get` over the tables answers what the newest table that has the key holds for it, if
-- each table is opened from a file that `write_new` has written for a sorted map in range.
pub find_in_tables-newest :
    (files : List TableFile) (key : Bytes) (d : Disk)
    → All (IsStored d) files
    → find_in_tables (newest_first (tables_of files)) key d ≡ ok (newest key files)
unfolding newest newest_first tables_of find_in_tables
find_in_tables-newest [] key d good = refl
find_in_tables-newest ((fname, m) ∷ files) key d ((t, file), good) =
    find_in_tables-append (newest_first (tables_of files)) (table_of fname m) key d
      (newest key files) (Map.find key m) (find_in_tables-newest files key d good)
      (find-table_of fname key m d t file)

-- If the memtable does not have a key, the filter has it, and the newest table with the key points to
-- a value on disk, `get` answers the value, or that the key is not there if it is a tombstone, and
-- changes nothing but the reader, whose cache stays coherent with the disk. Each table is opened from
-- a file that `write_new` has written for a sorted map in range.
pub get-newest :
    (files : List TableFile) (key : Bytes) (db : VortexDb) (d : Disk) (p : ValuePointer)
    (x : VortexData)
    → Map.find key db.memtable ≡ none
    → Cuckoo.contains db.filter key ≡ true
    → db.sstables ≡ tables_of files
    → All (IsStored d) files
    → newest key files ≡ some p
    → IsCoherent db.reader d
    → Points (target db.reader.base_path p d) p x
    → (r' : VLogReader) × (get key db d ≡ ok (answer x, record db { reader = r' }, d))
      × IsCoherent r' d
unfolding get look_up
get-newest files key db d p x absent has_key tables good first co points =
    let (r', run, co', _) = read_value-Points p x db.reader d co points in
    let opened = ap (λ ts. find_in_tables (newest_first ts) key d) tables in
    (
      r',
      ground (arith, absent, has_key, opened, find_in_tables-newest files key d good, first, run),
      co',
    )
