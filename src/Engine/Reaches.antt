-- ===== src/Engine/Reaches.antt =====
-- The pointer that a lookup of `get` finds (src/vortex.cpp): in the memtable, or else in the newest
-- table with the key.
use vortex_db.Base.{◌≡◌, refl, ap, ◌∙◌, false, Option, none, some, List, [], ◌∷◌, ◌++◌, All}
use mathlib.Core.Path.{ap₂}
use vortex_db.Base.Words.{Bytes}
use vortex_db.Base.Order.{◌=ˢ◌}
use vortex_db.Base.Map
use vortex_db.Files.{Run, ok, ◌>>=◌, Disk}
use vortex_db.Vlog.{ValuePointer, VortexData}
use vortex_db.Vlog.Log.{logical}
use vortex_db.Vlog.Points.{Points}
use vortex_db.Vlog.Beside.{IsBeside}
use vortex_db.SsTable
use vortex_db.SsTable.{SsTable}
use vortex_db.Engine.State.{VortexDb, find_in_tables, newest_first, is_sub_vortex}

abbrev or_else : Option ValuePointer → Run (Option ValuePointer) → Run (Option ValuePointer)
or_else o tables = elim o [ some p ↦ ok (some p) | none ↦ tables ]

abbrev pub pointer_of : Bytes → VortexDb → Disk → Run (Option ValuePointer)
pointer_of key db d =
    or_else (Map.find key db.memtable) (find_in_tables (newest_first db.sstables) key d)

-- The key leads to the value, through the memtable or through a table.
pub record Reaches (db : VortexDb) (d : Disk) (key : Bytes) (x : VortexData) : Type 0 where
  pub ptr : ValuePointer
  pub found : pointer_of key db d ≡ ok (some ptr)
  pub points : Points (logical db.writer d ptr.file_id) ptr x

-- No table has the name of a segment of the log.
abbrev pub IsSeparate : VortexDb → Type 0
IsSeparate db = All (λ t. IsBeside db.writer.base_path t.filename) db.sstables

-- The key does not lead to a database.
abbrev pub IsNoDatabase : Bytes → VortexDb → Disk → Type 0
IsNoDatabase key db d = (x : VortexData) → Reaches db d key x → is_sub_vortex x.type ≡ false

-- What an operation on a key leaves of the rest of the database.
pub record Spares (key : Bytes) (db : VortexDb) (d : Disk) (db' : VortexDb) (d' : Disk)
    : Type 0 where
  pub memtable : (j : Bytes) → (j =ˢ key) ≡ false → Map.find j db'.memtable ≡ Map.find j db.memtable
  pub tables : db'.sstables ≡ db.sstables
  pub base : db'.writer.base_path ≡ db.writer.base_path
  pub files : (n : Bytes) → IsBeside db.writer.base_path n → Map.find n d' ≡ Map.find n d
  pub values :
      (p : ValuePointer) (x : VortexData)
      → Points (logical db.writer d p.file_id) p x
      → Points (logical db'.writer d' p.file_id) p x

-- A table is read through its file only.
find-same :
    (t : SsTable) (key : Bytes) (d d' : Disk)
    → Map.find t.filename d' ≡ Map.find t.filename d
    → SsTable.find t d' key ≡ SsTable.find t d key
unfolding SsTable.find SsTable.new_iterator
find-same t key d d' e = rw e refl

find_in_tables-same :
    (ts : List SsTable) (key : Bytes) (d d' : Disk)
    → All (λ t. Map.find t.filename d' ≡ Map.find t.filename d) ts
    → find_in_tables ts key d' ≡ find_in_tables ts key d
unfolding find_in_tables
find_in_tables-same [] key d d' e = refl
find_in_tables-same (t ∷ ts) key d d' (e, es) = rw (find-same t key d d' e) (
    ap
      (λ (rest : Run (Option ValuePointer)).
        SsTable.find t d key >>= (λ found. elim found [ none ↦ rest | some ptr ↦ ok (some ptr) ]))
      (find_in_tables-same ts key d d' es))

All-map :
    (P Q : SsTable → Type 0) (ts : List SsTable) → ((t : SsTable) → P t → Q t) → All P ts → All Q ts
All-map P Q [] f a = tt
All-map P Q (t ∷ ts) f (a, rest) = (f t a, All-map P Q ts f rest)

All-snoc :
    (P : SsTable → Type 0) (ts : List SsTable) (t : SsTable) → All P ts → P t → All P (ts ++ t ∷ [])
All-snoc P [] t a h = (h, tt)
All-snoc P (u ∷ ts) t (a, rest) h = (a, All-snoc P ts t rest h)

newest_first-All : (P : SsTable → Type 0) (ts : List SsTable) → All P ts → All P (newest_first ts)
unfolding newest_first
newest_first-All P [] a = tt
newest_first-All P (t ∷ ts) (a, rest) =
    All-snoc P (newest_first ts) t (newest_first-All P ts rest) a

module _ (key : Bytes) (db : VortexDb) (d : Disk) (db' : VortexDb) (d' : Disk)
    (spares : Spares key db d db' d') (separate : IsSeparate db) where
  pub Spares-pointer : (j : Bytes) → (j =ˢ key) ≡ false → pointer_of j db' d' ≡ pointer_of j db d
  Spares-pointer j apart =
      let same = find_in_tables-same (newest_first db.sstables) j d d' (
        newest_first-All (λ t. Map.find t.filename d' ≡ Map.find t.filename d) db.sstables
          (All-map (λ t. IsBeside db.writer.base_path t.filename)
            (λ t. Map.find t.filename d' ≡ Map.find t.filename d) db.sstables
            (λ t h. spares.files t.filename h) separate)) in
      ap₂ or_else (spares.memtable j apart)
        (ap (λ ts. find_in_tables (newest_first ts) j d') spares.tables ∙ same)

  pub Spares-Reaches :
      (j : Bytes) (x : VortexData) → (j =ˢ key) ≡ false → Reaches db d j x → Reaches db' d' j x
  Spares-Reaches j x apart r = record {
    ptr = r.ptr;
    found = Spares-pointer j apart ∙ r.found;
    points = spares.values r.ptr x r.points;
  }
