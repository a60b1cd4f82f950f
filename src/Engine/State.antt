-- ===== src/Engine/State.antt =====
-- The state of `VortexDB` (src/vortex.h) and the operations of src/vortex.cpp on keys without a slash.
-- The writer is there whenever one of these operations runs. Databases within a database are not
-- part of the state. `now` is the answer of `time(0)`.
use vortex_db.Base.{
  ℕ, Bool, true, false, Option, none, some, List, [], ◌∷◌, ◌++◌, length, leb, if◌then◌else◌,
}
use vortex_db.Base.Words.{Bytes, le_bytes}
use vortex_db.Base.Decimal.{to_string}
use vortex_db.Base.Map
use vortex_db.Base.Map.{Map}
use vortex_db.Files.{Run, ok, ◌>>=◌, Disk}
use vortex_db.Vlog.{ValueType, tombstone, sub_vortex, VortexData, ValuePointer}
use vortex_db.Vlog.Pointer.{pointer_bytes}
use vortex_db.Vlog.Writer.{VLogWriter, flush, append_entry}
use vortex_db.Vlog.Reader.{VLogReader, invalidate, read_value}
use vortex_db.Cuckoo
use vortex_db.Cuckoo.{CuckooFilter}
use vortex_db.SsTable
use vortex_db.SsTable.{SsTable}
use vortex_db.Manifest.{Manifest, register_sstable}
use vortex_db.Engine.Infer.{infer_type}
use vortex_db.Engine.Scan.{is_tombstone}

abbrev pub memtable_limit : ℕ
memtable_limit = 100000

pub record VortexDb : Type 0 where
  pub memtable : Map ValuePointer
  pub writer : VLogWriter
  pub reader : VLogReader
  pub db_name : Bytes
  pub filter : CuckooFilter
  pub sstables : List SsTable
  pub manifest : Manifest

-- `"ERROR: Key not found."`
abbrev pub not_found : Bytes
not_found =
    b'E' ∷ b'R' ∷ b'R' ∷ b'O' ∷ b'R' ∷ b':' ∷ b' ' ∷ b'K' ∷ b'e' ∷ b'y' ∷ b' ' ∷ b'n' ∷ b'o' ∷ b't'
    ∷ b' ' ∷ b'f' ∷ b'o' ∷ b'u' ∷ b'n' ∷ b'd' ∷ b'.' ∷ []

-- The loop of `save_index`; the length of a key is a `size_t`.
unfoldable pub index_bytes : Map ValuePointer → Bytes
index_bytes [] = []
index_bytes ((key, ptr) ∷ m) =
    le_bytes 8 (length key) ++ (key ++ (pointer_bytes ptr ++ index_bytes m))

abbrev pub index_name : VortexDb → Bytes
index_name db = db.db_name ++ b'.' ∷ b'i' ∷ b'd' ∷ b'x' ∷ []

unfoldable pub save_index : VortexDb → Disk → VortexDb × Disk
unfolding index_bytes
save_index db d =
    let (w, d₁) = flush true db.writer d in
    (record db { writer = w }, Map.insert (index_name db) (index_bytes db.memtable) d₁)

unfoldable pub sst_name : ℕ → VortexDb → Bytes
sst_name now db =
    db.db_name
    ++ b'_'
      ∷ (to_string (length db.sstables) ++ b'_' ∷ (to_string now ++ b'.' ∷ b's' ∷ b's' ∷ b't' ∷ []))

-- The part of `flush_memtable` behind the test for an empty memtable.
unfoldable pub flush_keys : ℕ → VortexDb → Disk → Run (VortexDb × Disk)
unfolding sst_name save_index
flush_keys now db d =
    let name = sst_name now db in
    let d₁ = SsTable.write_new name db.memtable d in
    do
      table ← SsTable.new name d₁
      let (manifest, d₂) = register_sstable name db.manifest d₁
      ok (
          save_index
            (record db { memtable = []; sstables = db.sstables ++ table ∷ []; manifest = manifest })
            d₂)

unfoldable pub flush_memtable : ℕ → VortexDb → Disk → Run (VortexDb × Disk)
unfolding flush_keys
flush_memtable now db d =
    let (w, d₁) = flush true db.writer d in
    let db₁ : VortexDb = record db { writer = w } in
    elim db.memtable [ [] ↦ ok (db₁, d₁) | _ ∷ _ ↦ flush_keys now db₁ d₁ ]

-- The test that `put` and `del` make first.
unfoldable pub make_room : ℕ → VortexDb → Disk → Run (VortexDb × Disk)
unfolding flush_memtable
make_room now db d =
    if leb memtable_limit (length db.memtable) then flush_memtable now db d else ok (db, d)

-- `writer->flush()` and a read through a pointer.
unfoldable pub flush_and_read : ValuePointer → VortexDb → Disk → Run (VortexData × VortexDb × Disk)
flush_and_read ptr db d =
    let (w, d₁) = flush false db.writer d in
    do (x, r) ← read_value ptr db.reader d₁; ok (x, record db { writer = w; reader = r }, d₁)

-- The end of `put`: the value goes to the log, the pointer to the memtable, the key to the filter.
unfoldable pub store : (ℕ → ℕ) → Bytes → Bytes → VortexDb → Disk → VortexDb × Disk
store draw key value db d =
    let (w, d₁, ptr) = append_entry key value (infer_type value) db.writer d in
    (
      record db {
        writer = w;
        memtable = Map.insert key ptr db.memtable;
        filter = (Cuckoo.insert draw db.filter key).1;
      },
      d₁,
    )

unfoldable pub is_sub_vortex : ValueType → Bool
is_sub_vortex sub_vortex = true
is_sub_vortex _ = false

-- `put` behind the split of the path.
unfoldable pub put : (ℕ → ℕ) → ℕ → Bytes → Bytes → VortexDb → Disk → Run (VortexDb × Disk)
unfolding make_room flush_and_read store is_sub_vortex
put draw now key value db d = do
  (db₁, d₁) ← make_room now db d
  elim (Map.find key db₁.memtable) [
    | none ↦ ok (store draw key value db₁ d₁)
    | some ptr ↦ do
      (current_data, db₂, d₂) ← flush_and_read ptr db₁ d₁
      ok (if is_sub_vortex current_data.type then (db₂, d₂) else store draw key value db₂ d₂)
  ]

-- The loop of `get` over the tables, the newest first.
unfoldable pub find_in_tables : List SsTable → Bytes → Disk → Run (Option ValuePointer)
find_in_tables [] key d = ok none
find_in_tables (table ∷ older) key d = do
  found ← SsTable.find table d key
  elim found [ none ↦ find_in_tables older key d | some ptr ↦ ok (some ptr) ]

unfoldable pub newest_first : List SsTable → List SsTable
newest_first [] = []
newest_first (t ∷ ts) = newest_first ts ++ t ∷ []

-- The answer of `get` to what it has read.
abbrev pub answer : VortexData → Bytes
answer x = if is_tombstone x.type then not_found else x.value

-- `get` behind the test of the filter.
unfoldable pub look_up : Bytes → VortexDb → Disk → Run (Bytes × VortexDb × Disk)
unfolding flush_and_read find_in_tables newest_first is_tombstone
look_up key db d = elim (Map.find key db.memtable) [
  | some ptr ↦ do
    (x, db₁, d₁) ← flush_and_read ptr (record db { reader = invalidate ptr.file_id db.reader }) d
    ok (answer x, db₁, d₁)
  | none ↦ do
    found ← find_in_tables (newest_first db.sstables) key d
    elim found [
      | none ↦ ok (not_found, db, d)
      | some ptr ↦ do
        (x, r) ← read_value ptr db.reader d
        ok (answer x, record db { reader = r }, d)
    ]
]

-- `get` behind the split of the path.
unfoldable pub get : Bytes → VortexDb → Disk → Run (Bytes × VortexDb × Disk)
unfolding look_up
get key db d =
    let found = look_up key db d in
    if Cuckoo.contains db.filter key then found else ok (not_found, db, d)

-- `get_type` behind the test of the filter.
unfoldable pub look_up_type : Bytes → VortexDb → Disk → Run (ValueType × VortexDb × Disk)
unfolding flush_and_read find_in_tables newest_first
look_up_type key db d = elim (Map.find key db.memtable) [
  | some ptr ↦ do
    (x, db₁, d₁) ← flush_and_read ptr (record db { reader = invalidate ptr.file_id db.reader }) d
    ok (x.type, db₁, d₁)
  | none ↦ do
    found ← find_in_tables (newest_first db.sstables) key d
    elim found [
      | none ↦ ok (tombstone, db, d)
      | some ptr ↦ do (x, r) ← read_value ptr db.reader d; ok (x.type, record db { reader = r }, d)
    ]
]

-- `get_type` behind the split of the path.
unfoldable pub get_type : Bytes → VortexDb → Disk → Run (ValueType × VortexDb × Disk)
unfolding look_up_type
get_type key db d =
    let found = look_up_type key db d in
    if Cuckoo.contains db.filter key then found else ok (tombstone, db, d)
