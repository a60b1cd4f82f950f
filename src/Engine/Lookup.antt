-- ===== src/Engine/Lookup.antt =====
-- `get` after `put` (src/vortex.cpp), on keys without a slash.
use vortex_db.Base.{◌≡◌, refl, ap, subst, ◌∙◌, true, false, some, arith}
use vortex_db.Base.Words.{Bytes}
use vortex_db.Base.Map
use vortex_db.Files.{ok, Disk}
use vortex_db.Vlog.{
  ValueType, string, int, double, bool, json, sub_vortex, tombstone, other, VortexData,
  ValuePointer, to_tag, of_tag,
}
use vortex_db.Vlog.Writer.{flush}
use vortex_db.Vlog.Reader.{invalidate}
use vortex_db.Vlog.Log.{logical}
use vortex_db.Vlog.Points.{Points, IsType}
use vortex_db.Vlog.Beside.{IsBeside, find-flush, flush-base}
use vortex_db.Cuckoo
use vortex_db.Cuckoo.{bucket, first_index, second_index}
use vortex_db.Cuckoo.Conserve.{IsTable}
use vortex_db.Engine.Infer.{is_plain}
use vortex_db.Engine.Scan.{is_tombstone}
use vortex_db.Engine.State.{VortexDb, flush_and_read, look_up, get, get_type, look_up_type}
use vortex_db.Engine.Ready.{IsReady, flush-Served, invalidate-IsReady}

pub plain-IsType :
    (type : ValueType) → is_plain type ≡ true → IsType type × (is_tombstone type ≡ false)
unfolding is_plain to_tag of_tag is_tombstone
plain-IsType string h = ((refl, omega arith), refl)
plain-IsType int h = ((refl, omega arith), refl)
plain-IsType double h = ((refl, omega arith), refl)
plain-IsType bool h = ((refl, omega arith), refl)
plain-IsType json h = ((refl, omega arith), refl)
plain-IsType sub_vortex h = absurd cc
plain-IsType tombstone h = absurd cc
plain-IsType (other tag) h = absurd cc

-- The memtable leads from the key to the value.
pub record Holds (db : VortexDb) (d : Disk) (key : Bytes) (x : VortexData) : Type 0 where
  pub ptr : ValuePointer
  pub found : Map.find key db.memtable ≡ some ptr
  pub points : Points (logical db.writer d ptr.file_id) ptr x

-- The parts of the database fit together.
pub record IsSound (db : VortexDb) (d : Disk) : Type 0 where
  pub ready : IsReady db.writer db.reader d
  pub table : IsTable db.filter

-- After a read: the same keys, the same tables with the same files, the same values and the same
-- filter.
pub record IsSame (db : VortexDb) (d : Disk) (db' : VortexDb) (d' : Disk) : Type 0 where
  pub sound : IsSound db' d'
  pub memtable : db'.memtable ≡ db.memtable
  pub filter : db'.filter ≡ db.filter
  pub log : logical db.writer d ≡ logical db'.writer d'
  pub number : db'.writer.current_file_id ≡ db.writer.current_file_id
  pub tables : db'.sstables ≡ db.sstables
  pub base : db'.writer.base_path ≡ db.writer.base_path
  pub files : (n : Bytes) → IsBeside db.writer.base_path n → Map.find n d' ≡ Map.find n d

pub IsSame-Holds :
    (db : VortexDb) (d : Disk) (db' : VortexDb) (d' : Disk) (key : Bytes) (x : VortexData)
    → IsSame db d db' d'
    → Holds db d key x
    → Holds db' d' key x
IsSame-Holds db d db' d' key x s h = record {
  ptr = h.ptr;
  found = ap (Map.find key) s.memtable ∙ h.found;
  points = subst (λ log. Points (log h.ptr.file_id) h.ptr x) s.log h.points;
}

pub flush_and_read-IsSame :
    (db : VortexDb) (d : Disk) (p : ValuePointer) (x : VortexData)
    → IsSound db d
    → Points (logical db.writer d p.file_id) p x
    → (db' : VortexDb) × (d' : Disk) × (flush_and_read p db d ≡ ok (x, db', d'))
      × IsSame db d db' d'
unfolding flush_and_read
flush_and_read-IsSame db d p x sound h =
    let s = flush-Served db.writer db.reader d p x sound.ready h in
    let w = flush false db.writer d in
    (
      record db { writer = w.0; reader = s.reader },
      w.1,
      ground (arith, s.run),
      record {
        sound = record { ready = s.ready; table = sound.table };
        memtable = refl;
        filter = refl;
        log = s.same;
        number = s.number;
        tables = refl;
        base = flush-base db.writer d false;
        files = λ n beside. find-flush n db.writer d beside false;
      },
    )

-- The same behind the call of `invalidate`.
pub invalidated-IsSame :
    (key : Bytes) (db : VortexDb) (d : Disk) (x : VortexData)
    → IsSound db d
    → (h : Holds db d key x)
    → (db' : VortexDb) × (d' : Disk) × (flush_and_read h.ptr
          (record db { reader = invalidate h.ptr.file_id db.reader })
          d
        ≡ ok (x, db', d'))
      × IsSame db d db' d'
invalidated-IsSame key db d x sound h =
    let db₀ : VortexDb = record db { reader = invalidate h.ptr.file_id db.reader } in
    let sound₀ : IsSound db₀ d = record {
      ready = invalidate-IsReady h.ptr.file_id db.writer db.reader d sound.ready;
      table = sound.table;
    } in
    let (db', d', run, same) = flush_and_read-IsSame db₀ d h.ptr x sound₀ h.points in
    (
      db',
      d',
      run,
      record {
        sound = same.sound;
        memtable = same.memtable;
        filter = same.filter;
        log = same.log;
        number = same.number;
        tables = same.tables;
        base = same.base;
        files = same.files;
      },
    )

-- If the memtable leads from a key to a value that is no tombstone, in the buffer or on disk, and
-- the filter has the key, `get` answers the value, and leaves the memtable, the list of the tables,
-- every file that is no segment of the log, the filter and the bytes of the log as they were. The
-- log, the reader's cache and the filter satisfy their invariants before and after.
pub get-Holds :
    (key : Bytes) (db : VortexDb) (d : Disk) (x : VortexData)
    → IsSound db d
    → Holds db d key x
    → is_tombstone x.type ≡ false
    → Cuckoo.contains db.filter key ≡ true
    → (db' : VortexDb) × (d' : Disk) × (get key db d ≡ ok (x.value, db', d')) × IsSame db d db' d'
unfolding get look_up
get-Holds key db d x sound h live has_key =
    let (db', d', run, same) = invalidated-IsSame key db d x sound h in
    (db', d', ground (arith, has_key, h.found, run, live), same)

-- If the memtable leads from a key to a value, in the buffer or on disk, and the filter has the key,
-- `get_type` answers the type, and leaves the memtable, the list of the tables, every file that is no
-- segment of the log, the filter and the bytes of the log as they were. The log, the reader's cache and the filter satisfy their invariants before and after.
pub get_type-Holds :
    (key : Bytes) (db : VortexDb) (d : Disk) (x : VortexData)
    → IsSound db d
    → Holds db d key x
    → Cuckoo.contains db.filter key ≡ true
    → (db' : VortexDb) × (d' : Disk) × (get_type key db d ≡ ok (x.type, db', d'))
      × IsSame db d db' d'
unfolding get_type look_up_type
get_type-Holds key db d x sound h has_key =
    let (db', d', run, same) = invalidated-IsSame key db d x sound h in
    (db', d', ground (arith, has_key, h.found, run), same)
