-- ===== src/Engine/Spares.antt =====
-- What `put` and `del` leave of the rest of the database (src/vortex.cpp).
use vortex_db.Base.{◌+◌, ◌^◌, ◌<◌, refl, ap, subst, ◌∙◌}
use vortex_db.Base.Words.{Bytes}
use vortex_db.Base.Map
use vortex_db.Files.{Disk}
use vortex_db.Vlog.{ValueType}
use vortex_db.Vlog.Writer.{append_entry, segment}
use vortex_db.Vlog.Points.{Points}
use vortex_db.Vlog.Append.{IsShort, append_entry-Appends}
use vortex_db.Vlog.Beside.{append_entry-IsLeft}
use vortex_db.Base.Order.{◌=ˢ◌}
use vortex_db.Cuckoo.{CuckooFilter}
use vortex_db.Engine.State.{VortexDb}
use vortex_db.Engine.Ready.{IsReady, append_entry-grows}
use vortex_db.Engine.Lookup.{IsSame}
use vortex_db.Engine.Reaches.{Spares}

-- An entry goes to the log, and its pointer to the memtable.
pub append_entry-Spares :
    (key value : Bytes) (type : ValueType) (db : VortexDb) (d : Disk)
    → IsReady db.writer db.reader d
    → db.writer.current_file_id + 1 < 2 ^ 32
    → IsShort key value
    → (filter : CuckooFilter)
    → (let r = append_entry key value type db.writer d in
        Spares key db d
          (record db { writer = r.0; memtable = Map.insert key r.2 db.memtable; filter = filter })
          r.1)
append_entry-Spares key value type db d ready room short filter =
    let w = db.writer in
    let r = append_entry key value type w d in
    record {
      memtable = λ j apart. rw (Map.find-insert key j r.2 db.memtable, apart) refl;
      tables = refl;
      base = (append_entry-Appends w d key value type ready.opened room short).base;
      files = λ n beside. (append_entry-IsLeft n key value type w d beside).1;
      values = append_entry-grows w db.reader d key value type ready room short;
    }

-- The same behind a read.
pub Spares-after :
    (key : Bytes) (db : VortexDb) (d : Disk) (db' : VortexDb) (d' : Disk) (s : VortexDb × Disk)
    → IsSame db d db' d'
    → Spares key db' d' s.0 s.1
    → Spares key db d s.0 s.1
Spares-after key db d db' d' s same spares = record {
  memtable = λ j apart. spares.memtable j apart ∙ ap (Map.find j) same.memtable;
  tables = spares.tables ∙ same.tables;
  base = spares.base ∙ same.base;
  files = λ n beside.
      spares.files n (λ id. ap (λ b. n =ˢ segment b id) same.base ∙ beside id)
      ∙ same.files n beside;
  values = λ p x h. spares.values p x (subst (λ log. Points (log p.file_id) p x) same.log h);
}
