-- ===== src/Engine/Delete.antt =====
-- `del` of src/vortex.cpp, on keys without a slash.
pub mod Buried
use vortex_db.Base.{ℕ, Bool, Option, none, some, [], if◌then◌else◌}
use vortex_db.Base.Words.{Bytes}
use vortex_db.Base.Map
use vortex_db.Files.{Run, ok, ◌>>=◌, Disk}
use vortex_db.Vlog.{tombstone}
use vortex_db.Vlog.Writer.{append_entry}
use vortex_db.Cuckoo
use vortex_db.Engine.State.{VortexDb, make_room, flush_and_read, is_sub_vortex}

-- The end of `del`: a tombstone goes to the log, its pointer to the memtable, and the key out of the
-- filter.
unfoldable pub bury : Bytes → VortexDb → Disk → VortexDb × Disk
bury key db d =
    let (w, d₁, ptr) = append_entry key [] tombstone db.writer d in
    (
      record db {
        writer = w;
        memtable = Map.insert key ptr db.memtable;
        filter = (Cuckoo.remove db.filter key).1;
      },
      d₁,
    )

-- `del` behind the split of the path. There is no state after it if the key is that of a database:
-- the databases within a database are not part of `VortexDb`.
unfoldable pub del : ℕ → Bytes → VortexDb → Disk → Run (Option (VortexDb × Disk))
unfolding make_room flush_and_read bury is_sub_vortex
del now key db d = do
  (db₁, d₁) ← make_room now db d
  elim (Map.find key db₁.memtable) [
    | none ↦ ok (some (bury key db₁ d₁))
    | some ptr ↦ do
      (data_read, db₂, d₂) ← flush_and_read ptr db₁ d₁
      ok (if is_sub_vortex data_read.type then none else some (bury key db₂ d₂))
  ]
