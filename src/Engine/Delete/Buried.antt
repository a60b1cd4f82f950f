-- ===== src/Engine/Delete/Buried.antt =====
-- What a lookup finds behind `del` (src/vortex.cpp).
use vortex_db.Base.{ℕ, ◌+◌, ◌^◌, ◌<◌, ◌≡◌, refl, some, [], length, arith, inl, inr, Bool-cases}
use vortex_db.Base.Words.{Bytes}
use vortex_db.Base.Order.{lex_refl}
use vortex_db.Base.Map
use vortex_db.Files.{ok, Disk}
use vortex_db.Vlog.{tombstone, to_tag, of_tag, VortexData}
use vortex_db.Vlog.Writer.{append_entry}
use vortex_db.Vlog.Append.{IsShort}
use vortex_db.Vlog.Durable.{append_entry-Points}
use vortex_db.Cuckoo
use vortex_db.Cuckoo.Valid.{IsValid, remove-Removes}
use vortex_db.Engine.Scan.{is_tombstone}
use vortex_db.Engine.State.{VortexDb, memtable_limit, make_room, not_found, look_up, get}
use vortex_db.Engine.Ready.{append_entry-IsReady}
use vortex_db.Engine.Lookup.{Holds, IsSound, flush_and_read-IsSame, invalidated-IsSame}
use vortex_db.Engine.Reaches.{Spares}
use vortex_db.Engine.Spares.{append_entry-Spares, Spares-after}
use vortex_db.Engine.Store.{IsOverwritable}
use vortex_db.Engine.Delete.{bury, del}

abbrev pub gone : VortexData
gone = record { type = tombstone; value = [] }

-- The state `s` is one in which the key leads to a tombstone, and the rest is as it was.
pub record Buries (key : Bytes) (db : VortexDb) (d : Disk) (s : VortexDb × Disk) : Type 0 where
  pub sound : IsSound s.0 s.1
  pub holds : Holds s.0 s.1 key gone
  pub spares : Spares key db d s.0 s.1

bury-Buries :
    (key : Bytes) (db : VortexDb) (d : Disk)
    → IsSound db d
    → IsValid db.filter
    → IsShort key []
    → db.writer.current_file_id + 1 < 2 ^ 32
    → Buries key db d (bury key db d)
unfolding bury to_tag of_tag
bury-Buries key db d sound v short room =
    let w = db.writer in
    let r = append_entry key [] tombstone w d in
    let removed = remove-Removes db.filter key v in
    record {
      sound = record {
        ready = append_entry-IsReady w db.reader d key [] tombstone sound.ready room short;
        table = removed.valid.table;
      };
      holds = record {
        ptr = r.2;
        found = rw (Map.find-insert key key r.2 db.memtable, lex_refl key);
        points =
            append_entry-Points w d key [] tombstone sound.ready.opened room short
              (refl, omega arith);
      };
      spares =
          append_entry-Spares key [] tombstone db d sound.ready room short
            (Cuckoo.remove db.filter key).1;
    }

-- A key that leads to a tombstone is not found, whatever the filter says.
get-gone :
    (key : Bytes) (db : VortexDb) (d : Disk)
    → IsSound db d
    → Holds db d key gone
    → (db' : VortexDb) × (d' : Disk) × (get key db d ≡ ok (not_found, db', d'))
unfolding get look_up is_tombstone
get-gone key db d sound h =
    let (db', d', run, same) = invalidated-IsSame key db d gone sound h in
    elim (Bool-cases (Cuckoo.contains db.filter key)) [
      | inl has_key ↦ (db', d', ground (arith, has_key, h.found, run))
      | inr not_there ↦ (db, d, ground (arith, not_there))
    ]

-- `del` with room in the memtable runs through, for a key that the memtable does not have or leads to
-- something other than a database.
pub del_runs :
    (now : ℕ) (key : Bytes) (db : VortexDb) (d : Disk)
    → IsSound db d
    → IsValid db.filter
    → IsShort key []
    → db.writer.current_file_id + 1 < 2 ^ 32
    → length db.memtable < memtable_limit
    → IsOverwritable key db d
    → (s : VortexDb × Disk) × (del now key db d ≡ ok (some s))
      × Buries key db d s
      × ((db' : VortexDb) × (d' : Disk) × (get key s.0 s.1 ≡ ok (not_found, db', d')))
unfolding del make_room
del_runs now key db d sound v short room small (inl new) =
    let b = bury-Buries key db d sound v short room in
    (
      bury key db d,
      ground (arith, new),
      b,
      get-gone key (bury key db d).0 (bury key db d).1 b.sound b.holds,
    )
del_runs now key db d sound v short room small (inr (x, h, plain)) =
    let (db', d', run, same) = flush_and_read-IsSame db d h.ptr x sound h.points in
    let v' : IsValid db'.filter = rw same.filter v in
    let b = bury-Buries key db' d' same.sound v' short (omega (arith, room, same.number)) in
    (
      bury key db' d',
      ground (arith, h.found, run, plain),
      record {
        sound = b.sound;
        holds = b.holds;
        spares = Spares-after key db d db' d' _ same b.spares;
      },
      get-gone key (bury key db' d').0 (bury key db' d').1 b.sound b.holds,
    )
