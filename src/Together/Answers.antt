-- ===== src/Together/Answers.antt =====
-- What a client of the server finds in the engine (src/server.cpp, src/vortex.cpp).
use vortex_db.Base.{ℕ, ◌<◌, ◌+◌, ◌^◌, ◌≡◌, refl, ◌∙◌, false, [], length}
use vortex_db.Base.Words.{Bytes}
use vortex_db.Files.{ok, Disk}
use vortex_db.Text.{codes}
use vortex_db.Database.{Database}
use vortex_db.Cuckoo.Valid.{IsValid}
use vortex_db.Vlog.Append.{IsShort}
use vortex_db.Engine.State.{VortexDb, memtable_limit, not_found}
use vortex_db.Engine.Lookup.{IsSound}
use vortex_db.Engine.Store.{IsOverwritable}
use vortex_db.Engine.Delete.Buried.{del_runs}
use vortex_db.Server.{process_command}
use vortex_db.Server.Commands.{get_key, del_key, IsCommand, print, perform}
use vortex_db.Server.Dispatch.{process_command-print}
use vortex_db.Together.{has_slash, engine}

module _ (draw : ℕ → ℕ) (now fuel : ℕ) (rest : Database Unit (VortexDb × Disk)) where
  -- Over the engine, a client that sends `DEL` is told OK, and `GET` of the same key then answers that it
  -- is not found. The key is a word without a slash that neither ends in a star nor reads RANGE, and
  -- the memtable does not have it or leads it to something other than a database; the memtable has room, the filter is valid,
  -- the entry is shorter than 2^32 bytes, the number of the next segment fits in a `uint32_t`, and the
  -- invariants of the engine hold.
  pub process_command-del_get :
      (key : Bytes) (db : VortexDb) (d : Disk)
      → IsCommand (get_key key)
      → has_slash key ≡ false
      → IsSound db d
      → IsValid db.filter
      → IsShort key []
      → db.writer.current_file_id + 1 < 2 ^ 32
      → length db.memtable < memtable_limit
      → IsOverwritable key db d
      → (s : VortexDb × Disk) × (t : VortexDb × Disk) × (process_command
            (engine draw now fuel rest)
            tt
            (print (del_key key))
            (db, d)
          ≡ ok (codes "OK", s))
        × (process_command (engine draw now fuel rest) tt (print (get_key key)) s
            ≡ ok (not_found, t))
  unfolding perform
  process_command-del_get key db d can_get flat sound v short room small over =
      let ops = engine draw now fuel rest in
      let (s, gone, buries, (db', d', found)) =
        del_runs now key db d sound v short room small over in
      (
        s,
        (db', d'),
        process_command-print ops tt (del_key key) (db, d) can_get.0 ∙ rw (flat, gone) refl,
        process_command-print ops tt (get_key key) s can_get ∙ rw (flat, found) refl,
      )
