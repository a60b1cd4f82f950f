-- ===== src/Tests/Served.antt =====
-- A client of the server over an empty database (src/server.cpp, src/vortex.cpp).
use vortex_db.Base.{◌≡◌, refl, arith, inl}
use vortex_db.Base.Order.{lex}
use vortex_db.Base.Map.{find}
use vortex_db.Files.{ok, indeterminate, Disk}
use vortex_db.Text.{codes, is_space, front_is, back_is, is_line_end, to_upper_all}
use vortex_db.Database.{Database}
use vortex_db.Vlog.Writer
use vortex_db.Cuckoo
use vortex_db.Cuckoo.Valid.{new-IsValid}
use vortex_db.Engine.State.{VortexDb, not_found}
use vortex_db.Server.{process_command}
use vortex_db.Server.Commands.{get_key, del_key, print}
use vortex_db.Together.{has_slash, engine}
use vortex_db.Together.Answers.{process_command-del_get}
use vortex_db.Tests.Databases.{empty_database, empty_disk, empty_database-IsSound, no_draws}

-- Nothing serves what the engine does not.
abbrev nothing : Database Unit (VortexDb × Disk)
nothing = record {
  put = λ u k v s. indeterminate;
  del = λ u k s. indeterminate;
  get = λ u k s. indeterminate;
  get_type = λ u k s. indeterminate;
  spawn_vortex = λ u k s. indeterminate;
  resolve_path = λ u k s. indeterminate;
  compact = λ u s. indeterminate;
  compact_all = λ u s. indeterminate;
  get_stats = λ u s. indeterminate;
  save_state = λ u n p s. indeterminate;
  load_state = λ u n s. indeterminate;
  get_all_keys = λ u s. indeterminate;
  get_db_name = λ u. codes "db";
  get_prefix = λ u p s. indeterminate;
  get_range = λ u a b s. indeterminate;
  convert_to_subdb = λ u k s. indeterminate;
}

process_command-del_get_example :
    (s : VortexDb × Disk) × (t : VortexDb × Disk) × (process_command
        (engine no_draws 0 9 nothing)
        tt
        (print (del_key (codes "k")))
        (empty_database, empty_disk)
      ≡ ok (codes "OK", s))
    × (process_command (engine no_draws 0 9 nothing) tt (print (get_key (codes "k"))) s
        ≡ ok (not_found, t))
unfolding is_space front_is back_is is_line_end to_upper_all lex has_slash find Writer.new
process_command-del_get_example =
    process_command-del_get no_draws 0 9 nothing (codes "k") empty_database empty_disk
      ((refl, tt), refl, refl) refl empty_database-IsSound
      (new-IsValid 3 (omega arith) (omega arith)) (omega arith) (omega arith) (omega arith)
      (inl refl)
