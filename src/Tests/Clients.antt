-- ===== src/Tests/Clients.antt =====
-- The server and the shell over a small database in memory (src/server.cpp, src/main.cpp).
use vortex_db.Base.{ℕ, ◌≡◌, refl, none, some, List, [], ◌∷◌, ◌++◌, length, if◌then◌else◌, map, suc}
use vortex_db.Base.Words.{Bytes}
use vortex_db.Base.Order.{◌=ˢ◌, lex}
use vortex_db.Base.Map
use vortex_db.Base.Map.{Map}
use vortex_db.Files.{ok, ◌>>=◌}
use vortex_db.Vlog.{string, sub_vortex}
use vortex_db.Text.{
  codes, read_word, trim_line, get_line, is_space, to_upper, to_upper_all, is_line_end, front_is,
  back_is,
}
use vortex_db.Database.{VortexStats, Database}
use vortex_db.Server.{crlf, process_command, handle_client}
use vortex_db.Server.Commands.{Command, set_key, get_range, stats, print, perform}
use vortex_db.Server.Dispatch.{process_command-print}
use vortex_db.Server.Errors.{no_bounds, process_command-Malformed, process_command-case}
use vortex_db.Server.Session.{line_of, perform_all, handle_client-lines}
use vortex_db.Shell.{Shell, Entry}

abbrev found : Bytes → Map Bytes → Bytes
found k s = elim (Map.find k s) [ none ↦ codes "ERROR: Key not found." | some v ↦ v ]

-- The key `a` is a database, whose depth is that of its parent and one more.
abbrev memory : Database ℕ (Map Bytes)
memory = record {
  put = λ d k v s. ok (Map.insert k v s);
  del = λ d k s. ok (Map.erase k s);
  get = λ d k s. ok (found k s, s);
  get_type = λ d k s. ok ((if k =ˢ codes "a" then sub_vortex else string), s);
  spawn_vortex = λ d k s. ok (Map.insert k k s);
  resolve_path = λ d part s. ok (some (suc d), s);
  compact = λ d s. ok s;
  compact_all = λ d s. ok s;
  get_stats = λ d s. ok (record { live_keys = length s; total_entries = length s }, s);
  save_state = λ d name path s. ok s;
  load_state = λ d name s. ok s;
  get_all_keys = λ d s. ok ([], s);
  get_db_name = λ d. codes "root";
  get_prefix = λ d p s. ok (s, s);
  get_range = λ d a b s. ok (s, s);
  convert_to_subdb = λ d k s. ok s;
}

abbrev stored : Map Bytes
stored = (codes "k", codes "v") ∷ []

set_k :
    process_command memory 0 (codes "set k  v w") stored
    ≡ ok (codes "OK", (codes "k", codes "v w") ∷ [])
unfolding process_command read_word lex to_upper_all Map.insert trim_line get_line
set_k = refl

process_command-print_example :
    process_command memory 0 (print (set_key (codes "k") (codes "v w"))) stored
    ≡ perform memory 0 (set_key (codes "k") (codes "v w")) stored
unfolding is_space front_is back_is is_line_end
process_command-print_example =
    process_command-print memory 0 (set_key (codes "k") (codes "v w")) stored
      ((refl, tt), (refl, (refl, (refl, tt))), refl, refl)

process_command-Malformed_example :
    process_command memory 0 (codes "get range") stored
    ≡ ok (codes "ERROR: Missing Range Bounds", stored)
unfolding is_space to_upper_all to_upper
process_command-Malformed_example =
    process_command-Malformed memory 0 (codes "get range") (codes "ERROR: Missing Range Bounds")
      stored
      (no_bounds (codes "get") (codes "range") [] (refl, (refl, (refl, tt))) refl
        (refl, (refl, (refl, (refl, (refl, tt))))) refl tt)

process_command-case_example :
    process_command memory 0 (codes "Get k") stored
    ≡ process_command memory 0 (codes "gET k") stored
unfolding is_space to_upper_all to_upper
process_command-case_example =
    process_command-case memory 0 (codes "Get") (codes "gET") (codes " k") stored
      (refl, (refl, (refl, tt))) (refl, (refl, (refl, tt))) refl refl

abbrev commands : List Command
commands = set_key (codes "j") (codes "w") ∷ get_range (codes "a") [] ∷ stats ∷ []

handle_client-lines_example : handle_client memory 0 (map line_of commands) stored ≡ (do
  (responses, s') ← perform_all memory 0 commands stored
  ok ((codes "--- Welcome to VortexDB Server ---" ++ crlf) ∷ responses, s'))
unfolding is_space front_is back_is is_line_end
handle_client-lines_example =
    handle_client-lines memory 0 commands stored
      (((refl, tt), (refl, tt), refl, refl), (((refl, tt), tt), (tt, tt)))

abbrev no_files : Map Bytes → List Entry
no_files s = []

abbrev clock : Map Bytes → ℕ
clock s = 7

abbrev percent : VortexStats → Bytes
percent v = codes "0.00"

-- The shell one database below the root.
abbrev entered : Shell ℕ
entered = record { path_stack = 1 ∷ 0 ∷ []; name_stack = codes "a" ∷ codes "root" ∷ [] }
