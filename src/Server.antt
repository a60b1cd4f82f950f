-- ===== src/Server.antt =====
-- `VortexServer` of src/server.cpp: the commands of a client, behind the sockets.
pub mod Commands
pub mod Texts
pub mod Dispatch
pub mod Errors
pub mod Session
use vortex_db.Base.{ℕ, Bool, Option, none, some, List, [], ◌∷◌, ◌++◌, ◌==◌, if◌then◌else◌}
use vortex_db.Base.Words.{Bytes}
use vortex_db.Base.Order.{◌=ˢ◌}
use vortex_db.Base.Decimal.{to_string}
use vortex_db.Base.Map.{Map}
use vortex_db.Files.{Run, ok, ◌>>=◌}
use vortex_db.Text.{
  codes, to_upper_all, skip_space, read_word, get_line, back_is, drop_back, unquote, trim_line,
}
use vortex_db.Database.{Database}

abbrev pub crlf : Bytes
crlf = b'\r' ∷ b'\n' ∷ []

abbrev pub is_star : ℕ → Bool
is_star c = c == b'*'

-- The lines of the matches of a range or a prefix.
unfoldable pub match_lines : Map Bytes → Bytes
match_lines [] = []
match_lines ((k, v) ∷ results) =
    codes "[" ++ (k ++ (codes "] => " ++ (v ++ (crlf ++ match_lines results))))

-- The answer to a range or a prefix, under its title.
unfoldable pub report : Bytes → Map Bytes → Bytes
unfolding match_lines
report title [] = codes "ERROR: No matching keys found"
report title (e ∷ results) =
    trim_line (title ++ (crlf ++ (match_lines (e ∷ results) ++ codes "----------------------")))

module _ {D S : Type 0} (ops : Database D S) (db : D) where
  unfoldable pub run_set : Bytes → S → Run (Bytes × S)
  run_set args s = elim (read_word args) [
    | none ↦ ok (codes "ERROR: Missing Key", s)
    | some (key, rest) ↦ do
      s' ← ops.put db key (trim_line (get_line (skip_space rest))) s
      ok (codes "OK", s')
  ]

  unfoldable pub run_range : Bytes → S → Run (Bytes × S)
  unfolding report
  run_range args s = elim (read_word args) [
    | none ↦ ok (codes "ERROR: Missing Range Bounds", s)
    | some (start_key, rest) ↦ elim (read_word rest) [
      | none ↦ ok (codes "ERROR: Missing Range Bounds", s)
      | some (end_key, _) ↦ do
        (results, s') ← ops.get_range db (unquote start_key) (unquote end_key) s
        ok (report (codes "--- RANGE MATCHES ---") results, s')
    ]
  ]

  unfoldable pub run_prefix : Bytes → S → Run (Bytes × S)
  unfolding report
  run_prefix prefix s = do
    (results, s') ← ops.get_prefix db prefix s
    ok (report (codes "--- PREFIX MATCHES ---") results, s')

  unfoldable pub run_get : Bytes → S → Run (Bytes × S)
  unfolding run_range run_prefix
  run_get args s = elim (read_word args) [
    | none ↦ ok (codes "ERROR: Missing Key", s)
    | some (key, rest) ↦
        if to_upper_all key =ˢ codes "RANGE"
        then run_range rest s
        else if back_is is_star key
        then run_prefix (drop_back key) s
        else ops.get db key s
  ]

  unfoldable pub run_del : Bytes → S → Run (Bytes × S)
  run_del args s = elim (read_word args) [
    | none ↦ ok (codes "ERROR: Missing Key", s)
    | some (key, rest) ↦ do s' ← ops.del db key s; ok (codes "OK", s')
  ]

  unfoldable pub run_convert : Bytes → S → Run (Bytes × S)
  run_convert args s = elim (unquote (get_line (skip_space args))) [
    | [] ↦ ok (codes "ERROR: Missing Key", s)
    | c ∷ arg ↦ do s' ← ops.convert_to_subdb db (c ∷ arg) s; ok (codes "OK", s')
  ]

  unfoldable pub run_save : Bytes → S → Run (Bytes × S)
  run_save args s = elim (read_word args) [
    | none ↦ ok (codes "ERROR: Missing Argument", s)
    | some (arg1, rest) ↦ elim (read_word rest) [
      | none ↦ do s' ← ops.save_state db arg1 [] s; ok (codes "OK", s')
      | some (arg2, _) ↦ do s' ← ops.save_state db arg2 arg1 s; ok (codes "OK", s')
    ]
  ]

  unfoldable pub run_load : Bytes → S → Run (Bytes × S)
  run_load args s = elim (read_word args) [
    | none ↦ ok (codes "ERROR: Missing State Name", s)
    | some (arg, _) ↦ do s' ← ops.load_state db arg s; ok (codes "OK", s')
  ]

  unfoldable pub run_stats : S → Run (Bytes × S)
  run_stats s = do
    (stats, s') ← ops.get_stats db s
    ok (
      codes "LIVE:"
          ++ (to_string stats.live_keys ++ (codes " TOTAL:" ++ to_string stats.total_entries)),
      s',
    )

  -- `action` is in upper case.
  unfoldable pub run_action : Bytes → Bytes → S → Run (Bytes × S)
  unfolding run_set run_get run_del run_convert run_save run_load run_stats
  run_action action args s =
      if action =ˢ codes "SET"
      then run_set args s
      else if action =ˢ codes "GET"
      then run_get args s
      else if action =ˢ codes "DEL"
      then run_del args s
      else if action =ˢ codes "CONVERT"
      then run_convert args s
      else if action =ˢ codes "SAVE"
      then run_save args s
      else if action =ˢ codes "LOAD"
      then run_load args s
      else if action =ˢ codes "STATS"
      then run_stats s
      else ok (codes "ERROR: Unknown Command '" ++ (action ++ codes "'"), s)

  unfoldable pub process_command : Bytes → S → Run (Bytes × S)
  unfolding run_action
  process_command raw_cmd s = elim (read_word raw_cmd) [
    | none ↦ ok (codes "ERROR: Missing Action", s)
    | some (action, args) ↦ run_action (to_upper_all action) args s
  ]

  -- The loop of `handle_client` over what `recv` answers; nothing received ends it. The responses in the
  -- order in which they are sent.
  unfoldable pub serve : List Bytes → S → Run (List Bytes × S)
  unfolding process_command
  serve [] s = ok ([], s)
  serve ([] ∷ chunks) s = ok ([], s)
  serve ((b ∷ bs) ∷ chunks) s = elim (trim_line (b ∷ bs)) [
    | [] ↦ serve chunks s
    | c ∷ raw_cmd ↦ do
      (response, s₁) ← process_command (c ∷ raw_cmd) s
      (responses, s₂) ← serve chunks s₁
      ok ((response ++ crlf) ∷ responses, s₂)
  ]

  unfoldable pub handle_client : List Bytes → S → Run (List Bytes × S)
  unfolding serve
  handle_client chunks s = do
    (responses, s') ← serve chunks s
    ok ((codes "--- Welcome to VortexDB Server ---" ++ crlf) ∷ responses, s')
