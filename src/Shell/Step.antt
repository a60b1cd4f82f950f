-- ===== src/Shell/Step.antt =====
-- The commands of the shell and its loop (src/main.cpp). `now` is the answer of the clock, `files` is
-- what `fs::directory_iterator(".")` yields, and `percent` the text of the ratio of `VortexStats`.
use vortex_db.Base.{ℕ, ◌&&◌, ◌||◌, not, Option, none, some, List, [], ◌∷◌, ◌++◌, if◌then◌else◌}
use vortex_db.Base.Words.{Bytes}
use vortex_db.Base.Order.{◌=ˢ◌}
use vortex_db.Base.Decimal.{to_string}
use vortex_db.Files.{Run, ok, indeterminate, ◌>>=◌}
use vortex_db.Text.{
  codes, skip_space, read_word, get_line, front_is, back_is, erase_front, drop_back, unquote,
}
use vortex_db.Database.{VortexStats, Database}
use vortex_db.Engine.State.{is_sub_vortex}
use vortex_db.Server.{is_star}
use vortex_db.Shell.{
  Shell, Entry, newline, word_or_empty, is_blank, is_empty, parts, print_matches, newest_state_of,
}

-- The shell at the root.
abbrev pub at_root : {D : Type 0} → D → Shell D
at_root root = record { path_stack = root ∷ []; name_stack = codes "root" ∷ [] }

-- `cd ..`; an empty vector has no back to remove.
unfoldable pub go_up : {D : Type 0} → Shell D → Run (Shell D)
go_up sh = elim sh.path_stack [
  | [] ↦ ok sh
  | d ∷ ds ↦ elim ds [
    | [] ↦ ok sh
    | d' ∷ ds' ↦ elim sh.name_stack [
      | [] ↦ indeterminate
      | n ∷ ns ↦ ok (record { path_stack = d' ∷ ds'; name_stack = ns })
    ]
  ]
]

module _ {D S : Type 0} (ops : Database D S) where
  -- The loop of `ls`.
  unfoldable pub list_keys : D → List Bytes → S → Run (Bytes × S)
  list_keys current_db [] s = ok ([], s)
  list_keys current_db (key ∷ keys) s = do
    (type, s₁) ← ops.get_type current_db key s
    (text, s₂) ← list_keys current_db keys s₁
    ok (
      (if is_sub_vortex type then codes "[DIR]   " else codes "[FILE] ")
          ++ (key ++ (newline ++ text)),
      s₂,
    )

  unfoldable pub run_ls : D → S → Run (Bytes × S)
  unfolding list_keys
  run_ls current_db s = do (keys, s₁) ← ops.get_all_keys current_db s; list_keys current_db keys s₁

  -- The loop of `cd` over the parts of its operand. After a part that leads nowhere, `traverse_db` is
  -- the null pointer, and the next part is looked up through it.
  unfoldable pub traverse : List Bytes → Option D → Shell D → S → Run (Shell D × S)
  traverse [] traverse_db sh s = ok (sh, s)
  traverse (part ∷ rest) none sh s =
      let further = traverse rest none sh s in if is_empty part then further else indeterminate
  traverse (part ∷ rest) (some d) sh s =
      let skipped = traverse rest (some d) sh s in
      let entered : Run (Shell D × S) = (do
        (found, s₁) ← ops.resolve_path d part s
        elim found [
          | none ↦ traverse rest none sh s₁
          | some d' ↦
              traverse rest (some d')
                (record { path_stack = d' ∷ sh.path_stack; name_stack = part ∷ sh.name_stack }) s₁
        ]) in
      if is_empty part then skipped else entered

  unfoldable pub run_cd : Bytes → D → Shell D → S → Run (Bytes × Shell D × S)
  unfolding traverse go_up
  run_cd arg current_db sh s =
      if arg =ˢ codes ".."
      then (do sh' ← go_up sh; ok ([], sh', s))
      else if is_empty arg
      then ok ([], sh, s)
      else (do
        (type, s₁) ← ops.get_type current_db arg s
        if is_sub_vortex type
            then (do (sh', s₂) ← traverse (parts arg) (some current_db) sh s₁; ok ([], sh', s₂))
            else ok (
              codes "[SYSTEM] Error: '"
                  ++ (arg ++ (codes "' is not a valid directory." ++ newline)),
              sh,
              s₁,
            ))

  unfoldable pub run_put : Bytes → D → S → Run S
  run_put args current_db s =
      let (key, rest) = word_or_empty args in
      let line : Bytes = get_line rest in
      let val : Bytes = if front_is is_blank line then erase_front line else line in
      if not (is_empty key) && not (is_empty val) then ops.put current_db key val s else ok s

  unfoldable pub run_get_range : Bytes → D → S → Run (Bytes × S)
  unfolding print_matches
  run_get_range args current_db s =
      let missing : Run (Bytes × S) =
        ok (codes "[SYSTEM] Error: Missing Range Bounds" ++ newline, s) in
      elim (read_word args) [
        | none ↦ missing
        | some (start_key, rest) ↦ elim (read_word rest) [
          | none ↦ missing
          | some (end_key, _) ↦ do
            (results, s') ← ops.get_range current_db (unquote start_key) (unquote end_key) s
            ok (print_matches (codes "--- RANGE MATCHES ---") results, s')
        ]
      ]

  unfoldable pub run_get : Bytes → D → S → Run (Bytes × S)
  unfolding run_get_range print_matches
  run_get args current_db s =
      let (key, rest) = word_or_empty args in
      let prefixed : Run (Bytes × S) = (do
        (results, s') ← ops.get_prefix current_db (drop_back key) s
        ok (print_matches (codes "--- PREFIX MATCHES ---") results, s')) in
      let plain : Run (Bytes × S) = (do
        (value, s') ← ops.get current_db key s
        ok (value ++ newline, s')) in
      if is_empty key
      then ok ([], s)
      else if (key =ˢ codes "range") || (key =ˢ codes "RANGE")
      then run_get_range rest current_db s
      else if back_is is_star key
      then prefixed
      else plain

  unfoldable pub run_save : Bytes → D → D → S → Run S
  run_save args root current_db s =
      let (arg1, rest) = word_or_empty args in
      elim (read_word rest) [
        | some (arg2, _) ↦ ops.save_state root arg2 arg1 s
        | none ↦ if is_empty arg1 then ok s else ops.save_state current_db arg1 [] s
      ]

  unfoldable pub run_spawn : Bytes → D → S → Run S
  run_spawn args current_db s =
      let arg : Bytes = (word_or_empty args).0 in
      if is_empty arg then ok s else ops.spawn_vortex current_db arg s

  unfoldable pub run_convert : Bytes → D → S → Run S
  run_convert args current_db s =
      let arg : Bytes = unquote (get_line (skip_space args)) in
      if is_empty arg then ok s else ops.convert_to_subdb current_db arg s

  unfoldable pub run_del : Bytes → D → S → Run S
  run_del args current_db s =
      let key : Bytes = (word_or_empty args).0 in
      if is_empty key then ok s else ops.del current_db key s

  unfoldable pub run_stats : (VortexStats → Bytes) → D → S → Run (Bytes × S)
  run_stats percent current_db s = do
    (stats, s') ← ops.get_stats current_db s
    ok (
      newline
          ++ (codes "--- ["
              ++ (ops.get_db_name current_db
                  ++ (codes "] HEALTH REPORT ---"
                      ++ (newline
                          ++ (codes "   Live Keys     : "
                              ++ (to_string stats.live_keys
                                  ++ (newline
                                      ++ (codes "   Total Entries : "
                                          ++ (to_string stats.total_entries
                                              ++ (newline
                                                  ++ (codes "   Waste Ratio   : "
                                                      ++ (percent stats
                                                          ++ (codes "%"
                                                            ++ (newline
                                                            ++ (codes
                                                            "--------------------------------"
                                                            ++ (newline ++ newline)))))))))))))))),
      s',
    )

  unfoldable pub run_load : (S → ℕ) → Bytes → D → Shell D → S → Run (Bytes × Shell D × S)
  run_load now args root sh s =
      let arg : Bytes = (word_or_empty args).0 in
      let auto_name : Bytes = codes "autosave_" ++ to_string (now s) in
      let loaded : Run (Bytes × Shell D × S) = (do
        s₁ ← ops.save_state root auto_name [] s
        s₂ ← ops.load_state root arg s₁
        ok (
          codes "[SYSTEM] Safety backup created: "
              ++ (auto_name
                  ++ (newline ++ (codes "[SYSTEM] State loaded. Shell reset to root." ++ newline))),
          at_root root,
          s₂,
        )) in
      if is_empty arg then ok ([], sh, s) else loaded

  unfoldable pub run_loadlast : (S → List Entry) → D → Shell D → S → Run (Bytes × Shell D × S)
  run_loadlast files root sh s =
      let newest : Bytes = newest_state_of (files s) in
      let loaded : Run (Bytes × Shell D × S) = (do
        s' ← ops.load_state root newest s
        ok (
          codes "[SYSTEM] Loading most recent backup: " ++ (newest ++ newline),
          at_root root,
          s',
        )) in
      if is_empty newest
      then ok (codes "[SYSTEM] No valid backups found." ++ newline, sh, s)
      else loaded

  unfoldable pub run_compact_all : D → S → Run (Bytes × S)
  run_compact_all current_db s = do
    s' ← ops.compact_all current_db s
    ok (
      codes "[SYSTEM] Initiating recursive compaction..."
          ++ (newline ++ (codes "[SYSTEM] Full database compaction complete." ++ newline)),
      s',
    )
