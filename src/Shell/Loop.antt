-- ===== src/Shell/Loop.antt =====
-- One round of the loop of `main`, and the loop (src/main.cpp).
use vortex_db.Base.{ℕ, List, [], ◌∷◌, ◌++◌, if◌then◌else◌}
use vortex_db.Base.Words.{Bytes}
use vortex_db.Base.Order.{◌=ˢ◌}
use vortex_db.Files.{Run, ok, indeterminate, ◌>>=◌}
use vortex_db.Text.{codes}
use vortex_db.Database.{VortexStats, Database}
use vortex_db.Shell.{Shell, Entry, newline, word_or_empty, is_empty, prompt}
use vortex_db.Shell.Step.{
  at_root, run_ls, run_cd, run_put, run_get, run_save, run_spawn, run_convert, run_del, run_stats,
  run_load, run_loadlast, run_compact_all,
}

-- A command that prints nothing, and one that prints, both without a move.
abbrev pub quiet : {D S : Type 0} → Shell D → Run S → Run (Bytes × Shell D × S)
quiet sh r = do s' ← r; ok ([], sh, s')

abbrev pub spoken : {D S : Type 0} → Shell D → Run (Bytes × S) → Run (Bytes × Shell D × S)
spoken sh r = do (text, s') ← r; ok (text, sh, s')

module _ {D S : Type 0} (ops : Database D S) (root : D) (now : S → ℕ) (files : S → List Entry)
    (percent : VortexStats → Bytes) where
  -- The chain of tests behind that for `exit`.
  unfoldable pub run_command : Bytes → Bytes → D → Shell D → S → Run (Bytes × Shell D × S)
  unfolding run_ls run_cd run_put run_get run_save run_spawn run_convert run_del run_stats run_load
      run_loadlast run_compact_all
  run_command cmd args current_db sh s =
      if cmd =ˢ codes "ls"
      then spoken sh (run_ls ops current_db s)
      else if cmd =ˢ codes "spawn"
      then quiet sh (run_spawn ops args current_db s)
      else if cmd =ˢ codes "convert"
      then quiet sh (run_convert ops args current_db s)
      else if cmd =ˢ codes "cd"
      then run_cd ops (word_or_empty args).0 current_db sh s
      else if cmd =ˢ codes "put"
      then quiet sh (run_put ops args current_db s)
      else if cmd =ˢ codes "get"
      then spoken sh (run_get ops args current_db s)
      else if cmd =ˢ codes "del"
      then quiet sh (run_del ops args current_db s)
      else if cmd =ˢ codes "stats"
      then spoken sh (run_stats ops percent current_db s)
      else if cmd =ˢ codes "compact"
      then quiet sh (ops.compact current_db s)
      else if cmd =ˢ codes "compact_all"
      then spoken sh (run_compact_all ops current_db s)
      else if cmd =ˢ codes "save"
      then quiet sh (run_save ops args root current_db s)
      else if cmd =ˢ codes "load"
      then run_load ops now args root sh s
      else if cmd =ˢ codes "loadlast"
      then run_loadlast ops files root sh s
      else ok (codes "[SYSTEM] Unknown command." ++ newline, sh, s)

  -- A line that is not empty and not `exit`. An empty vector has no back.
  unfoldable pub step : Bytes → Shell D → S → Run (Bytes × Shell D × S)
  unfolding run_command
  step input sh s =
      let (cmd, args) = word_or_empty input in
      elim sh.path_stack [
        | [] ↦ indeterminate
        | current_db ∷ ds ↦ run_command cmd args current_db sh s
      ]

  -- The loop of `main` over the lines of the input; what it prints, the prompts included.
  unfoldable pub run_shell : List Bytes → Shell D → S → Run (Bytes × S)
  unfolding step
  run_shell [] sh s = ok (prompt sh.name_stack, s)
  run_shell (input ∷ inputs) sh s =
      let rest : Run (Bytes × S) = run_shell inputs sh s in
      let skipped : Run (Bytes × S) = (do
        (text, s') ← rest
        ok (prompt sh.name_stack ++ text, s')) in
      let taken : Run (Bytes × S) = (do
        (printed, sh', s₁) ← step input sh s
        (text, s₂) ← run_shell inputs sh' s₁
        ok (prompt sh.name_stack ++ (printed ++ text), s₂)) in
      if is_empty input
      then skipped
      else if (word_or_empty input).0 =ˢ codes "exit"
      then ok (prompt sh.name_stack, s)
      else taken

  unfoldable pub main : List Bytes → S → Run (Bytes × S)
  unfolding run_shell
  main inputs s = do
    (text, s') ← run_shell inputs (at_root root) s
    ok (codes "[SYSTEM] Network server started on port 8080" ++ (newline ++ text), s')
