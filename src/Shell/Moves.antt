-- ===== src/Shell/Moves.antt =====
-- The commands of the shell that move it (src/main.cpp): `cd`, `load` and `loadlast`.
use vortex_db.Base.{
  ℕ, ◌≡◌, ◌≢◌, false, Option, none, some, List, [], ◌∷◌, ◌==◌, All, inl, inr, Bool-cases,
}
use vortex_db.Base.Words.{Bytes}
use vortex_db.Files.{Run, ok}
use vortex_db.Database.{Database}
use vortex_db.Shell.{Shell, Entry, is_slash, is_empty, parts}
use vortex_db.Shell.Step.{at_root, go_up, traverse, run_cd, run_load, run_loadlast}
use vortex_db.Shell.Loop.{quiet, spoken}
use vortex_db.Shell.Stacks.{
  IsPath, top, below, Keeps, ok-Keeps, indeterminate-Keeps, bind-Keeps, if-Keeps, Stands, Prompts,
}

-- No part of a path has a slash.
parts-cons :
    (c : ℕ) (ps : List Bytes)
    → All (All (λ c. (c == b'/') ≡ false)) ps
    → (c == b'/') ≡ false
    → All (All (λ c. (c == b'/') ≡ false)) (elim ps [ [] ↦ (c ∷ []) ∷ [] | p ∷ ps ↦ (c ∷ p) ∷ ps ])
parts-cons c [] h other = ((other, tt), tt)
parts-cons c (p ∷ ps) (h, hs) other = ((other, h), hs)

parts-All : (s : Bytes) → All (All (λ c. (c == b'/') ≡ false)) (parts s)
unfolding parts
parts-All [] = tt
parts-All (c ∷ s) = elim (Bool-cases (is_slash c)) [
  | inl slash ↦ rw (slash, parts) (tt, parts-All s)
  | inr other ↦ rw (other, parts) (parts-cons c (parts s) (parts-All s) other)
]

not_empty : (part : Bytes) → is_empty part ≡ false → part ≢ []
not_empty [] e = absurd cc
not_empty (c ∷ part) e = λ h. absurd (cc h)

module _ {D S : Type 0} (ops : Database D S) (root : D) where
  pub quiet-Keeps :
      (sh : Shell D) (r : Run S)
      → IsPath ops root sh.path_stack sh.name_stack
      → Keeps (Prompts ops root) (quiet sh r)
  quiet-Keeps sh r h =
      bind-Keeps (Prompts ops root) r _ (λ s' e. ok-Keeps (Prompts ops root) ([], sh, s') h)

  pub spoken-Keeps :
      (sh : Shell D) (r : Run (Bytes × S))
      → IsPath ops root sh.path_stack sh.name_stack
      → Keeps (Prompts ops root) (spoken sh r)
  spoken-Keeps sh r h =
      bind-Keeps (Prompts ops root) r _ (λ x e. ok-Keeps (Prompts ops root) (x.0, sh, x.1) h)

  go_up-IsPath :
      (ds : List D) (ns : List Bytes)
      → IsPath ops root ds ns
      → Keeps
          (λ sh'. IsPath ops root sh'.path_stack sh'.name_stack)
          (go_up (record { path_stack = ds; name_stack = ns }))
  unfolding go_up
  go_up-IsPath _ _ top = ok-Keeps _ (at_root root) top
  go_up-IsPath _ _ (below d d' part ds ns s s' name led h) =
      ok-Keeps (λ sh'. IsPath ops root sh'.path_stack sh'.name_stack)
        (record { path_stack = d ∷ ds; name_stack = ns }) h

  traverse-none :
      (ps : List Bytes) (sh : Shell D) (s : S)
      → IsPath ops root sh.path_stack sh.name_stack
      → Keeps (Stands ops root) (traverse ops ps none sh s)
  unfolding traverse
  traverse-none [] sh s h = ok-Keeps (Stands ops root) (sh, s) h
  traverse-none (part ∷ ps) sh s h =
      if-Keeps (Stands ops root) (is_empty part) _ _ (traverse-none ps sh s h)
        (indeterminate-Keeps (Stands ops root))

  -- One part further, if the rest of the loop keeps the path.
  enter-Keeps :
      (part : Bytes) (ps : List Bytes) (d : D) (ds : List D) (ns : List Bytes) (s s₁ : S)
      (found : Option D)
      → part ≢ []
      → All (λ c. (c == b'/') ≡ false) part
      → ops.resolve_path d part s ≡ ok (found, s₁)
      → IsPath ops root (d ∷ ds) ns
      → ((d' : D)
          → IsPath ops root (d' ∷ d ∷ ds) (part ∷ ns)
          → Keeps (Stands ops root) (
              traverse ops ps
                (some d')
                (record { path_stack = d' ∷ d ∷ ds; name_stack = part ∷ ns })
                s₁))
      → Keeps (Stands ops root) (elim found [
        | none ↦ traverse ops ps none (record { path_stack = d ∷ ds; name_stack = ns }) s₁
        | some d' ↦
            traverse ops ps
              (some d')
              (record { path_stack = d' ∷ d ∷ ds; name_stack = part ∷ ns })
              s₁
      ])
  enter-Keeps part ps d ds ns s s₁ none some_name flat run h go = traverse-none ps _ s₁ h
  enter-Keeps part ps d ds ns s s₁ (some d') some_name flat run h go =
      go d' (below d d' part ds ns s s₁ (some_name, flat) run h)

  -- The loop of `cd` over the parts of the path stands on the top of the stack.
  traverse-Keeps :
      (ps : List Bytes) (d : D) (ds : List D) (ns : List Bytes) (s : S)
      → All (All (λ c. (c == b'/') ≡ false)) ps
      → IsPath ops root (d ∷ ds) ns
      → Keeps
          (Stands ops root)
          (traverse ops ps (some d) (record { path_stack = d ∷ ds; name_stack = ns }) s)
  unfolding traverse
  traverse-Keeps [] d ds ns s a h =
      ok-Keeps (Stands ops root) (record { path_stack = d ∷ ds; name_stack = ns }, s) h
  traverse-Keeps (part ∷ ps) d ds ns s (flat, a) h = elim (Bool-cases (is_empty part)) [
    | inl e ↦ rw (traverse, e) (traverse-Keeps ps d ds ns s a h)
    | inr e ↦
        rw (traverse, e)
          (bind-Keeps (Stands ops root) (ops.resolve_path d part s) _ (λ x run.
            enter-Keeps part ps d ds ns s x.1 x.0 (not_empty part e) flat run h
              (λ d' h'. traverse-Keeps ps d' (d ∷ ds) (part ∷ ns) x.1 a h')))
  ]

  pub run_cd-Keeps :
      (arg : Bytes) (d : D) (ds : List D) (ns : List Bytes) (s : S)
      → IsPath ops root (d ∷ ds) ns
      → Keeps
          (Prompts ops root)
          (run_cd ops arg d (record { path_stack = d ∷ ds; name_stack = ns }) s)
  unfolding run_cd
  run_cd-Keeps arg d ds ns s h =
      let sh : Shell D = record { path_stack = d ∷ ds; name_stack = ns } in
      let stays = ok-Keeps (Prompts ops root) in
      if-Keeps (Prompts ops root) _ _ _
        (bind-Keeps (Prompts ops root) (go_up sh) _
          (λ sh' e. stays ([], sh', s) (go_up-IsPath (d ∷ ds) ns h sh' e)))
        (if-Keeps (Prompts ops root) _ _ _ (stays ([], sh, s) h) (
          bind-Keeps (Prompts ops root) (ops.get_type d arg s) _ (λ x e.
            if-Keeps (Prompts ops root) _ _ _
              (bind-Keeps (Prompts ops root) (traverse ops (parts arg) (some d) sh x.1) _ (λ y e'.
                stays ([], y.0, y.1)
                  (traverse-Keeps (parts arg) d ds ns x.1 (parts-All arg) h y e')))
              (stays (_, sh, x.1) h))))

  pub run_load-Keeps :
      (now : S → ℕ) (args : Bytes) (sh : Shell D) (s : S)
      → IsPath ops root sh.path_stack sh.name_stack
      → Keeps (Prompts ops root) (run_load ops now args root sh s)
  unfolding run_load
  run_load-Keeps now args sh s h =
      if-Keeps (Prompts ops root) _ _ _ (ok-Keeps (Prompts ops root) ([], sh, s) h) (
        bind-Keeps (Prompts ops root) (ops.save_state root _ [] s) _ (λ s₁ e.
          bind-Keeps (Prompts ops root) (ops.load_state root _ s₁) _
            (λ s₂ e'. ok-Keeps (Prompts ops root) (_, at_root root, s₂) top)))

  pub run_loadlast-Keeps :
      (files : S → List Entry) (sh : Shell D) (s : S)
      → IsPath ops root sh.path_stack sh.name_stack
      → Keeps (Prompts ops root) (run_loadlast ops files root sh s)
  unfolding run_loadlast
  run_loadlast-Keeps files sh s h =
      if-Keeps (Prompts ops root) _ _ _ (ok-Keeps (Prompts ops root) (_, sh, s) h) (
        bind-Keeps (Prompts ops root) (ops.load_state root _ s) _
          (λ s' e. ok-Keeps (Prompts ops root) (_, at_root root, s') top))
