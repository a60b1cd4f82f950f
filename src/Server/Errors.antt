-- ===== src/Server/Errors.antt =====
-- What `process_command` (src/server.cpp) answers to a line that is no command.
use vortex_db.Base.{
  ◌≡◌, refl, ap, ◌∙◌, true, false, none, [], ◌∷◌, ◌++◌, All, arith, inl, inr, Bool-cases, ◌≢◌,
  subst, sym,
}
use vortex_db.Base.Words.{Bytes}
use vortex_db.Base.Order.{◌=ˢ◌, lex, eq_of_lex}
use vortex_db.Files.{ok}
use vortex_db.Text.{codes, is_space, skip_space, read_word, to_upper_all, get_line, unquote}
use vortex_db.Text.Words.{IsWord, IsTail, read_word-tail, read_word-space}
use vortex_db.Database.{Database}
use vortex_db.Server.{
  run_set, run_get, run_range, run_del, run_convert, run_save, run_load, run_action,
  process_command,
}
use vortex_db.Server.Dispatch.{process_command-verb}

abbrev pub IsBlank : Bytes → Type 0
IsBlank s = All (λ c. is_space c ≡ true) s

-- The verbs with an operand, and what the server says without it.
pub data NeedsOperand : Bytes → Bytes → Type 0 where
  set_key : NeedsOperand (codes "SET") (codes "ERROR: Missing Key")
  get_key : NeedsOperand (codes "GET") (codes "ERROR: Missing Key")
  del_key : NeedsOperand (codes "DEL") (codes "ERROR: Missing Key")
  convert_key : NeedsOperand (codes "CONVERT") (codes "ERROR: Missing Key")
  save_state : NeedsOperand (codes "SAVE") (codes "ERROR: Missing Argument")
  load_state : NeedsOperand (codes "LOAD") (codes "ERROR: Missing State Name")

-- A line that is no command, and the answer to it.
pub data Malformed : Bytes → Bytes → Type 0 where
  no_action : (t : Bytes) → IsBlank t → Malformed t (codes "ERROR: Missing Action")
  no_operand :
      (verb message t : Bytes)
      → IsWord verb
      → NeedsOperand (to_upper_all verb) message
      → IsBlank t
      → Malformed (verb ++ t) message
  no_bounds :
      (verb range t : Bytes)
      → IsWord verb
      → to_upper_all verb ≡ codes "GET"
      → IsWord range
      → to_upper_all range ≡ codes "RANGE"
      → IsBlank t
      → Malformed (verb ++ b' ' ∷ (range ++ t)) (codes "ERROR: Missing Range Bounds")
  one_bound :
      (verb range start t : Bytes)
      → IsWord verb
      → to_upper_all verb ≡ codes "GET"
      → IsWord range
      → to_upper_all range ≡ codes "RANGE"
      → IsWord start
      → IsBlank t
      → Malformed
          (verb ++ b' ' ∷ (range ++ b' ' ∷ (start ++ t)))
          (codes "ERROR: Missing Range Bounds")
  unknown :
      (verb t : Bytes)
      → IsWord verb
      → IsTail t
      → ((message : Bytes) → NeedsOperand (to_upper_all verb) message → ⊥)
      → to_upper_all verb ≢ codes "STATS"
      → Malformed (verb ++ t) (codes "ERROR: Unknown Command '" ++ (to_upper_all verb ++ codes "'"))

IsBlank-IsTail : (t : Bytes) → IsBlank t → IsTail t
IsBlank-IsTail [] h = tt
IsBlank-IsTail (c ∷ t) (h, hs) = h

skip_space-blank : (t : Bytes) → IsBlank t → skip_space t ≡ []
unfolding skip_space
skip_space-blank [] h = refl
skip_space-blank (c ∷ t) (h, hs) = rw (h, skip_space) (skip_space-blank t hs)

read_word-blank : (t : Bytes) → IsBlank t → read_word t ≡ none
unfolding read_word
read_word-blank t h = rw (read_word, skip_space-blank t h)

differs : (x v : Bytes) → x ≢ v → (x =ˢ v) ≡ false
differs x v h = elim (Bool-cases (x =ˢ v)) [
  | inr other ↦ other
  | inl same ↦ absurd (h (eq_of_lex x v (ground (arith, same))))
]

module _ {D S : Type 0} (ops : Database D S) (db : D) where
  no_operand_lem :
      (verb message t : Bytes) (s : S)
      → NeedsOperand verb message
      → IsBlank t
      → run_action ops db verb t s ≡ ok (message, s)
  unfolding run_action run_set run_get run_del run_convert run_save run_load lex get_line unquote
  no_operand_lem _ _ t s set_key h = rw (run_set, read_word-blank t h)
  no_operand_lem _ _ t s get_key h = rw (run_get, read_word-blank t h)
  no_operand_lem _ _ t s del_key h = rw (run_del, read_word-blank t h)
  no_operand_lem _ _ t s convert_key h = rw (run_convert, skip_space-blank t h) refl
  no_operand_lem _ _ t s save_state h = rw (run_save, read_word-blank t h)
  no_operand_lem _ _ t s load_state h = rw (run_load, read_word-blank t h)

  unknown_lem :
      (verb args : Bytes) (s : S)
      → ((message : Bytes) → NeedsOperand verb message → ⊥)
      → verb ≢ codes "STATS"
      → run_action ops db verb args s
        ≡ ok (codes "ERROR: Unknown Command '" ++ (verb ++ codes "'"), s)
  unfolding run_action
  unknown_lem verb args s other no_stats =
      rw
        (
          not_verb (codes "SET") _ set_key,
          not_verb (codes "GET") _ get_key,
          not_verb (codes "DEL") _ del_key,
          not_verb (codes "CONVERT") _ convert_key,
          not_verb (codes "SAVE") _ save_state,
          not_verb (codes "LOAD") _ load_state,
          differs verb (codes "STATS") no_stats,
        )
        refl
    where
      not_verb : (v message : Bytes) → NeedsOperand v message → (verb =ˢ v) ≡ false
      not_verb v message needs =
          differs verb v (λ e. other message (subst (λ x. NeedsOperand x message) (sym e) needs))

  range_lem :
      (range args : Bytes) (s : S)
      → IsWord range
      → to_upper_all range ≡ codes "RANGE"
      → IsTail args
      → run_action ops db (codes "GET") (b' ' ∷ (range ++ args)) s ≡ run_range ops db args s
  unfolding run_action run_get lex
  range_lem range args s w e tail =
      rw (run_get, read_word-space (range ++ args), read_word-tail range args w tail, e) refl

  no_bounds_lem :
      (t : Bytes) (s : S)
      → IsBlank t
      → run_range ops db t s ≡ ok (codes "ERROR: Missing Range Bounds", s)
  unfolding run_range
  no_bounds_lem t s h = rw (run_range, read_word-blank t h)

  one_bound_lem :
      (start t : Bytes) (s : S)
      → IsWord start
      → IsBlank t
      → run_range ops db (b' ' ∷ (start ++ t)) s ≡ ok (codes "ERROR: Missing Range Bounds", s)
  unfolding run_range
  one_bound_lem start t s w h = rw (
    run_range,
    read_word-space (start ++ t),
    read_word-tail start t w (IsBlank-IsTail t h),
    read_word-blank t h,
  )

  -- A line without a word, with a verb that needs an operand and has none, with a range that lacks a
  -- bound, or with an unknown verb, in upper or lower case, is answered with the error that says so,
  -- and the databases stay as they are.
  pub process_command-Malformed :
      (t message : Bytes) (s : S)
      → Malformed t message
      → process_command ops db t s ≡ ok (message, s)
  unfolding process_command is_space
  process_command-Malformed t _ s (no_action _ h) = rw (process_command, read_word-blank t h)
  process_command-Malformed _ _ s (no_operand verb message t w needs h) =
      process_command-verb ops db verb t s w (IsBlank-IsTail t h)
      ∙ no_operand_lem (to_upper_all verb) message t s needs h
  process_command-Malformed _ _ s (no_bounds verb range t w e wr er h) =
      process_command-verb ops db verb (b' ' ∷ (range ++ t)) s w refl
      ∙ rw e (range_lem range t s wr er (IsBlank-IsTail t h) ∙ no_bounds_lem t s h)
  process_command-Malformed _ _ s (one_bound verb range start t w e wr er ws h) =
      process_command-verb ops db verb (b' ' ∷ (range ++ b' ' ∷ (start ++ t))) s w refl
      ∙ rw e (range_lem range (b' ' ∷ (start ++ t)) s wr er refl ∙ one_bound_lem start t s ws h)
  process_command-Malformed _ _ s (unknown verb t w tail other no_stats) =
      process_command-verb ops db verb t s w tail
      ∙ unknown_lem (to_upper_all verb) t s other no_stats

  -- The case of a verb, which is a word, makes no difference, whatever stands behind it.
  pub process_command-case :
      (verb verb' t : Bytes) (s : S)
      → IsWord verb
      → IsWord verb'
      → IsTail t
      → to_upper_all verb ≡ to_upper_all verb'
      → process_command ops db (verb ++ t) s ≡ process_command ops db (verb' ++ t) s
  process_command-case verb verb' t s w w' tail e =
      process_command-verb ops db verb t s w tail
      ∙ ap (λ v. run_action ops db v t s) e
      ∙ sym (process_command-verb ops db verb' t s w' tail)
