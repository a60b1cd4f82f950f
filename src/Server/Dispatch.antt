-- ===== src/Server/Dispatch.antt =====
-- What `process_command` (src/server.cpp) does with the text of a command.
use vortex_db.Base.{ℕ, ◌≡◌, refl, ap, ◌∙◌, [], ◌∷◌, ◌++◌}
use vortex_db.Base.Words.{Bytes}
use vortex_db.Base.Order.{lex}
use vortex_db.Base.Map.{Map}
use vortex_db.Files.{Run, ok, indeterminate, ◌>>=◌}
use vortex_db.Text.{
  codes, is_space, skip_space, read_word, to_upper, to_upper_all, back_is, unquote,
}
use vortex_db.Text.Words.{
  IsSolid, IsWord, IsLine, IsTail, read_word-tail, read_word-append, read_word-last,
  read_word-space,
}
use vortex_db.Text.Ends.{back_is-append, drop_back-append, unquote-quoted}
use vortex_db.Database.{Database}
use vortex_db.Server.{
  is_star, report, run_set, run_get, run_range, run_prefix, run_del, run_convert, run_save,
  run_load, run_stats, run_action, process_command,
}
use vortex_db.Server.Commands.{
  Command, set_key, get_key, get_range, get_prefix, del_key, convert_key, save_all, save_part,
  load_all, stats, IsCommand, quoted, print, matches, perform,
}
use vortex_db.Server.Texts.{
  report-matches, upper-star, value-kept, quoted-IsWord, unquote-line, star-IsWord,
}

module _ {D S : Type 0} (ops : Database D S) (db : D) where
  reported :
      (title : Bytes) (r : Run (Map Bytes × S))
      → ◌>>=◌ {B = Bytes × S} r (λ x. ok (report title x.0, x.1))
        ≡ ◌>>=◌ {B = Bytes × S} r (λ x. ok (matches title x.0, x.1))
  reported title (ok (results, s')) = ap (λ x. ok (x, s')) (report-matches title results)
  reported title indeterminate = refl

  run_set-words :
      (k v : Bytes) (s : S)
      → IsCommand (set_key k v)
      → run_set ops db (b' ' ∷ (k ++ (b' ' ∷ v))) s ≡ perform ops db (set_key k v) s
  unfolding perform run_set
  run_set-words k v s (w, line, front, back) =
      rw (run_set, read_word-space (k ++ (b' ' ∷ v)), read_word-append k v w)
        (ap (λ x. ops.put db k x s >>= (λ s'. ok (codes "OK", s')))
          (value-kept k v (w, line, front, back)))

  run_get-word :
      (k : Bytes) (s : S)
      → IsCommand (get_key k)
      → run_get ops db (b' ' ∷ k) s ≡ perform ops db (get_key k) s
  unfolding perform run_get
  run_get-word k s (w, upper, star) =
      rw (run_get, read_word-space k, read_word-last k w, upper, star)

  run_get-star :
      (p : Bytes) (s : S)
      → IsSolid p
      → run_get ops db (b' ' ∷ (p ++ b'*' ∷ [])) s ≡ perform ops db (get_prefix p) s
  unfolding perform run_get run_prefix back_is
  run_get-star p s w =
      rw
        (
          run_get,
          read_word-space (p ++ b'*' ∷ []),
          read_word-last (p ++ b'*' ∷ []) (star-IsWord p w),
          upper-star p,
          back_is-append is_star p b'*' [],
          drop_back-append p b'*',
        )
        (reported (codes "--- PREFIX MATCHES ---") (ops.get_prefix db p s))

  run_range-words :
      (a b : Bytes) (s : S)
      → IsWord a
      → IsWord b
      → run_range ops db (b' ' ∷ (a ++ (b' ' ∷ b))) s
        ≡ perform ops db (get_range (unquote a) (unquote b)) s
  unfolding perform run_range
  run_range-words a b s wa wb =
      rw
        (
          run_range,
          read_word-space (a ++ (b' ' ∷ b)),
          read_word-append a b wa,
          read_word-space b,
          read_word-last b wb,
        )
        (reported (codes "--- RANGE MATCHES ---") (ops.get_range db (unquote a) (unquote b) s))

  run_convert-line :
      (c : ℕ) (k : Bytes) (s : S)
      → IsLine (c ∷ k)
      → run_convert ops db (b' ' ∷ quoted (c ∷ k)) s ≡ perform ops db (convert_key (c ∷ k)) s
  unfolding perform run_convert
  run_convert-line c k s line = rw (run_convert, unquote-line (c ∷ k) line) refl

  run_save-word :
      (n : Bytes) (s : S) → IsWord n → run_save ops db (b' ' ∷ n) s ≡ perform ops db (save_all n) s
  unfolding perform run_save read_word skip_space
  run_save-word n s w = rw (run_save, read_word-space n, read_word-last n w)

  run_save-words :
      (path n : Bytes) (s : S)
      → IsWord path
      → IsWord n
      → run_save ops db (b' ' ∷ (path ++ (b' ' ∷ n))) s ≡ perform ops db (save_part path n) s
  unfolding perform run_save
  run_save-words path n s wp wn = rw (
    run_save,
    read_word-space (path ++ (b' ' ∷ n)),
    read_word-append path n wp,
    read_word-space n,
    read_word-last n wn,
  )

  run_del-word :
      (k : Bytes) (s : S) → IsWord k → run_del ops db (b' ' ∷ k) s ≡ perform ops db (del_key k) s
  unfolding perform run_del
  run_del-word k s w = rw (run_del, read_word-space k, read_word-last k w)

  run_load-word :
      (k : Bytes) (s : S) → IsWord k → run_load ops db (b' ' ∷ k) s ≡ perform ops db (load_all k) s
  unfolding perform run_load
  run_load-word k s w = rw (run_load, read_word-space k, read_word-last k w)

  run_get-range :
      (a b : Bytes) (s : S)
      → IsCommand (get_range a b)
      → run_get ops db (b' ' ∷ (codes "RANGE" ++ (b' ' ∷ (quoted a ++ (b' ' ∷ quoted b))))) s
        ≡ perform ops db (get_range a b) s
  unfolding run_get to_upper_all to_upper lex is_space
  run_get-range a b s (wa, wb) =
      rw
        (
          run_get,
          read_word-space (codes "RANGE" ++ (b' ' ∷ (quoted a ++ (b' ' ∷ quoted b)))),
          read_word-append (codes "RANGE") (quoted a ++ (b' ' ∷ quoted b))
              (refl, (refl, (refl, (refl, (refl, tt))))),
        )
        (run_range-words (quoted a) (quoted b) s (quoted-IsWord a wa) (quoted-IsWord b wb)
          ∙ ap₂_range (unquote-quoted a) (unquote-quoted b))
    where
      ap₂_range :
          {a' a b' b : Bytes}
          → a' ≡ a
          → b' ≡ b
          → perform ops db (get_range a' b') s ≡ perform ops db (get_range a b) s
      ap₂_range ea eb = cc (ea, eb)

  pub process_command-verb :
      (verb t : Bytes) (s : S)
      → IsWord verb
      → IsTail t
      → process_command ops db (verb ++ t) s ≡ run_action ops db (to_upper_all verb) t s
  unfolding process_command
  process_command-verb verb t s w tail = rw (process_command, read_word-tail verb t w tail)

  command_words :
      (verb args : Bytes) (s : S)
      → IsWord verb
      → process_command ops db (verb ++ b' ' ∷ args) s
        ≡ run_action ops db (to_upper_all verb) (b' ' ∷ args) s
  unfolding is_space
  command_words verb args s w = process_command-verb verb (b' ' ∷ args) s w refl

  -- The text of a command makes the server perform that command: `SET`, `GET` of a key, of a range in
  -- quotes and of a prefix behind a star, `DEL`, `CONVERT`, `SAVE`, `LOAD` and `STATS`. The operands
  -- are words, the value of `SET` is a line without spaces at its front or a line end at its back,
  -- the key of `GET` neither ends in a star nor reads RANGE, and that of `CONVERT` is not empty.
  pub process_command-print :
      (c : Command) (s : S) → IsCommand c → process_command ops db (print c) s ≡ perform ops db c s
  unfolding print perform run_action run_stats process_command to_upper_all to_upper is_space lex
  process_command-print (set_key k v) s w =
      command_words (codes "SET") (k ++ (b' ' ∷ v)) s (refl, (refl, (refl, tt)))
      ∙ run_set-words k v s w
  process_command-print (get_key k) s w =
      command_words (codes "GET") k s (refl, (refl, (refl, tt))) ∙ run_get-word k s w
  process_command-print (get_range a b) s w =
      command_words (codes "GET") (codes "RANGE" ++ (b' ' ∷ (quoted a ++ (b' ' ∷ quoted b)))) s
        (refl, (refl, (refl, tt)))
      ∙ run_get-range a b s w
  process_command-print (get_prefix p) s w =
      command_words (codes "GET") (p ++ b'*' ∷ []) s (refl, (refl, (refl, tt))) ∙ run_get-star p s w
  process_command-print (del_key k) s w =
      command_words (codes "DEL") k s (refl, (refl, (refl, tt))) ∙ run_del-word k s w
  process_command-print (convert_key []) s w = absurd w
  process_command-print (convert_key (c ∷ k)) s w =
      command_words (codes "CONVERT") (quoted (c ∷ k)) s
        (refl, (refl, (refl, (refl, (refl, (refl, (refl, tt)))))))
      ∙ run_convert-line c k s w
  process_command-print (save_all n) s w =
      command_words (codes "SAVE") n s (refl, (refl, (refl, (refl, tt)))) ∙ run_save-word n s w
  process_command-print (save_part path n) s (wp, wn) =
      command_words (codes "SAVE") (path ++ (b' ' ∷ n)) s (refl, (refl, (refl, (refl, tt))))
      ∙ run_save-words path n s wp wn
  process_command-print (load_all n) s w =
      command_words (codes "LOAD") n s (refl, (refl, (refl, (refl, tt)))) ∙ run_load-word n s w
  process_command-print stats s w =
      rw
        (process_command, read_word-last (codes "STATS") (refl, (refl, (refl, (refl, (refl, tt))))))
        refl
