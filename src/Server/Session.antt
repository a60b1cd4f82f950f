-- ===== src/Server/Session.antt =====
-- The commands of one client in a row (src/server.cpp).
use vortex_db.Base.{
  ℕ, ◌≡◌, refl, ap, ◌∙◌, false, List, [], ◌∷◌, ◌++◌, All, arith, map, sym, append_assoc,
}
use vortex_db.Base.Words.{Bytes}
use vortex_db.Files.{Run, ok, indeterminate, ◌>>=◌}
use vortex_db.Text.{codes, is_space, is_line_end, back_is, trim_line, trim_from}
use vortex_db.Text.Words.{IsSolid, IsWord}
use vortex_db.Text.Ends.{back_is-append, trim_line-kept, trim_line-append}
use vortex_db.Database.{Database}
use vortex_db.Server.{crlf, process_command, serve, handle_client}
use vortex_db.Server.Commands.{
  Command, set_key, get_key, get_range, get_prefix, del_key, convert_key, save_all, save_part,
  load_all, stats, IsCommand, quoted, print, perform,
}
use vortex_db.Server.Dispatch.{process_command-print}

back_is-solid : (w : Bytes) → IsSolid w → back_is is_line_end w ≡ false
unfolding back_is is_line_end is_space
back_is-solid [] h = refl
back_is-solid (c ∷ []) (h, hs) = ground (arith, h)
back_is-solid (c ∷ c' ∷ w) (h, hs) = back_is-solid (c' ∷ w) hs

back_is-word : (t : Bytes) (w : Bytes) → IsWord w → back_is is_line_end (t ++ w) ≡ false
back_is-word t [] h = absurd h
back_is-word t (c ∷ w) h = back_is-append is_line_end t c w ∙ back_is-solid (c ∷ w) h

back_is-quoted : (t s : Bytes) → back_is is_line_end (t ++ quoted s) ≡ false
unfolding back_is is_line_end
back_is-quoted t s =
    back_is-append is_line_end t b'"' (s ++ b'"' ∷ [])
    ∙ back_is-append is_line_end (b'"' ∷ s) b'"' []

print-back : (c : Command) → IsCommand c → back_is is_line_end (print c) ≡ false
unfolding print back_is is_line_end
print-back (set_key k []) (w, line, front, back) =
    back_is-append is_line_end (codes "SET " ++ k) b' ' []
print-back (set_key k (c ∷ v)) (w, line, front, back) =
    back_is-append is_line_end (codes "SET " ++ k) b' ' (c ∷ v) ∙ back
print-back (get_key k) (w, upper, star) = back_is-word (codes "GET ") k w
print-back (get_range a b) h =
    back_is-append is_line_end (codes "GET RANGE " ++ quoted a) b' ' (quoted b)
    ∙ back_is-quoted (b' ' ∷ []) b
print-back (get_prefix p) h = back_is-append is_line_end (codes "GET " ++ p) b'*' []
print-back (del_key k) h = back_is-word (codes "DEL ") k h
print-back (convert_key k) h = back_is-quoted (codes "CONVERT ") k
print-back (save_all n) h = back_is-word (codes "SAVE ") n h
print-back (save_part path n) (wp, wn) =
    back_is-append is_line_end (codes "SAVE " ++ path) b' ' n ∙ back_is-word (b' ' ∷ []) n wn
print-back (load_all n) h = back_is-word (codes "LOAD ") n h
print-back stats h = refl

-- The text of a command behind which the client ends the line.
abbrev pub line_of : Command → Bytes
line_of c = print c ++ crlf

trim_line-line_of : (c : Command) → IsCommand c → trim_line (line_of c) ≡ print c
unfolding is_line_end
trim_line-line_of c h =
    ap trim_line (sym (append_assoc (print c) (b'\r' ∷ []) (b'\n' ∷ [])))
    ∙ trim_line-append (print c ++ b'\r' ∷ []) b'\n' refl
    ∙ trim_line-append (print c) b'\r' refl
    ∙ trim_line-kept (print c) (print-back c h)

print_cons : (c : Command) → (b : ℕ) × (raw : Bytes) × (print c ≡ b ∷ raw)
unfolding print
print_cons (set_key k v) = (_, _, refl)
print_cons (get_key k) = (_, _, refl)
print_cons (get_range a b) = (_, _, refl)
print_cons (get_prefix p) = (_, _, refl)
print_cons (del_key k) = (_, _, refl)
print_cons (convert_key k) = (_, _, refl)
print_cons (save_all n) = (_, _, refl)
print_cons (save_part path n) = (_, _, refl)
print_cons (load_all n) = (_, _, refl)
print_cons stats = (_, _, refl)

bind_same :
    {A B : Type 0} (r : Run A) (f g : A → Run B) → ((a : A) → f a ≡ g a) → (r >>= f) ≡ (r >>= g)
bind_same (ok a) f g h = h a
bind_same indeterminate f g h = refl

module _ {D S : Type 0} (ops : Database D S) (db : D) where
  -- The commands one after the other, and their answers.
  unfoldable pub perform_all : List Command → S → Run (List Bytes × S)
  perform_all [] s = ok ([], s)
  perform_all (c ∷ cs) s = do
    (response, s₁) ← perform ops db c s
    (responses, s₂) ← perform_all cs s₁
    ok ((response ++ crlf) ∷ responses, s₂)

  serve-chunk :
      (chunk raw : Bytes) (b : ℕ) (chunks : List Bytes) (s : S)
      → trim_line chunk ≡ b ∷ raw
      → serve ops db (chunk ∷ chunks) s ≡ (do
        (response, s₁) ← process_command ops db (b ∷ raw) s
        (responses, s₂) ← serve ops db chunks s₁
        ok ((response ++ crlf) ∷ responses, s₂))
  unfolding serve trim_line trim_from
  serve-chunk [] raw b chunks s h = absurd (cc h)
  serve-chunk (c ∷ chunk) raw b chunks s h = rw (serve, h) refl

  serve-line :
      (c : Command) (chunks : List Bytes) (s : S)
      → IsCommand c
      → serve ops db (line_of c ∷ chunks) s ≡ (do
        (response, s₁) ← perform ops db c s
        (responses, s₂) ← serve ops db chunks s₁
        ok ((response ++ crlf) ∷ responses, s₂))
  serve-line c chunks s h =
      let (b, raw, e) = print_cons c in
      serve-chunk (line_of c) raw b chunks s (trim_line-line_of c h ∙ e)
      ∙ rw (sym e, process_command-print ops db c s h) refl

  serve-lines :
      (cs : List Command) (s : S)
      → All IsCommand cs
      → serve ops db (map line_of cs) s ≡ perform_all cs s
  unfolding serve perform_all
  serve-lines [] s h = refl
  serve-lines (c ∷ cs) s (h, hs) =
      serve-line c (map line_of cs) s h
      ∙ bind_same (perform ops db c s) _ _
          (λ x. ap (λ r. r >>= (λ y. ok ((x.0 ++ crlf) ∷ y.0, y.1))) (serve-lines cs x.1 hs))

  -- A client that sends the lines of some commands, one line to each answer of `recv`, is greeted,
  -- and gets the answers to the commands in their order; each is carried out where the one before
  -- it left the databases.
  pub handle_client-lines :
      (cs : List Command) (s : S)
      → All IsCommand cs
      → handle_client ops db (map line_of cs) s ≡ (do
        (responses, s') ← perform_all cs s
        ok ((codes "--- Welcome to VortexDB Server ---" ++ crlf) ∷ responses, s'))
  unfolding handle_client
  handle_client-lines cs s h = rw (handle_client, serve-lines cs s h)
