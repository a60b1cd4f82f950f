-- ===== src/Server/Texts.antt =====
-- The texts of the commands, read back word by word (src/server.cpp).
use vortex_db.Base.{
  ◌≡◌, refl, ap, sym, ◌∙◌, true, false, [], ◌∷◌, ◌++◌, arith, inl, inr, Bool-cases, map,
}
use vortex_db.Base.Words.{Bytes}
use vortex_db.Base.Order.{◌=ˢ◌, eq_of_lex}
use vortex_db.Base.Map.{Map}
use vortex_db.Text.{
  codes, is_space, is_line_end, skip_space, to_upper, to_upper_all, get_line, front_is, back_is,
  unquote, trim_line,
}
use vortex_db.Text.Words.{IsSolid, IsWord, IsLine, get_line-whole}
use vortex_db.Text.Ends.{back_is-append, trim_line-kept, unquote-quoted}
use vortex_db.Server.{is_star, crlf, match_lines, report}
use vortex_db.Server.Commands.{set_key, IsCommand, quoted, matches}

-- No trimming is left to do behind the last line.
pub report-matches :
    (title : Bytes) (results : Map Bytes) → report title results ≡ matches title results
unfolding report matches back_is is_line_end
report-matches title [] = refl
report-matches title (e ∷ results) =
    trim_line-kept (title ++ (crlf ++ (match_lines (e ∷ results) ++ dashes))) (
      back_is-append is_line_end title b'\r' (b'\n' ∷ (match_lines (e ∷ results) ++ dashes))
      ∙ back_is-append is_line_end (crlf ++ match_lines (e ∷ results)) b'-'
          (codes "---------------------")
      ∙ refl)
  where
    dashes : Bytes
    dashes = codes "----------------------"

map-to_upper_append : (s t : Bytes) → map to_upper (s ++ t) ≡ map to_upper s ++ map to_upper t
map-to_upper_append [] t = refl
map-to_upper_append (c ∷ s) t = ap (◌∷◌ (to_upper c)) (map-to_upper_append s t)

-- A text that ends in a star is not the word for a range.
pub upper-star : (p : Bytes) → (to_upper_all (p ++ b'*' ∷ []) =ˢ codes "RANGE") ≡ false
unfolding to_upper_all to_upper back_is
upper-star p = elim (Bool-cases (to_upper_all (p ++ b'*' ∷ []) =ˢ codes "RANGE")) [
  | inr other ↦ other
  | inl same ↦
      let e : to_upper_all (p ++ b'*' ∷ []) ≡ codes "RANGE" =
        eq_of_lex (to_upper_all (p ++ b'*' ∷ [])) (codes "RANGE") (ground (arith, same)) in
      let star : back_is is_star (map to_upper p ++ b'*' ∷ []) ≡ true =
        back_is-append is_star (map to_upper p) b'*' [] in
      let none_there : back_is is_star (map to_upper p ++ b'*' ∷ []) ≡ false =
        ap (back_is is_star) (sym (map-to_upper_append p (b'*' ∷ [])) ∙ e) in
      absurd (cc (star, none_there))
]

IsSolid-append : (s t : Bytes) → IsSolid s → IsSolid t → IsSolid (s ++ t)
IsSolid-append [] t a b = b
IsSolid-append (c ∷ s) t (h, a) b = (h, IsSolid-append s t a b)

-- A value that begins with no space is what is left of its line.
skip_space-kept : (v : Bytes) → front_is is_space v ≡ false → skip_space v ≡ v
unfolding skip_space front_is
skip_space-kept [] h = refl
skip_space-kept (c ∷ v) h = rw (h, skip_space)

pub value-kept :
    (k v : Bytes) → IsCommand (set_key k v) → trim_line (get_line (skip_space (b' ' ∷ v))) ≡ v
unfolding skip_space is_space
value-kept k v (w, line, front, back) =
    rw (skip_space-kept v front, get_line-whole v line) (trim_line-kept v back)

pub quoted-IsWord : (a : Bytes) → IsSolid a → IsWord (quoted a)
unfolding is_space
quoted-IsWord a h = (refl, IsSolid-append a (b'"' ∷ []) h (refl, tt))

-- The text in quotes of a whole line.
pub unquote-line : (a : Bytes) → IsLine a → unquote (get_line (skip_space (b' ' ∷ quoted a))) ≡ a
unfolding skip_space is_space
unquote-line a line = rw (get_line-whole (quoted a) (refl, IsLine-quote a line)) (unquote-quoted a)
  where
    IsLine-quote : (s : Bytes) → IsLine s → IsLine (s ++ b'"' ∷ [])
    IsLine-quote [] h = (refl, tt)
    IsLine-quote (c ∷ s) (h, hs) = (h, IsLine-quote s hs)

pub star-IsWord : (p : Bytes) → IsSolid p → IsWord (p ++ b'*' ∷ [])
unfolding is_space
star-IsWord [] h = (refl, tt)
star-IsWord (c ∷ p) h = IsSolid-append (c ∷ p) (b'*' ∷ []) h (refl, tt)
