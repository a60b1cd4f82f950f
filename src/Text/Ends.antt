-- ===== src/Text/Ends.antt =====
-- The ends of a text (src/server.cpp, src/main.cpp).
use vortex_db.Base.{
  ℕ, suc, ◌≡◌, refl, Bool, true, false, [], ◌∷◌, ◌++◌, length, length-append, arith, zero, ap,
}
use vortex_db.Base.Words.{Bytes}
use vortex_db.Text.{
  back_is, drop_back, trim_from, trim_line, is_line_end, unquote, is_quote, front_is, erase_front,
}

pub back_is-append :
    (p : ℕ → Bool) (s : Bytes) (c : ℕ) (t : Bytes) → back_is p (s ++ c ∷ t) ≡ back_is p (c ∷ t)
unfolding back_is
back_is-append p [] c t = refl
back_is-append p (b ∷ []) c t = refl
back_is-append p (b ∷ b' ∷ s) c t = back_is-append p (b' ∷ s) c t

pub drop_back-append : (s : Bytes) (c : ℕ) → drop_back (s ++ c ∷ []) ≡ s
unfolding drop_back
drop_back-append [] c = refl
drop_back-append (b ∷ []) c = refl
drop_back-append (b ∷ b' ∷ s) c = ap (◌∷◌ b) (drop_back-append (b' ∷ s) c)

trim_from-kept : (n : ℕ) (s : Bytes) → back_is is_line_end s ≡ false → trim_from n s ≡ s
unfolding trim_from
trim_from-kept zero s h = refl
trim_from-kept (suc n) s h = rw (h, trim_from)

pub trim_line-kept : (s : Bytes) → back_is is_line_end s ≡ false → trim_line s ≡ s
unfolding trim_line
trim_line-kept s h = trim_from-kept (length s) s h

-- A line end at the back goes.
pub trim_line-append :
    (s : Bytes) (c : ℕ) → is_line_end c ≡ true → trim_line (s ++ c ∷ []) ≡ trim_line s
unfolding trim_line trim_from back_is
trim_line-append s c h =
    let len : length (s ++ c ∷ []) ≡ suc (length s) = omega (arith, length-append s (c ∷ [])) in
    rw (len, trim_from, back_is-append is_line_end s c [], h, drop_back-append s c)

-- A text in quotes loses them.
pub unquote-quoted : (s : Bytes) → unquote (b'"' ∷ (s ++ b'"' ∷ [])) ≡ s
unfolding unquote is_quote front_is erase_front back_is
unquote-quoted s = rw (back_is-append is_quote s b'"' [], drop_back-append s b'"')
