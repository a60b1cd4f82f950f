-- ===== src/Text/Words.antt =====
-- Words of a text (src/server.cpp, src/main.cpp).
use vortex_db.Base.{
  ℕ, ◌≡◌, refl, true, false, none, some, [], ◌∷◌, ◌++◌, arith, ap, subst, append-nil, All, ◌==◌,
}
use vortex_db.Base.Words.{Bytes}
use vortex_db.Text.{is_space, skip_space, split_word, read_word, to_upper, to_upper_all, get_line}

-- A text without spaces.
abbrev pub IsSolid : Bytes → Type 0
IsSolid w = All (λ c. is_space c ≡ false) w

-- A text that `>>` reads as one word.
abbrev pub IsWord : Bytes → Type 0
IsWord [] = ⊥
IsWord (c ∷ w) = IsSolid (c ∷ w)

-- What can stand behind a word.
abbrev pub IsTail : Bytes → Type 0
IsTail [] = Unit
IsTail (c ∷ t) = is_space c ≡ true

split_word-append : (w t : Bytes) → IsSolid w → IsTail t → split_word (w ++ t) ≡ (w, t)
unfolding split_word
split_word-append [] [] h tail = refl
split_word-append [] (c ∷ t) h tail = rw (tail, split_word)
split_word-append (c ∷ w) t (h, hs) tail = rw (split_word-append w t hs tail, h, split_word) refl

pub read_word-tail : (w t : Bytes) → IsWord w → IsTail t → read_word (w ++ t) ≡ some (w, t)
unfolding read_word skip_space
read_word-tail [] t h tail = absurd h
read_word-tail (c ∷ w) t (h, hs) tail =
    rw (read_word, h, skip_space) (ap some (split_word-append (c ∷ w) t (h, hs) tail))

pub read_word-append : (w s : Bytes) → IsWord w → read_word (w ++ b' ' ∷ s) ≡ some (w, b' ' ∷ s)
unfolding is_space
read_word-append w s h = read_word-tail w (b' ' ∷ s) h refl

pub read_word-last : (w : Bytes) → IsWord w → read_word w ≡ some (w, [])
read_word-last w h =
    subst (λ x. read_word x ≡ some (w, [])) (append-nil w) (read_word-tail w [] h tt)

-- A space in front of a text is passed over.
pub read_word-space : (s : Bytes) → read_word (b' ' ∷ s) ≡ read_word s
unfolding read_word skip_space is_space
read_word-space s = refl

pub skip_space-none : (s : Bytes) → skip_space s ≡ [] → read_word s ≡ none
unfolding read_word
skip_space-none s h = rw (h, read_word)

-- A text without a line end, and without a space at its front.
abbrev pub IsLine : Bytes → Type 0
IsLine s = All (λ c. (c == b'\n') ≡ false) s

pub get_line-whole : (s : Bytes) → IsLine s → get_line s ≡ s
unfolding get_line
get_line-whole [] h = refl
get_line-whole (c ∷ s) (h, hs) = rw (get_line-whole s hs, h, get_line) refl

to_upper_idem : (c : ℕ) → to_upper (to_upper c) ≡ to_upper c
unfolding to_upper
to_upper_idem c = ground arith

pub to_upper_all_idem : (s : Bytes) → to_upper_all (to_upper_all s) ≡ to_upper_all s
unfolding to_upper_all
to_upper_all_idem [] = refl
to_upper_all_idem (c ∷ s) = cc (to_upper_idem c, to_upper_all_idem s)
