-- ===== src/Text.antt =====
-- What the program uses of `<string>`, `<cctype>` and `<sstream>` on text, in the "C" locale: literals,
-- upper case, words, lines, and the ends of a string.
pub mod Words
pub mod Ends
pub mod Numbers
use Prim.Native.Char.{code}
use Prim.Native.String.{String}
use vortex_db.Base.{
  ℕ, zero, suc, ◌-◌, Bool, true, false, ◌&&◌, ◌||◌, Option, none, some, List, [], ◌∷◌, ◌==◌, leb,
  ltb, ◌%◌, ◌^◌, length, map, if◌then◌else◌,
}
use vortex_db.Base.Words.{Bytes}
use vortex_db.Base.Decimal.{of_digits}
use mathlib.Core.Option

-- The bytes of a literal.
abbrev pub codes : String → Bytes
codes String.[] = []
codes (String.◌∷◌ c s) = code c ∷ codes s

-- `toupper`
unfoldable pub to_upper : ℕ → ℕ
to_upper c = if leb b'a' c && leb c b'z' then c - 32 else c

unfoldable pub to_upper_all : Bytes → Bytes
unfolding to_upper
to_upper_all s = map to_upper s

-- `isspace`
unfoldable pub is_space : ℕ → Bool
is_space c = (leb 9 c && leb c 13) || c == 32

-- `ss >> std::ws`
unfoldable pub skip_space : Bytes → Bytes
unfolding is_space
skip_space [] = []
skip_space (c ∷ s) = let rest = skip_space s in if is_space c then rest else c ∷ s

-- The characters up to the next space, and those from there on.
unfoldable pub split_word : Bytes → Bytes × Bytes
unfolding is_space
split_word [] = ([], [])
split_word (c ∷ s) =
    let (word, rest) = split_word s in if is_space c then ([], c ∷ s) else (c ∷ word, rest)

-- `ss >> word`, by what is left in the stream. Without a word the stream fails, and so does all that
-- is read from it later.
unfoldable pub read_word : Bytes → Option (Bytes × Bytes)
unfolding skip_space split_word
read_word s = elim (skip_space s) [ [] ↦ none | c ∷ rest ↦ some (split_word (c ∷ rest)) ]

-- `std::getline(ss, line)` on a stream that is read no further; at its end the line stays empty.
unfoldable pub get_line : Bytes → Bytes
get_line [] = []
get_line (c ∷ s) = let line = get_line s in if c == b'\n' then [] else c ∷ line

-- A test of `s.front()` and one of `s.back()`, both false on the empty string.
unfoldable pub front_is : (ℕ → Bool) → Bytes → Bool
front_is p [] = false
front_is p (c ∷ s) = p c

unfoldable pub back_is : (ℕ → Bool) → Bytes → Bool
back_is p [] = false
back_is p (c ∷ []) = p c
back_is p (c ∷ c' ∷ s) = back_is p (c' ∷ s)

-- `s.erase(0, 1)`
unfoldable pub erase_front : Bytes → Bytes
erase_front [] = []
erase_front (c ∷ s) = s

-- `s.pop_back()`
unfoldable pub drop_back : Bytes → Bytes
drop_back [] = []
drop_back (c ∷ []) = []
drop_back (c ∷ c' ∷ s) = c ∷ drop_back (c' ∷ s)

unfoldable pub is_quote : ℕ → Bool
is_quote c = c == b'"'

-- `if (!s.empty() && s.front() == '"') s.erase(0, 1);` and the same at the back.
unfoldable pub unquote : Bytes → Bytes
unfolding front_is back_is erase_front is_quote drop_back
unquote s =
    let s₁ = if front_is is_quote s then erase_front s else s in
    if back_is is_quote s₁ then drop_back s₁ else s₁

unfoldable pub is_line_end : ℕ → Bool
is_line_end c = c == b'\n' || c == b'\r'

-- `while (!s.empty() && (s.back() == '\n' || s.back() == '\r')) s.pop_back();`. As many rounds as there
-- are characters are enough.
unfoldable pub trim_from : ℕ → Bytes → Bytes
unfolding back_is is_line_end drop_back
trim_from zero s = s
trim_from (suc n) s =
    let rest = trim_from n (drop_back s) in if back_is is_line_end s then rest else s

unfoldable pub trim_line : Bytes → Bytes
unfolding trim_from
trim_line s = trim_from (length s) s

-- `s.find(t) == 0`
unfoldable pub begins_with : Bytes → Bytes → Bool
begins_with [] s = true
begins_with (c ∷ t) [] = false
begins_with (c ∷ t) (b ∷ s) = c == b && begins_with t s

unfoldable pub is_digit : ℕ → Bool
is_digit c = leb b'0' c && leb c b'9'

unfoldable pub leading_digits : Bytes → Bytes
unfolding is_digit
leading_digits [] = []
leading_digits (c ∷ s) = let rest = leading_digits s in if is_digit c then c ∷ rest else []

-- The digits that `std::stoul` reads behind a sign; nothing where it throws.
unfoldable pub read_digits : Bytes → Option ℕ
unfolding leading_digits
read_digits s = elim (leading_digits s) [
  | [] ↦ none
  | c ∷ ds ↦ let n : ℕ = of_digits 0 (c ∷ ds) in if ltb n (2 ^ 32) then some n else none
]

-- `std::stoul`: an `unsigned long` has 32 bits, as on the platform of `winsock2`, and a minus sign
-- negates the number modulo 2^32.
unfoldable pub stoul : Bytes → Option ℕ
unfolding skip_space read_digits
stoul s = elim (skip_space s) [
  | [] ↦ none
  | c ∷ t ↦
      if c == b'-'
      then Option.map (λ n. (2 ^ 32 - n) % 2 ^ 32) (read_digits t)
      else if c == b'+'
      then read_digits t
      else read_digits (c ∷ t)
]
