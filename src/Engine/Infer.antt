-- ===== src/Engine/Infer.antt =====
-- The type of a value that is put (src/vortex.cpp).
use vortex_db.Base.{
  ◌<◌, ◌↔◌, sym, ap, ◌∙◌, refl, ℕ, ◌+◌, Bool, true, false, ◌&&◌, ◌||◌, not, Option, none, some, [],
  ◌∷◌, ◌==◌, leb, if◌then◌else◌, ◌≡◌, arith,
}
use vortex_db.Base.Words.{Bytes}
use vortex_db.Base.Order.{lex, ◌=ˢ◌}
use vortex_db.Vlog.{ValueType, string, int, double, bool, json, sub_vortex, tombstone, other}

-- `value.back()`
unfoldable pub last_byte : ℕ → Bytes → ℕ
last_byte c [] = c
last_byte c (b ∷ bs) = last_byte b bs

unfoldable pub is_digit : ℕ → Bool
is_digit c = leb 48 c && leb c 57

-- The loop over the characters: nothing if the value is no number, or else whether it has a point.
unfoldable pub number_from : ℕ → Bool → Bytes → Option Bool
unfolding is_digit
number_from i is_double [] = some is_double
number_from i is_double (c ∷ rest) =
    let same = number_from (i + 1) is_double rest in
    let pointed = number_from (i + 1) true rest in
    if i == 0 && c == b'-'
    then same
    else if c == b'.'
    then if is_double then none else pointed
    else if is_digit c
    then same
    else none

unfoldable pub infer_type : Bytes → ValueType
unfolding number_from last_byte
infer_type [] = string
infer_type (c ∷ rest) =
    let value : Bytes = c ∷ rest in
    if value =ˢ (b't' ∷ b'r' ∷ b'u' ∷ b'e' ∷ []) || value =ˢ (b'f' ∷ b'a' ∷ b'l' ∷ b's' ∷ b'e' ∷ [])
    then bool
    else if c == b'{' && last_byte c rest == b'}'
    then json
    else elim (number_from 0 false value) [
      | none ↦ string
      | some is_double ↦
          if not (value =ˢ (b'-' ∷ [])) && not (value =ˢ (b'-' ∷ b'.' ∷ []))
          then if is_double then double else int
          else string
    ]

-- The types that `infer_type` can answer.
unfoldable pub is_plain : ValueType → Bool
is_plain string = true
is_plain int = true
is_plain double = true
is_plain bool = true
is_plain json = true
is_plain _ = false

pub infer_type-is_plain : (value : Bytes) → is_plain (infer_type value) ≡ true
unfolding is_plain infer_type
infer_type-is_plain [] = refl
infer_type-is_plain (c ∷ rest) = ground arith

unfoldable pub all_digits : Bytes → Bool
unfolding is_digit
all_digits [] = true
all_digits (c ∷ rest) = is_digit c && all_digits rest

unfoldable pub some_digits : Bytes → Bool
unfolding all_digits
some_digits [] = false
some_digits (c ∷ rest) = all_digits (c ∷ rest)

-- At least one digit, and nothing but digits behind at most one minus sign.
unfoldable pub is_integer : Bytes → Bool
unfolding some_digits
is_integer [] = false
is_integer (c ∷ rest) = if c == b'-' then some_digits rest else some_digits (c ∷ rest)

-- The loop found a number without a point.
abbrev whole : Option Bool → Bool
whole none = false
whole (some is_double) = not is_double

whole-number_from :
    (i : ℕ) (is_double : Bool) (value : Bytes)
    → 0 < i
    → whole (number_from i is_double value) ≡ (not is_double && all_digits value)
unfolding number_from all_digits is_digit
whole-number_from i true [] h = refl
whole-number_from i false [] h = refl
whole-number_from i true (c ∷ rest) h =
    ground (arith, whole-number_from (i + 1) true rest (omega arith))
whole-number_from i false (c ∷ rest) h = ground (
  arith,
  whole-number_from (i + 1) true rest (omega arith),
  whole-number_from (i + 1) false rest (omega arith),
)

abbrev pub is_int : ValueType → Bool
is_int int = true
is_int _ = false

is_int-infer_type : (value : Bytes) → is_int (infer_type value) ≡ is_integer value
unfolding infer_type is_integer some_digits number_from all_digits is_digit lex
is_int-infer_type [] = refl
is_int-infer_type (c ∷ []) = ground arith
is_int-infer_type (c ∷ d ∷ rest) = ground (
  arith,
  whole-number_from 1 true (d ∷ rest) (omega arith),
  whole-number_from 1 false (d ∷ rest) (omega arith),
)

int_of_is_int : (type : ValueType) → is_int type ≡ true → type ≡ int
int_of_is_int int h = refl
int_of_is_int string h = absurd cc
int_of_is_int double h = absurd cc
int_of_is_int bool h = absurd cc
int_of_is_int json h = absurd cc
int_of_is_int sub_vortex h = absurd cc
int_of_is_int tombstone h = absurd cc
int_of_is_int (other tag) h = absurd cc

-- The type of a value is inferred to be an integer exactly if the value is a digit and more digits,
-- or a minus sign and such digits.
pub infer_type-int : (value : Bytes) → (infer_type value ≡ int) ↔ (is_integer value ≡ true)
infer_type-int value = (
  λ h. sym (is_int-infer_type value) ∙ ap is_int h,
  λ h. int_of_is_int (infer_type value) (is_int-infer_type value ∙ h),
)
