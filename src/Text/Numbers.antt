-- ===== src/Text/Numbers.antt =====
-- Numbers in a text: what `std::stoul` reads of what `std::to_string` has written (src/vortex.cpp).
use vortex_db.Base.{
  ℕ, zero, suc, ◌+◌, ◌/◌, ◌%◌, ◌^◌, ◌<◌, ◌==◌, ◌≡◌, refl, true, false, some, [], ◌∷◌, length, All,
  arith,
}
use vortex_db.Base.Words.{Bytes}
use vortex_db.Base.Decimal.{digits, to_string, of_digits, of_digits-digits}
use vortex_db.Text.{is_space, is_digit, skip_space, leading_digits, read_digits, stoul}

abbrev IsDigits : Bytes → Type 0
IsDigits s = All (λ c. is_digit c ≡ true) s

digits-IsDigits : (fuel n : ℕ) (acc : Bytes) → IsDigits acc → IsDigits (digits fuel n acc)
unfolding digits is_digit
digits-IsDigits zero n acc h = h
digits-IsDigits (suc fuel) n acc h =
    let digit : is_digit (48 + n % 10) ≡ true = ground arith in
    ground (arith, digit, h, digits-IsDigits fuel (n / 10) ((48 + n % 10) ∷ acc) (digit, h))

length-digits : (fuel n c : ℕ) (acc : Bytes) → 0 < length (digits fuel n (c ∷ acc))
unfolding digits
length-digits zero n c acc = omega arith
length-digits (suc fuel) n c acc =
    ground (arith, length-digits fuel (n / 10) (48 + n % 10) (c ∷ acc))

leading_digits-whole : (s : Bytes) → IsDigits s → leading_digits s ≡ s
unfolding leading_digits
leading_digits-whole [] h = refl
leading_digits-whole (c ∷ s) (h, hs) = rw (leading_digits-whole s hs, h, leading_digits) refl

read_digits-whole :
    (s : Bytes) (n : ℕ)
    → IsDigits s
    → 0 < length s
    → of_digits 0 s ≡ n
    → n < 2 ^ 32
    → read_digits s ≡ some n
unfolding read_digits
read_digits-whole [] n h some_digit e small = absurd (omega arith)
read_digits-whole (c ∷ s) n h some_digit e small =
    rw (read_digits, leading_digits-whole (c ∷ s) h, e) (ground (arith, small))

digit-plain :
    (c : ℕ)
    → is_digit c ≡ true
    → (is_space c ≡ false) × ((c == b'-') ≡ false) × ((c == b'+') ≡ false)
unfolding is_digit is_space
digit-plain c h = (ground (arith, h), ground (arith, h), ground (arith, h))

stoul-digits :
    (s : Bytes) (n : ℕ)
    → IsDigits s
    → 0 < length s
    → of_digits 0 s ≡ n
    → n < 2 ^ 32
    → stoul s ≡ some n
unfolding stoul skip_space
stoul-digits [] n h some_digit e small = absurd (omega arith)
stoul-digits (c ∷ s) n (h, hs) some_digit e small =
    let (no_space, no_minus, no_plus) = digit-plain c h in
    rw (stoul, skip_space, no_space, no_minus, no_plus)
      (read_digits-whole (c ∷ s) n (h, hs) some_digit e small)

pub stoul-to_string : (n : ℕ) → n < 2 ^ 32 → stoul (to_string n) ≡ some n
unfolding to_string digits of_digits
stoul-to_string n small =
    stoul-digits (to_string n) n (digits-IsDigits (suc n) n [] tt)
      (ground (arith, length-digits n (n / 10) (48 + n % 10) []))
      (of_digits-digits (suc n) n [] (omega arith)) small
