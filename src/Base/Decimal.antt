-- ===== src/Base/Decimal.antt =====
-- `std::to_string` on an unsigned integer.
use vortex_db.Base.Words.{Bytes}
use vortex_db.Base.Tests.{ltb, if◌then◌else◌, Bool-cases}
use Prim.Native.Nat.{ℕ, zero, suc, ◌+◌, ◌-◌, ◌*◌, ◌/◌, ◌%◌, ◌<◌}
use mathlib.Core.Logic.{inl, inr}
use mathlib.Core.Path.{◌≡◌, ap, sym, ◌∙◌}
use mathlib.Core.List.{[], ◌∷◌}
use native.Mathlib.Omega.{arith}

-- Fuel of `n + 1` rounds is enough: the number falls in every round.
unfoldable pub digits : ℕ → ℕ → Bytes → Bytes
digits zero n acc = acc
digits (suc fuel) n acc =
    let d : ℕ = 48 + n % 10 in
    let more = digits fuel (n / 10) (d ∷ acc) in if ltb n 10 then d ∷ acc else more

unfoldable pub to_string : ℕ → Bytes
unfolding digits
to_string n = digits (suc n) n []

-- The number that digits stand for, behind those that are read.
unfoldable pub of_digits : ℕ → Bytes → ℕ
of_digits n [] = n
of_digits n (c ∷ cs) = of_digits (n * 10 + (c - 48)) cs

pub of_digits-digits :
    (fuel n : ℕ) (acc : Bytes) → n < fuel → of_digits 0 (digits fuel n acc) ≡ of_digits n acc
unfolding of_digits digits
of_digits-digits zero n acc h = absurd (omega arith)
of_digits-digits (suc fuel) n acc h = elim (Bool-cases (ltb n 10)) [
  | inl small ↦ rw (small, digits) (ap (λ k. of_digits k acc) (ground arith))
  | inr large ↦
      rw (large, digits)
        (of_digits-digits fuel (n / 10) ((48 + n % 10) ∷ acc) (ground arith)
          ∙ ap (λ k. of_digits k acc) (omega arith))
]

-- The digits tell the numbers apart.
pub to_string-injective : (m n : ℕ) → to_string m ≡ to_string n → m ≡ n
unfolding to_string of_digits
to_string-injective m n e =
    sym (of_digits-digits (suc m) m [] (omega arith))
    ∙ ap (of_digits 0) e
    ∙ of_digits-digits (suc n) n [] (omega arith)
