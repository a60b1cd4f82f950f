-- ===== src/Cuckoo/Slots.antt =====
-- One bucket of the filter (src/cuckoo.cpp): slots, and sums over them.
use vortex_db.Base.{
  ℕ, zero, suc, ◌+◌, ◌<◌, ◌≡◌, refl, inl, inr, none, some, List, [], ◌∷◌, get_or, set, length,
  replicate, All, arith, Option-cases,
}
use vortex_db.Base.Words.{IsByte}
use vortex_db.Cuckoo.{place}

-- The sum of a weight over the slots of a bucket, and over all buckets.
unfoldable pub tally : (ℕ → ℕ) → List ℕ → ℕ
tally w [] = 0
tally w (s ∷ slots) = w s + tally w slots

unfoldable pub total : (ℕ → ℕ) → List (List ℕ) → ℕ
total w [] = 0
total w (b ∷ bs) = tally w b + total w bs

pub tally-set :
    (w : ℕ → ℕ) (slots : List ℕ) (i v : ℕ)
    → i < length slots
    → tally w (set slots i v) + w (get_or slots i 0) ≡ tally w slots + w v
unfolding tally
tally-set w [] i v h = absurd (omega arith)
tally-set w (s ∷ slots) zero v h = omega arith
tally-set w (s ∷ slots) (suc i) v h = omega (arith, tally-set w slots i v (omega arith))

pub total-set :
    (w : ℕ → ℕ) (bs : List (List ℕ)) (i : ℕ) (b : List ℕ)
    → i < length bs
    → total w (set bs i b) + tally w (get_or bs i []) ≡ total w bs + tally w b
unfolding total
total-set w [] i b h = absurd (omega arith)
total-set w (c ∷ bs) zero b h = omega arith
total-set w (c ∷ bs) (suc i) b h = omega (arith, total-set w bs i b (omega arith))

tally-replicate : (w : ℕ → ℕ) (n : ℕ) → w 0 ≡ 0 → tally w (replicate n 0) ≡ 0
unfolding tally
tally-replicate w zero h = refl
tally-replicate w (suc n) h = omega (arith, tally-replicate w n h)

pub total-replicate : (w : ℕ → ℕ) (n k : ℕ) → w 0 ≡ 0 → total w (replicate n (replicate k 0)) ≡ 0
unfolding total
total-replicate w zero k h = refl
total-replicate w (suc n) k h = omega (arith, total-replicate w n k h, tally-replicate w k h)

-- A bucket as the constructor makes it: four bytes.
pub record IsBucket (b : List ℕ) : Type 0 where
  pub size : length b ≡ 4
  pub bytes : All IsByte b

pub All-set : (b : List ℕ) (i v : ℕ) → v < 256 → All IsByte b → All IsByte (set b i v)
All-set [] i v h a = a
All-set (s ∷ b) zero v h (a, rest) = (h, rest)
All-set (s ∷ b) (suc i) v h (a, rest) = (a, All-set b i v h rest)

pub All-get_or : (b : List ℕ) (i : ℕ) → All IsByte b → get_or b i 0 < 256
All-get_or [] i a = omega arith
All-get_or (s ∷ b) zero (a, rest) = a
All-get_or (s ∷ b) (suc i) (a, rest) = All-get_or b i rest

-- `place` fills a zero slot and leaves the others.
pub record Placed (fp : ℕ) (b r : List ℕ) : Type 0 where
  pub size : length r ≡ length b
  pub bytes : All IsByte b → fp < 256 → All IsByte r
  pub weight : (w : ℕ → ℕ) → w 0 ≡ 0 → tally w r ≡ tally w b + w fp

pub place-Placed : (fp : ℕ) (b r : List ℕ) → place fp b ≡ some r → Placed fp b r
unfolding place tally
place-Placed fp [] r h = cc
place-Placed fp (s ∷ b) r h = elim (Option-cases (place fp b)) [
  | inl e ↦ record {
    size = ground arith;
    bytes = λ a f. ground arith;
    weight = λ w z. ground arith;
  }
  | inr (r', e) ↦
      let ih = place-Placed fp b r' e in
      record {
        size = ground (arith, ih.size);
        bytes = λ a f. ground (arith, ih.bytes a.1 f);
        weight = λ w z. ground (arith, ih.weight w z);
      }
]

-- A bucket with no zero slot.
abbrev pub IsFull : List ℕ → Type 0
IsFull = All (λ s. 0 < s)

pub place-IsFull : (fp : ℕ) (b : List ℕ) → place fp b ≡ none → IsFull b
unfolding place
place-IsFull fp [] h = tt
place-IsFull fp (s ∷ b) h = elim (Option-cases (place fp b)) [
  | inl e ↦ (ground arith, place-IsFull fp b e)
  | inr (r, e) ↦ absurd (ground arith)
]

pub get_or-pos : (b : List ℕ) (i : ℕ) → IsFull b → i < length b → 0 < get_or b i 0
get_or-pos [] i a h = absurd (omega arith)
get_or-pos (s ∷ b) zero (a, rest) h = a
get_or-pos (s ∷ b) (suc i) (a, rest) h = get_or-pos b i rest (omega arith)

-- All buckets, one of them replaced.
pub All-set-IsBucket :
    (bs : List (List ℕ)) (i : ℕ) (b : List ℕ)
    → IsBucket b
    → All IsBucket bs
    → All IsBucket (set bs i b)
All-set-IsBucket [] i b h a = a
All-set-IsBucket (c ∷ bs) zero b h (a, rest) = (h, rest)
All-set-IsBucket (c ∷ bs) (suc i) b h (a, rest) = (a, All-set-IsBucket bs i b h rest)

pub All-get-IsBucket :
    (bs : List (List ℕ)) (i : ℕ) → i < length bs → All IsBucket bs → IsBucket (get_or bs i [])
All-get-IsBucket [] i h a = absurd (omega arith)
All-get-IsBucket (c ∷ bs) zero h (a, rest) = a
All-get-IsBucket (c ∷ bs) (suc i) h (a, rest) = All-get-IsBucket bs i (omega arith) rest

pub replicate-IsBucket : (n : ℕ) → All IsBucket (replicate n (replicate 4 0))
replicate-IsBucket zero = tt
replicate-IsBucket (suc n) = (record { size = refl; bytes = omega arith }, replicate-IsBucket n)
