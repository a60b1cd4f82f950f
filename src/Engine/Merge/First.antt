-- ===== src/Engine/Merge/First.antt =====
-- What a queue of streams holds below its first key and for it (src/vortex.cpp).
use vortex_db.Base.{
  ℕ, ◌<◌, ◌≡◌, refl, Option, none, some, List, [], ◌∷◌, ltb, lt, All, arith, inl, inr, Bool-cases,
  Option-cases,
}
use vortex_db.Base.Words.{Bytes}
use vortex_db.Base.Order.{Ordering-cases, lex, lex_refl}
use vortex_db.Base.Map
use vortex_db.Base.Map.{Map, IsAbove, IsSorted}
use vortex_db.Vlog.{ValuePointer}
use vortex_db.Engine.Merge.{is_after}
use vortex_db.Engine.Merge.Streams.{
  Stream, entries, IsBefore, IsStream, IsQueue, better, tagged, lookup,
}

-- A stream holds nothing below its key.
find_below_key :
    (j : Bytes) (s : Stream) → IsStream s → lex j s.key ≡ lt → Map.find j (entries s) ≡ none
find_below_key j s i h =
    Map.find_below j (entries s) (h, Map.IsAbove-trans j s.key s.rest h i.above)

pub lookup_below :
    (j : Bytes) (q : List Stream)
    → All IsStream q
    → All (λ s. lex j s.key ≡ lt) q
    → lookup j q ≡ none
unfolding lookup
lookup_below j [] i h = refl
lookup_below j (s ∷ q) (i, is) (h, hs) = rw (find_below_key j s i h) (lookup_below j q is hs)

-- What other streams hold for the key of the first one has a greater priority.
abbrev IsWorse : ℕ → Option (ℕ × ValuePointer) → Type 0
IsWorse i none = Unit
IsWorse i (some a) = i < a.0

better-IsWorse :
    (i : ℕ) (a b : Option (ℕ × ValuePointer)) → IsWorse i a → IsWorse i b → IsWorse i (better a b)
better-IsWorse i none b h k = k
better-IsWorse i (some a) none h k = h
better-IsWorse i (some a) (some b) h k = elim (Bool-cases (ltb b.0 a.0)) [
  | inl less ↦ rw less k
  | inr more ↦ rw more h
]

tagged-IsWorse :
    (s t : Stream)
    → IsBefore s t
    → IsStream t
    → IsWorse s.priority (tagged t.priority (Map.find s.key (entries t)))
unfolding is_after
tagged-IsWorse s t b i = elim (Ordering-cases (lex s.key t.key)) [
  | inl below ↦ rw (find_below_key s.key t i below) tt
  | inr (inr above) ↦ absurd (ground (arith, b.order))
  | inr (inl same) ↦
      let less : s.priority < t.priority = ground (arith, b.order, b.apart) in
      elim (Option-cases (Map.find s.key (entries t))) [
        | inl missing ↦ rw missing tt
        | inr (p, found) ↦ rw found less
      ]
]

lookup-IsWorse :
    (s : Stream) (q : List Stream)
    → All (IsBefore s) q
    → All IsStream q
    → IsWorse s.priority (lookup s.key q)
unfolding lookup
lookup-IsWorse s [] b i = tt
lookup-IsWorse s (t ∷ q) (b, bs) (i, is) =
    better-IsWorse s.priority _ _ (tagged-IsWorse s t b i) (lookup-IsWorse s q bs is)

better_first :
    (i : ℕ) (p : ValuePointer) (o : Option (ℕ × ValuePointer))
    → IsWorse i o
    → better (some (i, p)) o ≡ some (i, p)
better_first i p none h = refl
better_first i p (some b) h = ground arith

-- The first stream of a queue has the pointer of the least priority for its key.
pub lookup_top :
    (s : Stream) (q : List Stream)
    → IsQueue (s ∷ q)
    → All IsStream (s ∷ q)
    → lookup s.key (s ∷ q) ≡ some (s.priority, s.ptr)
unfolding lookup Map.find
lookup_top s q (b, _) (_, is) =
    rw (Map.find, lex_refl s.key)
      (better_first s.priority s.ptr (lookup s.key q) (lookup-IsWorse s q b is))
