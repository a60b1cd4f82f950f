-- ===== src/Engine/Merge/Streams.antt =====
-- The queue of `MergingIterator` (src/vortex.cpp) as sorted lists of entries with priorities, and what
-- it holds for a key.
use vortex_db.Base.{
  ℕ, ◌≡◌, refl, ap, ◌∙◌, Bool, true, false, Option, none, some, List, [], ◌∷◌, ltb, ◌==◌,
  if◌then◌else◌, All, arith, inl, inr, Bool-cases,
}
use vortex_db.Base.Words.{Bytes}
use vortex_db.Base.Order.{lex-flip, lex_trans, eq_of_lex}
use vortex_db.Base.Map
use vortex_db.Base.Map.{Map, IsAbove, IsSorted}
use vortex_db.Vlog.{ValuePointer}
use vortex_db.Engine.Merge.{is_after}

-- A node of the queue: the entry on which its iterator stands, and those that are still to come.
pub record Stream : Type 0 where
  pub priority : ℕ
  pub key : Bytes
  pub ptr : ValuePointer
  pub rest : Map ValuePointer

abbrev pub entries : Stream → Map ValuePointer
entries s = (s.key, s.ptr) ∷ s.rest

abbrev pub comes_after : Stream → Stream → Bool
comes_after s t = is_after s.key s.priority t.key t.priority

-- `s` may stand before `t` in the queue.
pub record IsBefore (s t : Stream) : Type 0 where
  pub order : comes_after s t ≡ false
  pub apart : (s.priority == t.priority) ≡ false

pub record IsStream (s : Stream) : Type 0 where
  pub above : IsAbove s.key s.rest
  pub sorted : IsSorted s.rest

abbrev pub IsQueue : List Stream → Type 0
IsQueue [] = Unit
IsQueue (s ∷ q) = All (IsBefore s) q × IsQueue q

abbrev pub IsApart : ℕ → List Stream → Type 0
IsApart i [] = Unit
IsApart i (s ∷ q) = ((i == s.priority) ≡ false) × IsApart i q

unfoldable pub push_stream : Stream → List Stream → List Stream
push_stream s [] = s ∷ []
push_stream s (t ∷ q) =
    let rest = push_stream s q in if comes_after s t then t ∷ rest else s ∷ t ∷ q

-- What the streams hold for a key: the pointer of the least priority.
abbrev pub better :
    Option (ℕ × ValuePointer) → Option (ℕ × ValuePointer) → Option (ℕ × ValuePointer)
better none o = o
better (some a) none = some a
better (some a) (some b) = if ltb b.0 a.0 then some b else some a

abbrev pub tagged : ℕ → Option ValuePointer → Option (ℕ × ValuePointer)
tagged i none = none
tagged i (some p) = some (i, p)

unfoldable pub lookup : Bytes → List Stream → Option (ℕ × ValuePointer)
lookup j [] = none
lookup j (s ∷ q) = better (tagged s.priority (Map.find j (entries s))) (lookup j q)

comes_after_asym : (s t : Stream) → comes_after s t ≡ true → comes_after t s ≡ false
unfolding is_after
comes_after_asym s t h = ground (arith, lex-flip s.key t.key, h)

IsBefore-order :
    (s t u : Stream) → comes_after s t ≡ false → comes_after t u ≡ false → comes_after s u ≡ false
unfolding is_after
IsBefore-order s t u h k = ground (
  arith,
  lex-flip s.key t.key,
  lex-flip t.key u.key,
  lex-flip s.key u.key,
  lex_trans s.key t.key u.key,
  eq_of_lex s.key t.key,
  eq_of_lex t.key u.key,
)

pub All-push_stream :
    (P : Stream → Type 0) (s : Stream) (q : List Stream) → P s → All P q → All P (push_stream s q)
unfolding push_stream
All-push_stream P s [] h a = (h, tt)
All-push_stream P s (t ∷ q) h (a, rest) = elim (Bool-cases (comes_after s t)) [
  | inl later ↦ rw (later, push_stream) (a, All-push_stream P s q h rest)
  | inr sooner ↦ rw (sooner, push_stream) (h, (a, rest))
]

IsBefore-after :
    (s t : Stream) → comes_after s t ≡ true → (s.priority == t.priority) ≡ false → IsBefore t s
IsBefore-after s t h apart = record { order = comes_after_asym s t h; apart = ground arith }

All-IsBefore-after :
    (s t : Stream) (q : List Stream)
    → comes_after s t ≡ false
    → IsApart s.priority q
    → All (IsBefore t) q
    → All (IsBefore s) q
All-IsBefore-after s t [] h apart b = tt
All-IsBefore-after s t (u ∷ q) h (apart, apart_rest) (b, b_rest) = (
  record { order = IsBefore-order s t u h b.order; apart = apart },
  All-IsBefore-after s t q h apart_rest b_rest,
)

pub push_stream-IsQueue :
    (s : Stream) (q : List Stream) → IsApart s.priority q → IsQueue q → IsQueue (push_stream s q)
unfolding push_stream
push_stream-IsQueue s [] apart i = (tt, tt)
push_stream-IsQueue s (t ∷ q) (apart, apart_rest) (b, i) = elim (Bool-cases (comes_after s t)) [
  | inl later ↦
      rw (later, push_stream)
        (
          All-push_stream (IsBefore t) s q (IsBefore-after s t later apart) b,
          push_stream-IsQueue s q apart_rest i,
        )
  | inr sooner ↦
      rw (sooner, push_stream)
        (
          (record { order = sooner; apart = apart }, All-IsBefore-after s t q sooner apart_rest b),
          (b, i),
        )
]

-- Pushing makes no difference to what the streams hold.
better_left_comm :
    (a b o : Option (ℕ × ValuePointer)) (i h : ℕ) (x y : Option ValuePointer)
    → a ≡ tagged i x
    → b ≡ tagged h y
    → (i == h) ≡ false
    → better b (better a o) ≡ better a (better b o)
better_left_comm a b o i h none y e f n = ground (arith, e, f)
better_left_comm a b o i h (some x) none e f n = ground (arith, e, f)
better_left_comm a b none i h (some x) (some y) e f n = ground (arith, e, f)
better_left_comm a b (some c) i h (some x) (some y) e f n = ground (arith, e, f)

pub lookup-push_stream :
    (j : Bytes) (s : Stream) (q : List Stream)
    → IsApart s.priority q
    → lookup j (push_stream s q) ≡ lookup j (s ∷ q)
unfolding push_stream lookup
lookup-push_stream j s [] apart = refl
lookup-push_stream j s (t ∷ q) (apart, apart_rest) = elim (Bool-cases (comes_after s t)) [
  | inr sooner ↦ rw (sooner, push_stream)
  | inl later ↦
      rw (later, push_stream)
        (ap (better (tagged t.priority (Map.find j (entries t))))
            (lookup-push_stream j s q apart_rest)
          ∙ better_left_comm _ _ (lookup j q) s.priority t.priority (Map.find j (entries s))
              (Map.find j (entries t)) refl refl apart)
]
