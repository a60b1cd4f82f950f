-- ===== src/Engine/Merge/Sources.antt =====
-- `MergingIterator::seek` (src/vortex.cpp): the queue of several sources, and what the first of them
-- that has a key holds for it.
use vortex_db.Base.{
  ℕ, ◌+◌, ◌<◌, ◌≤◌, ◌≡◌, refl, ap, ◌∙◌, Option, none, some, List, [], ◌∷◌, length, All, arith, inl,
  inr, Option-cases, Bool-cases, ltb,
}
use vortex_db.Base.Words.{Bytes}
use vortex_db.Base.Map
use vortex_db.Base.Map.{Map, IsSorted}
use vortex_db.Files.{ok}
use vortex_db.Vlog.{ValuePointer}
use vortex_db.Engine.Merge.{InternalIterator, IterNode, seek, push_back, seek_all}
use vortex_db.Engine.Merge.Views.{Views}
use vortex_db.Engine.Merge.Streams.{
  Stream, entries, IsApart, All-push_stream, better, tagged, lookup,
}
use vortex_db.Engine.Merge.Settle.{
  IsMerge, push_rest, push_rest-IsMerge, lookup-push_rest, size, size-push_rest,
}
use vortex_db.Engine.Merge.Collect.{pointer}
use vortex_db.Engine.Merge.Nodes.{AreNodes, push_back-AreNodes}

-- `seek` of each iterator shows the source with its number.
abbrev pub SeekTo : Bytes → List InternalIterator → List (Map ValuePointer) → Type 0
SeekTo target [] [] = Unit
SeekTo target [] (m ∷ ms) = ⊥
SeekTo target (it ∷ iters) [] = ⊥
SeekTo target (it ∷ iters) (m ∷ ms) =
    ((it' : InternalIterator) × (seek target it ≡ ok it') × Views it' m) × SeekTo target iters ms

unfoldable pub seek_streams : ℕ → List (Map ValuePointer) → List Stream → List Stream
unfolding push_rest
seek_streams i [] q = q
seek_streams i (m ∷ ms) q = seek_streams (i + 1) ms (push_rest i m q)

pub seek_all-AreNodes :
    (target : Bytes) (i : ℕ) (iters : List InternalIterator) (ms : List (Map ValuePointer))
    (pq : List IterNode) (q : List Stream)
    → SeekTo target iters ms
    → AreNodes pq q
    → (pq' : List IterNode) × (seek_all target i iters pq ≡ ok pq')
      × AreNodes pq' (seek_streams i ms q)
unfolding seek_all seek_streams
seek_all-AreNodes target i [] [] pq q s a = (pq, refl, a)
seek_all-AreNodes target i [] (m ∷ ms) pq q s a = absurd s
seek_all-AreNodes target i (it ∷ iters) [] pq q s a = absurd s
seek_all-AreNodes target i (it ∷ iters) (m ∷ ms) pq q ((it', run, v), s) a =
    let (pq', run', nodes) =
      seek_all-AreNodes target (i + 1) iters ms (push_back it' i pq) (push_rest i m q) s
        (push_back-AreNodes it' i i m pq q refl v a) in
    (pq', rw run run', nodes)

-- Every stream of the queue has a number below `i`.
abbrev pub IsUnder : ℕ → List Stream → Type 0
IsUnder i q = All (λ s. s.priority < i) q

under-IsApart : (i : ℕ) (q : List Stream) → IsUnder i q → IsApart i q
under-IsApart i [] u = tt
under-IsApart i (s ∷ q) (u, us) = (ground arith, under-IsApart i q us)

weaken : (i : ℕ) (q : List Stream) → IsUnder i q → IsUnder (i + 1) q
weaken i [] u = tt
weaken i (s ∷ q) (u, us) = (omega arith, weaken i q us)

push_rest-IsUnder :
    (i : ℕ) (m : Map ValuePointer) (q : List Stream)
    → IsUnder i q
    → IsUnder (i + 1) (push_rest i m q)
unfolding push_rest
push_rest-IsUnder i [] q u = weaken i q u
push_rest-IsUnder i ((k, p) ∷ m) q u =
    All-push_stream (λ s. s.priority < i + 1) _ q (omega arith) (weaken i q u)

pub seek_streams-IsMerge :
    (i : ℕ) (ms : List (Map ValuePointer)) (q : List Stream)
    → All IsSorted ms
    → IsUnder i q
    → IsMerge q
    → IsMerge (seek_streams i ms q)
unfolding seek_streams
seek_streams-IsMerge i [] q s u g = g
seek_streams-IsMerge i (m ∷ ms) q (s, ss) u g =
    seek_streams-IsMerge (i + 1) ms (push_rest i m q) ss (push_rest-IsUnder i m q u)
      (push_rest-IsMerge i m q (under-IsApart i q u) s g)

-- The number of the entries of all sources.
unfoldable pub weight : List (Map ValuePointer) → ℕ
weight [] = 0
weight (m ∷ ms) = length m + weight ms

pub size-seek_streams :
    (i : ℕ) (ms : List (Map ValuePointer)) (q : List Stream)
    → size (seek_streams i ms q) ≡ weight ms + size q
unfolding seek_streams weight
size-seek_streams i [] q = omega arith
size-seek_streams i (m ∷ ms) q =
    omega (arith, size-seek_streams (i + 1) ms (push_rest i m q), size-push_rest i m q)

-- What the first source that has a key holds for it.
unfoldable pub first : Bytes → List (Map ValuePointer) → Option ValuePointer
first j [] = none
first j (m ∷ ms) = elim (Map.find j m) [ some p ↦ some p | none ↦ first j ms ]

numbered : ℕ → Bytes → List (Map ValuePointer) → Option (ℕ × ValuePointer)
numbered i j [] = none
numbered i j (m ∷ ms) = elim (Map.find j m) [ some p ↦ some (i, p) | none ↦ numbered (i + 1) j ms ]

pointer-numbered :
    (i : ℕ) (j : Bytes) (ms : List (Map ValuePointer)) → pointer (numbered i j ms) ≡ first j ms
unfolding numbered first
pointer-numbered i j [] = refl
pointer-numbered i j (m ∷ ms) = ground (arith, pointer-numbered (i + 1) j ms)

abbrev AtLeast : ℕ → Option (ℕ × ValuePointer) → Type 0
AtLeast i none = Unit
AtLeast i (some a) = i ≤ a.0

abbrev Under : ℕ → Option (ℕ × ValuePointer) → Type 0
Under i none = Unit
Under i (some a) = a.0 < i

numbered-AtLeast : (i : ℕ) (j : Bytes) (ms : List (Map ValuePointer)) → AtLeast i (numbered i j ms)
unfolding numbered
numbered-AtLeast i j [] = tt
numbered-AtLeast i j (m ∷ ms) = elim (Option-cases (Map.find j m)) [
  | inr (p, found) ↦ rw (found, numbered) (omega arith)
  | inl missing ↦
      rw (missing, numbered) (later (numbered (i + 1) j ms) (numbered-AtLeast (i + 1) j ms))
]
  where
    later : (o : Option (ℕ × ValuePointer)) → AtLeast (i + 1) o → AtLeast i o
    later none h = tt
    later (some a) h = omega arith

better-Under :
    (i : ℕ) (a b : Option (ℕ × ValuePointer)) → Under i a → Under i b → Under i (better a b)
better-Under i none b h k = k
better-Under i (some a) none h k = h
better-Under i (some a) (some b) h k = elim (Bool-cases (ltb b.0 a.0)) [
  | inl less ↦ rw less k
  | inr more ↦ rw more h
]

lookup-Under : (i : ℕ) (j : Bytes) (q : List Stream) → IsUnder i q → Under i (lookup j q)
unfolding lookup
lookup-Under i j [] u = tt
lookup-Under i j (s ∷ q) (u, us) =
    better-Under i (tagged s.priority (Map.find j (entries s))) (lookup j q)
      (tagged-Under (Map.find j (entries s))) (lookup-Under i j q us)
  where
    tagged-Under : (o : Option ValuePointer) → Under i (tagged s.priority o)
    tagged-Under none = tt
    tagged-Under (some p) = u

better_between :
    (i : ℕ) (x : Option ValuePointer) (low high : Option (ℕ × ValuePointer))
    → Under i low
    → AtLeast (i + 1) high
    → better (better (tagged i x) low) high
      ≡ better low (elim x [ some p ↦ some (i, p) | none ↦ high ])
better_between i none low high u a = refl
better_between i (some p) none none u a = refl
better_between i (some p) none (some b) u a = ground arith
better_between i (some p) (some c) none u a = ground arith
better_between i (some p) (some c) (some b) u a = ground arith

lookup-seek_streams :
    (i : ℕ) (j : Bytes) (ms : List (Map ValuePointer)) (q : List Stream)
    → IsUnder i q
    → lookup j (seek_streams i ms q) ≡ better (lookup j q) (numbered i j ms)
unfolding seek_streams numbered
lookup-seek_streams i j [] q u = better_none (lookup j q)
  where
    better_none : (o : Option (ℕ × ValuePointer)) → o ≡ better o none
    better_none none = refl
    better_none (some a) = refl
lookup-seek_streams i j (m ∷ ms) q u =
    lookup-seek_streams (i + 1) j ms (push_rest i m q) (push_rest-IsUnder i m q u)
    ∙ ap (λ o. better o (numbered (i + 1) j ms)) (lookup-push_rest j i m q (under-IsApart i q u))
    ∙ better_between i (Map.find j m) (lookup j q) (numbered (i + 1) j ms) (lookup-Under i j q u)
        (numbered-AtLeast (i + 1) j ms)

-- The queue of the sources holds for a key what the first source with the key does.
pub lookup-seek_streams-first :
    (j : Bytes) (ms : List (Map ValuePointer))
    → pointer (lookup j (seek_streams 0 ms [])) ≡ first j ms
unfolding lookup
lookup-seek_streams-first j ms =
    ap pointer (lookup-seek_streams 0 j ms [] tt) ∙ pointer-numbered 0 j ms
