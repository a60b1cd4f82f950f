-- ===== src/Engine/Merge/Collect.antt =====
-- What a walk with `MergingIterator` visits (src/vortex.cpp), on streams: each key once, in order, with
-- the pointer of the least priority.
use vortex_db.Base.{
  ℕ, zero, suc, ◌<◌, ◌≡◌, false, Option, none, some, List, [], ◌∷◌, length, lt, All, arith, inl,
  inr, Bool-cases,
}
use vortex_db.Base.Words.{Bytes}
use vortex_db.Base.Order.{is_lt, lex, lex_refl, lex-flip, eq_of_lex, ◌=ˢ◌}
use vortex_db.Base.Map
use vortex_db.Base.Map.{Map, IsAbove, IsSorted}
use vortex_db.Vlog.{ValuePointer}
use vortex_db.Engine.Merge.{is_after}
use vortex_db.Engine.Merge.Streams.{Stream, IsBefore, lookup}
use vortex_db.Engine.Merge.First.{lookup_below, lookup_top}
use vortex_db.Engine.Merge.Settle.{
  IsMerge, IsFrom, Settled, advance_streams, count, size, count-le-length, advance_streams-Settled,
}

-- The queue behind the current key.
abbrev pub next_streams : Stream → List Stream → List Stream
next_streams s q = advance_streams (suc (suc (length q))) s.key (s ∷ q)

unfoldable pub collect : ℕ → List Stream → Map ValuePointer
collect zero q = []
collect (suc fuel) [] = []
collect (suc fuel) (s ∷ q) = (s.key, s.ptr) ∷ collect fuel (next_streams s q)

abbrev pub pointer : Option (ℕ × ValuePointer) → Option ValuePointer
pointer none = none
pointer (some a) = some a.1

pub first-IsFrom : (s : Stream) (q : List Stream) → IsMerge (s ∷ q) → IsFrom s.key (s ∷ q)
unfolding is_after
first-IsFrom s q g = (ground (arith, lex_refl s.key), others q g.queue.0)
  where
    others : (r : List Stream) → All (IsBefore s) r → All (λ t. is_lt (lex t.key s.key) ≡ false) r
    others [] b = tt
    others (t ∷ r) (b, bs) = (ground (arith, b.order, lex-flip s.key t.key), others r bs)

pub next_streams-Settled :
    (s : Stream) (q : List Stream) → IsMerge (s ∷ q) → Settled s.key (s ∷ q) (next_streams s q)
next_streams-Settled s q g =
    advance_streams-Settled (suc (suc (length q))) s.key (s ∷ q) g (first-IsFrom s q g)
      (omega (arith, count-le-length s.key (s ∷ q)))

pub size-next_streams :
    (s : Stream) (q : List Stream) → IsMerge (s ∷ q) → size (next_streams s q) < size (s ∷ q)
unfolding count
size-next_streams s q g = ground (arith, (next_streams-Settled s q g).fewer, lex_refl s.key)

collect-IsAbove :
    (fuel : ℕ) (k : Bytes) (q : List Stream)
    → IsMerge q
    → All (λ s. lex k s.key ≡ lt) q
    → IsAbove k (collect fuel q)
unfolding collect
collect-IsAbove zero k q g a = tt
collect-IsAbove (suc fuel) k [] g a = tt
collect-IsAbove (suc fuel) k (s ∷ q) g (a, _) =
    let st = next_streams-Settled s q g in
    (a, Map.IsAbove-trans k s.key _ a (collect-IsAbove fuel s.key _ st.merge st.above))

pub collect-IsSorted : (fuel : ℕ) (q : List Stream) → IsMerge q → IsSorted (collect fuel q)
unfolding collect
collect-IsSorted zero q g = tt
collect-IsSorted (suc fuel) [] g = tt
collect-IsSorted (suc fuel) (s ∷ q) g =
    let st = next_streams-Settled s q g in
    (collect-IsAbove fuel s.key _ st.merge st.above, collect-IsSorted fuel _ st.merge)

pub find-collect :
    (fuel : ℕ) (j : Bytes) (q : List Stream)
    → IsMerge q
    → size q < fuel
    → Map.find j (collect fuel q) ≡ pointer (lookup j q)
unfolding collect Map.find
find-collect zero j q g more = absurd (omega arith)
find-collect (suc fuel) j [] g more = ground (arith, lookup_below j [] tt tt)
find-collect (suc fuel) j (s ∷ q) g more =
    let st = next_streams-Settled s q g in
    let rest =
      find-collect fuel j (next_streams s q) st.merge (omega (arith, size-next_streams s q g)) in
    elim (Bool-cases (j =ˢ s.key)) [
      | inr other ↦ ground (arith, other, rest, st.same j other)
      | inl here ↦
          let same : j ≡ s.key = eq_of_lex j s.key (ground arith) in
          rw (same, lookup_top s q g.queue g.streams) (ground (arith, lex_refl s.key))
    ]
