-- ===== src/Engine/Merge/Nodes.antt =====
-- The nodes of `MergingIterator` (src/vortex.cpp) against streams of entries.
use vortex_db.Base.{ℕ, zero, suc, ◌<◌, ◌≡◌, refl, ◌∙◌, List, [], ◌∷◌, arith, inl, inr, Bool-cases}
use vortex_db.Base.Words.{Bytes}
use vortex_db.Base.Order.{eq_of_lex, ◌=ˢ◌}
use vortex_db.Base.Map.{Map, IsAbove}
use vortex_db.Files.{ok}
use vortex_db.Vlog.{ValuePointer}
use vortex_db.Engine.Merge.{InternalIterator, IterNode, key, is_after, push, push_back, advance}
use vortex_db.Engine.Merge.Views.{Views}
use vortex_db.Engine.Merge.Streams.{Stream, entries, comes_after, push_stream}
use vortex_db.Engine.Merge.Settle.{
  IsMerge, IsFrom, push_rest, advance_streams, count, push_rest-IsMerge, push_rest-IsFrom,
  count-push_rest, IsApart-of_before,
}

-- The node shows the stream.
abbrev pub IsNode : IterNode → Stream → Type 0
IsNode n s = (n.priority ≡ s.priority) × Views n.iter (entries s)

abbrev pub AreNodes : List IterNode → List Stream → Type 0
AreNodes [] [] = Unit
AreNodes [] (s ∷ q) = ⊥
AreNodes (n ∷ pq) [] = ⊥
AreNodes (n ∷ pq) (s ∷ q) = IsNode n s × AreNodes pq q

push-AreNodes :
    (n : IterNode) (s : Stream) (pq : List IterNode) (q : List Stream)
    → IsNode n s
    → AreNodes pq q
    → AreNodes (push n pq) (push_stream s q)
unfolding push push_stream
push-AreNodes n s [] [] h a = (h, tt)
push-AreNodes n s [] (t ∷ q) h a = absurd a
push-AreNodes n s (m ∷ pq) [] h a = absurd a
push-AreNodes n s (m ∷ pq) (t ∷ q) h (a, rest) =
    let same : is_after (key n.iter) n.priority (key m.iter) m.priority ≡ comes_after s t =
      rw (h.0, a.0, h.1.1, a.1.1) in
    elim (Bool-cases (comes_after s t)) [
      | inl later ↦ rw (same ∙ later, push, later, push_stream) (a, push-AreNodes n s pq q h rest)
      | inr sooner ↦ rw (same ∙ sooner, push, sooner, push_stream) (h, (a, rest))
    ]

pub push_back-AreNodes :
    (it : InternalIterator) (i h : ℕ) (m : Map ValuePointer) (pq : List IterNode) (q : List Stream)
    → i ≡ h
    → Views it m
    → AreNodes pq q
    → AreNodes (push_back it i pq) (push_rest h m q)
unfolding push_back push_rest
push_back-AreNodes it i h [] pq q e v a = rw v a
push_back-AreNodes it i h ((k, p) ∷ m) pq q e v a = rw v.0 (push-AreNodes _ _ pq q (e, v) a)

pub advance-AreNodes :
    (fuel : ℕ) (k : Bytes) (pq : List IterNode) (q : List Stream)
    → IsMerge q
    → IsFrom k q
    → count k q < fuel
    → AreNodes pq q
    → (pq' : List IterNode) × (advance fuel k pq ≡ ok pq') × AreNodes pq' (advance_streams fuel k q)
unfolding advance advance_streams count push_back
advance-AreNodes fuel k [] [] g f more a = ([], refl, nothing fuel)
  where
    nothing : (n : ℕ) → AreNodes [] (advance_streams n k [])
    nothing zero = tt
    nothing (suc n) = tt
advance-AreNodes fuel k [] (s ∷ q) g f more a = absurd a
advance-AreNodes fuel k (n ∷ pq) [] g f more a = absurd a
advance-AreNodes zero k (n ∷ pq) (s ∷ q) g f more a = absurd (omega arith)
advance-AreNodes (suc fuel) k (n ∷ pq) (s ∷ q) g (f, fs) more ((e, v), a) =
    let on : key n.iter ≡ s.key = v.1 in
    elim (Bool-cases (s.key =ˢ k)) [
      | inr other ↦ (n ∷ pq, ground (arith, on, other), rw (other, advance_streams) ((e, v), a))
      | inl here ↦
          let (it, run, rest) = v.3 in
          let same : s.key ≡ k = eq_of_lex s.key k (ground arith) in
          let off : IsAbove k s.rest = rw (← same) g.streams.0.above in
          let counted = count-push_rest k s.priority s.rest q off in
          let apart = IsApart-of_before s q g.queue.0 in
          let (pq', run', nodes) =
            advance-AreNodes fuel k (push_back it n.priority pq) (push_rest s.priority s.rest q)
              (push_rest-IsMerge s.priority s.rest q apart g.streams.0.sorted
                (record { queue = g.queue.1; streams = g.streams.1 }))
              (push_rest-IsFrom k s.priority s.rest q off fs) (ground (arith, counted, here, more))
              (push_back-AreNodes it n.priority s.priority s.rest pq q e rest a) in
          (pq', ground (arith, on, here, run, run'), rw (here, advance_streams) nodes)
    ]
