-- ===== src/Engine/Merge/Settle.antt =====
-- `MergingIterator::next` on streams (src/vortex.cpp): every stream moves past the current key.
use vortex_db.Base.{
  ℕ, zero, suc, ◌+◌, ◌<◌, ◌≤◌, ◌≡◌, refl, ◌∙◌, false, List, [], ◌∷◌, length, if◌then◌else◌, lt, All,
  arith, inl, inr,
}
use vortex_db.Base.Words.{Bytes}
use vortex_db.Base.Order.{Ordering-cases, is_lt, lex, lex-flip, lex_trans, eq_of_lex, ◌=ˢ◌}
use vortex_db.Base.Map
use vortex_db.Base.Map.{Map, IsAbove, IsSorted}
use vortex_db.Vlog.{ValuePointer}
use vortex_db.Engine.Merge.{is_after}
use vortex_db.Engine.Merge.Streams.{
  Stream, IsBefore, IsStream, IsQueue, IsApart, push_stream, better, tagged, lookup,
  All-push_stream, push_stream-IsQueue, lookup-push_stream,
}

-- What a stream leaves in the queue when its iterator has moved on.
unfoldable pub push_rest : ℕ → Map ValuePointer → List Stream → List Stream
unfolding push_stream
push_rest i [] q = q
push_rest i ((k, p) ∷ m) q = push_stream (record { priority = i; key = k; ptr = p; rest = m }) q

unfoldable pub advance_streams : ℕ → Bytes → List Stream → List Stream
unfolding push_rest
advance_streams zero k q = q
advance_streams (suc fuel) k [] = []
advance_streams (suc fuel) k (s ∷ q) =
    let rest = advance_streams fuel k (push_rest s.priority s.rest q) in
    if s.key =ˢ k then rest else s ∷ q

-- How many streams stand on a key.
unfoldable pub count : Bytes → List Stream → ℕ
count k [] = 0
count k (s ∷ q) = (if s.key =ˢ k then 1 else 0) + count k q

unfoldable pub size : List Stream → ℕ
size [] = 0
size (s ∷ q) = suc (length s.rest) + size q

count-push_stream :
    (k : Bytes) (s : Stream) (q : List Stream)
    → count k (push_stream s q) ≡ (if s.key =ˢ k then 1 else 0) + count k q
unfolding count push_stream
count-push_stream k s [] = refl
count-push_stream k s (t ∷ q) = ground (arith, count-push_stream k s q)

size-push_stream :
    (s : Stream) (q : List Stream) → size (push_stream s q) ≡ suc (length s.rest) + size q
unfolding size push_stream
size-push_stream s [] = refl
size-push_stream s (t ∷ q) = ground (arith, size-push_stream s q)

pub size-push_rest :
    (i : ℕ) (m : Map ValuePointer) (q : List Stream) → size (push_rest i m q) ≡ length m + size q
unfolding push_rest
size-push_rest i [] q = omega arith
size-push_rest i ((k, p) ∷ m) q = size-push_stream _ q

-- The rest of a sorted stream is not on the stream's key.
pub count-push_rest :
    (k : Bytes) (i : ℕ) (m : Map ValuePointer) (q : List Stream)
    → IsAbove k m
    → count k (push_rest i m q) ≡ count k q
unfolding push_rest
count-push_rest k i [] q a = refl
count-push_rest k i ((j, p) ∷ m) q (a, _) =
    count-push_stream k _ q ∙ ground (arith, a, lex-flip j k)

pub count-le-length : (k : Bytes) (q : List Stream) → count k q ≤ length q
unfolding count
count-le-length k [] = omega arith
count-le-length k (s ∷ q) = ground (arith, count-le-length k q)

-- No stream is on a key below `k`.
abbrev pub IsFrom : Bytes → List Stream → Type 0
IsFrom k q = All (λ s. is_lt (lex s.key k) ≡ false) q

pub record IsMerge (q : List Stream) : Type 0 where
  pub queue : IsQueue q
  pub streams : All IsStream q

-- What `advance_streams` makes of a queue.
pub record Settled (k : Bytes) (q q' : List Stream) : Type 0 where
  pub merge : IsMerge q'
  pub above : All (λ s. lex k s.key ≡ lt) q'
  pub same : (j : Bytes) → (j =ˢ k) ≡ false → lookup j q' ≡ lookup j q
  pub fewer : size q' + count k q ≡ size q

pub IsApart-of_before : (s : Stream) (q : List Stream) → All (IsBefore s) q → IsApart s.priority q
IsApart-of_before s [] b = tt
IsApart-of_before s (t ∷ q) (b, bs) = (b.apart, IsApart-of_before s q bs)

pub push_rest-IsMerge :
    (i : ℕ) (m : Map ValuePointer) (q : List Stream)
    → IsApart i q
    → IsSorted m
    → IsMerge q
    → IsMerge (push_rest i m q)
unfolding push_rest
push_rest-IsMerge i [] q apart s g = g
push_rest-IsMerge i ((k, p) ∷ m) q apart (above, sorted) g = record {
  queue = push_stream-IsQueue _ q apart g.queue;
  streams = All-push_stream IsStream _ q (record { above = above; sorted = sorted }) g.streams;
}

pub lookup-push_rest :
    (j : Bytes) (i : ℕ) (m : Map ValuePointer) (q : List Stream)
    → IsApart i q
    → lookup j (push_rest i m q) ≡ better (tagged i (Map.find j m)) (lookup j q)
unfolding push_rest lookup Map.find
lookup-push_rest j i [] q apart = refl
lookup-push_rest j i ((k, p) ∷ m) q apart = lookup-push_stream j _ q apart

pub push_rest-IsFrom :
    (k : Bytes) (i : ℕ) (m : Map ValuePointer) (q : List Stream)
    → IsAbove k m
    → IsFrom k q
    → IsFrom k (push_rest i m q)
unfolding push_rest
push_rest-IsFrom k i [] q a f = f
push_rest-IsFrom k i ((j, p) ∷ m) q (a, _) f =
    All-push_stream (λ s. is_lt (lex s.key k) ≡ false) _ q (ground (arith, a, lex-flip j k)) f

lookup-rest :
    (j : Bytes) (s : Stream) (q : List Stream)
    → (j =ˢ s.key) ≡ false
    → IsApart s.priority q
    → lookup j (push_rest s.priority s.rest q) ≡ lookup j (s ∷ q)
unfolding lookup Map.find
lookup-rest j s q other apart = lookup-push_rest j s.priority s.rest q apart ∙ ground (arith, other)

-- The streams behind one that is above `k` are above it too.
above_of_before :
    (k : Bytes) (s : Stream) (q : List Stream)
    → lex k s.key ≡ lt
    → All (IsBefore s) q
    → All (λ t. lex k t.key ≡ lt) q
unfolding is_after
above_of_before k s [] h b = tt
above_of_before k s (t ∷ q) h (b, bs) = (
  elim (Ordering-cases (lex s.key t.key)) [
    | inl below ↦ lex_trans k s.key t.key h below
    | inr (inl same) ↦ rw (← eq_of_lex s.key t.key same) h
    | inr (inr above) ↦ absurd (ground (arith, b.order))
  ],
  above_of_before k s q h bs,
)

pub count_above : (k : Bytes) (q : List Stream) → All (λ s. lex k s.key ≡ lt) q → count k q ≡ 0
unfolding count
count_above k [] a = refl
count_above k (s ∷ q) (a, as_) = ground (arith, a, lex-flip s.key k, count_above k q as_)

pub advance_streams-Settled :
    (fuel : ℕ) (k : Bytes) (q : List Stream)
    → IsMerge q
    → IsFrom k q
    → count k q < fuel
    → Settled k q (advance_streams fuel k q)
unfolding advance_streams count size
advance_streams-Settled zero k q g f more = absurd (omega arith)
advance_streams-Settled (suc fuel) k [] g f more = record {
  merge = g;
  above = tt;
  same = λ j h. refl;
  fewer = omega arith;
}
advance_streams-Settled (suc fuel) k (s ∷ q) g (f, fs) more = elim (Ordering-cases (lex s.key k)) [
  | inl below ↦ absurd (ground (arith, f))
  | inr (inr above) ↦
      let over : lex k s.key ≡ lt = ground (arith, above, lex-flip s.key k) in
      let all_over : All (λ t. lex k t.key ≡ lt) (s ∷ q) =
        (over, above_of_before k s q over g.queue.0) in
      rw (above, advance_streams)
        (record {
          merge = g;
          above = all_over;
          same = λ j h. refl;
          fewer = ground (arith, above, count_above k q all_over.1);
        })
  | inr (inl same) ↦
      let e : s.key ≡ k = eq_of_lex s.key k same in
      let apart = IsApart-of_before s q g.queue.0 in
      let off : IsAbove k s.rest = rw (← e) g.streams.0.above in
      let counted = count-push_rest k s.priority s.rest q off in
      let st =
        advance_streams-Settled fuel k (push_rest s.priority s.rest q)
          (push_rest-IsMerge s.priority s.rest q apart g.streams.0.sorted
            (record { queue = g.queue.1; streams = g.streams.1 }))
          (push_rest-IsFrom k s.priority s.rest q off fs) (ground (arith, counted, same, more)) in
      rw (same, advance_streams)
        (record {
          merge = st.merge;
          above = st.above;
          same = λ j h. st.same j h ∙ lookup-rest j s q (rw e h) apart;
          fewer = ground (arith, st.fewer, counted, size-push_rest s.priority s.rest q, same);
        })
]
