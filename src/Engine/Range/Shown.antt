-- ===== src/Engine/Range/Shown.antt =====
-- The results of `get_range_internal` (src/vortex.cpp) as a map, and the entries from which they come.
use vortex_db.Base.{
  ℕ, zero, suc, ◌+◌, ◌≡◌, refl, true, Option, none, some, List, [], ◌∷◌, if◌then◌else◌, lt, All,
  arith, inl, inr, Bool-cases,
}
use vortex_db.Base.Words.{Bytes}
use vortex_db.Base.Order.{Ordering-cases, lex, lex_refl, lex-flip, lex_trans, eq_of_lex, ◌=ˢ◌}
use vortex_db.Base.Map
use vortex_db.Base.Map.{Map, IsAbove, IsSorted}
use vortex_db.Vlog.{ValuePointer, VortexData}
use vortex_db.Engine.Scan.{is_tombstone}
use vortex_db.Engine.Merge.Streams.{Stream, entries, All-push_stream}
use vortex_db.Engine.Merge.Settle.{push_rest, advance_streams}
use vortex_db.Engine.Merge.Collect.{collect}
use vortex_db.Engine.Merge.Sources.{seek_streams}
use vortex_db.Engine.Range.{is_beyond, add_result}
use vortex_db.Engine.Range.Walk.{visible}

-- A property of entries that all sources have passes to what the walk collects.
module _ (P : Bytes × ValuePointer → Type 0) where
  abbrev pub AllEntries : List Stream → Type 0
  AllEntries q = All (λ s. All P (entries s)) q

  push_rest-AllEntries :
      (i : ℕ) (m : Map ValuePointer) (q : List Stream)
      → All P m
      → AllEntries q
      → AllEntries (push_rest i m q)
  unfolding push_rest
  push_rest-AllEntries i [] q h a = a
  push_rest-AllEntries i ((k, p) ∷ m) q h a = All-push_stream (λ s. All P (entries s)) _ q h a

  advance_streams-AllEntries :
      (fuel : ℕ) (k : Bytes) (q : List Stream)
      → AllEntries q
      → AllEntries (advance_streams fuel k q)
  unfolding advance_streams
  advance_streams-AllEntries zero k q a = a
  advance_streams-AllEntries (suc fuel) k [] a = tt
  advance_streams-AllEntries (suc fuel) k (s ∷ q) (a, rest) = elim (Bool-cases (s.key =ˢ k)) [
    | inr other ↦ rw (other, advance_streams) (a, rest)
    | inl here ↦
        rw (here, advance_streams)
          (advance_streams-AllEntries fuel k (push_rest s.priority s.rest q)
            (push_rest-AllEntries s.priority s.rest q a.1 rest))
  ]

  collect-All : (fuel : ℕ) (q : List Stream) → AllEntries q → All P (collect fuel q)
  unfolding collect
  collect-All zero q a = tt
  collect-All (suc fuel) [] a = tt
  collect-All (suc fuel) (s ∷ q) (a, rest) =
      (a.0, collect-All fuel _ (advance_streams-AllEntries _ s.key (s ∷ q) (a, rest)))

  seek_streams-AllEntries :
      (i : ℕ) (ms : List (Map ValuePointer)) (q : List Stream)
      → All (All P) ms
      → AllEntries q
      → AllEntries (seek_streams i ms q)
  unfolding seek_streams
  seek_streams-AllEntries i [] q h a = a
  seek_streams-AllEntries i (m ∷ ms) q (h, hs) a =
      seek_streams-AllEntries (i + 1) ms (push_rest i m q) hs (push_rest-AllEntries i m q h a)

  pub collected-All :
      (fuel : ℕ) (ms : List (Map ValuePointer))
      → All (All P) ms
      → All P (collect fuel (seek_streams 0 ms []))
  collected-All fuel ms h = collect-All fuel _ (seek_streams-AllEntries 0 ms [] h tt)

-- The result for one key, by the pointer that is found for it.
abbrev pub live : VortexData → Option Bytes
live x = if is_tombstone x.type then none else some x.value

unfoldable pub shown :
    (ValuePointer → VortexData) → Bytes → Bytes → Option ValuePointer → Option Bytes
shown load end_key j none = none
shown load end_key j (some p) = if is_beyond end_key j then none else live (load p)

visible-IsAbove :
    (load : ValuePointer → VortexData) (end_key k : Bytes) (m : Map ValuePointer)
    → IsAbove k m
    → IsAbove k (visible load end_key m)
unfolding visible add_result
visible-IsAbove load end_key k [] a = tt
visible-IsAbove load end_key k ((j, p) ∷ m) (a, rest) =
    ground (arith, a, visible-IsAbove load end_key k m rest)

pub visible-IsSorted :
    (load : ValuePointer → VortexData) (end_key : Bytes) (m : Map ValuePointer)
    → IsSorted m
    → IsSorted (visible load end_key m)
unfolding visible add_result
visible-IsSorted load end_key [] s = tt
visible-IsSorted load end_key ((j, p) ∷ m) (a, s) =
    ground (arith, visible-IsAbove load end_key j m a, visible-IsSorted load end_key m s)

-- A key behind one that is beyond the end is beyond it too.
is_beyond_trans :
    (end_key k j : Bytes) → is_beyond end_key k ≡ true → lex k j ≡ lt → is_beyond end_key j ≡ true
unfolding is_beyond
is_beyond_trans [] k j h l = h
is_beyond_trans (c ∷ end_key) k j h l =
    let up : lex (c ∷ end_key) k ≡ lt = ground (arith, h, lex-flip k (c ∷ end_key)) in
    ground (arith, lex_trans (c ∷ end_key) k j up l, lex-flip j (c ∷ end_key))

shown_beyond :
    (load : ValuePointer → VortexData) (end_key j : Bytes) (o : Option ValuePointer)
    → is_beyond end_key j ≡ true
    → shown load end_key j o ≡ none
unfolding shown
shown_beyond load end_key j none h = refl
shown_beyond load end_key j (some p) h = rw h

pub find-visible :
    (load : ValuePointer → VortexData) (end_key j : Bytes) (m : Map ValuePointer)
    → IsSorted m
    → Map.find j (visible load end_key m) ≡ shown load end_key j (Map.find j m)
unfolding visible Map.find add_result shown
find-visible load end_key j [] s = refl
find-visible load end_key j ((k, p) ∷ m) (a, s) =
    let rest = find-visible load end_key j m s in
    elim (Ordering-cases (lex j k)) [
      | inl below ↦
          let missing = Map.find_below j m (Map.IsAbove-trans j k m below a) in
          ground (arith, below, rest, missing)
      | inr (inl same) ↦
          let e : j ≡ k = eq_of_lex j k same in
          let missing : Map.find j m ≡ none = rw e (Map.find_below k m a) in
          rw (same, Map.find) (ground (arith, e, lex_refl k, rest, missing))
      | inr (inr above) ↦
          let over = is_beyond_trans end_key k j in
          let out = shown_beyond load end_key j (Map.find j m) in
          ground (arith, above, lex-flip j k, rest, over, out)
    ]
