-- ===== src/Engine/Range/Walk.antt =====
-- The loop of `get_range_internal` (src/vortex.cpp) on the entries that the merged walk visits.
use vortex_db.Base.{
  ℕ, zero, suc, ◌<◌, ◌≡◌, refl, ◌∙◌, List, [], ◌∷◌, length, if◌then◌else◌, All, arith, inl, inr,
  Bool-cases,
}
use mathlib.Core.Path.{ap₂}
use vortex_db.Base.Words.{Bytes}
use vortex_db.Base.Map.{Map}
use vortex_db.Files.{ok, Disk}
use vortex_db.Vlog.{ValuePointer, VortexData}
use vortex_db.Vlog.Reader.{VLogReader}
use vortex_db.Vlog.Points.{Points}
use vortex_db.Vlog.Cache.{IsCoherent, target, read_value-Points}
use vortex_db.Engine.Merge.{IterNode, advance, merge_next}
use vortex_db.Engine.Merge.Streams.{Stream, entries}
use vortex_db.Engine.Merge.Settle.{IsMerge, count-le-length, size}
use vortex_db.Engine.Merge.Collect.{
  collect, next_streams, next_streams-Settled, size-next_streams, first-IsFrom,
}
use vortex_db.Engine.Merge.Nodes.{AreNodes, advance-AreNodes}
use vortex_db.Engine.Range.{is_beyond, add_result, range_from}

-- `load` gives for each pointer of the entries the value on disk.
abbrev pub IsLoaded : (ValuePointer → VortexData) → Bytes → Disk → Map ValuePointer → Type 0
IsLoaded load base d m = All (λ e. Points (target base e.1 d) e.1 (load e.1)) m

-- The results for entries in order.
unfoldable pub visible : (ValuePointer → VortexData) → Bytes → Map ValuePointer → Map Bytes
visible load end_key [] = []
visible load end_key ((k, p) ∷ m) =
    let rest = visible load end_key m in
    if is_beyond end_key k then [] else add_result k (load p) rest

AreNodes-length : (pq : List IterNode) (q : List Stream) → AreNodes pq q → length pq ≡ length q
AreNodes-length [] [] a = refl
AreNodes-length [] (s ∷ q) a = absurd a
AreNodes-length (n ∷ pq) [] a = absurd a
AreNodes-length (n ∷ pq) (s ∷ q) (_, a) = omega (arith, AreNodes-length pq q a)

merge_next-AreNodes :
    (n : IterNode) (pq : List IterNode) (s : Stream) (q : List Stream)
    → IsMerge (s ∷ q)
    → AreNodes (n ∷ pq) (s ∷ q)
    → (pq' : List IterNode) × (merge_next (n ∷ pq) ≡ ok pq') × AreNodes pq' (next_streams s q)
unfolding merge_next
merge_next-AreNodes n pq s q g a =
    let (pq', run, nodes) =
      advance-AreNodes (suc (suc (length q))) s.key (n ∷ pq) (s ∷ q) g (first-IsFrom s q g)
        (omega (arith, count-le-length s.key (s ∷ q))) a in
    let same =
      ap₂ (λ (f : ℕ) (k : Bytes). advance (suc (suc f)) k (n ∷ pq)) (AreNodes-length pq q a.1)
        a.0.1.1 in
    (pq', same ∙ run, nodes)

-- All entries of the streams are loaded.
abbrev pub AreLoaded : (ValuePointer → VortexData) → Bytes → Disk → List Stream → Type 0
AreLoaded load base d q = All (λ s. IsLoaded load base d (entries s)) q

-- The loop reads the values of the entries that the walk on streams collects.
pub range_from-visible :
    (load : ValuePointer → VortexData) (fuel : ℕ) (end_key : Bytes) (pq : List IterNode)
    (q : List Stream) (r : VLogReader) (d : Disk)
    → IsMerge q
    → size q < fuel
    → IsLoaded load r.base_path d (collect fuel q)
    → AreNodes pq q
    → IsCoherent r d
    → (r' : VLogReader) × (range_from fuel end_key pq r d
        ≡ ok (visible load end_key (collect fuel q), r'))
      × IsCoherent r' d
unfolding range_from visible collect
range_from-visible load zero end_key pq q r d g more l a co = absurd (omega arith)
range_from-visible load (suc fuel) end_key [] [] r d g more l a co = (r, refl, co)
range_from-visible load (suc fuel) end_key [] (s ∷ q) r d g more l a co = absurd a
range_from-visible load (suc fuel) end_key (n ∷ pq) [] r d g more l a co = absurd a
range_from-visible load (suc fuel) end_key (n ∷ pq) (s ∷ q) r d g more (l, ls) a co =
    elim (Bool-cases (is_beyond end_key s.key)) [
      | inl past_end ↦ (r, rw (a.0.1.1) (ground (arith, past_end)), co)
      | inr inside ↦
          let (r₁, read, co₁, base) = read_value-Points s.ptr (load s.ptr) r d co l in
          let (pq', moved, nodes) = merge_next-AreNodes n pq s q g a in
          let (r₂, run, co₂) =
            range_from-visible load fuel end_key pq' (next_streams s q) r₁ d
              (next_streams-Settled s q g).merge (omega (arith, size-next_streams s q g))
              (rw base ls) nodes co₁ in
          (r₂, rw (a.0.1.1, a.0.1.2) (ground (arith, inside, read, moved, run)), co₂)
    ]
