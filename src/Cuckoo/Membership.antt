-- ===== src/Cuckoo/Membership.antt =====
-- What `contains` answers after `insert` (src/cuckoo.cpp), where no eviction takes place.
use vortex_db.Base.{
  ℕ, ◌<◌, ◌≡◌, refl, ◌≢◌, inl, inr, Bool, true, false, none, some, List, [], ◌∷◌, ◌==◌, ◌||◌,
  length, arith, Option-cases, get_or-set_self, get_or-set_ne,
}
use native.Mathlib.Decide.{ℕ_discrete}
use vortex_db.Base.Words.{Bytes}
use vortex_db.Cuckoo.{
  CuckooFilter, bucket, fingerprint, first_index, second_index, get_index, get_alt_index,
  hash_string, either_has, place, add_item, insert, contains,
}
use vortex_db.Cuckoo.Conserve.{
  IsTable, add_item-Conserves, create_fingerprint_range, get_index-lt, get_alt_index-lt,
  old-IsBucket,
}

unfoldable pub has : ℕ → List ℕ → Bool
has fp [] = false
has fp (s ∷ b) = s == fp || has fp b

either_has-has :
    (fp : ℕ) (a b : List ℕ) → length a ≡ length b → either_has fp a b ≡ (has fp a || has fp b)
unfolding either_has has
either_has-has fp [] [] h = refl
either_has-has fp [] (y ∷ b) h = absurd (omega arith)
either_has-has fp (x ∷ a) [] h = absurd (omega arith)
either_has-has fp (x ∷ a) (y ∷ b) h = ground (arith, either_has-has fp a b)

has-place_self : (fp : ℕ) (b r : List ℕ) → place fp b ≡ some r → has fp r ≡ true
unfolding has place
has-place_self fp [] r h = cc
has-place_self fp (s ∷ b) r h = elim (Option-cases (place fp b)) [
  | inl e ↦ ground arith
  | inr (r', e) ↦ ground (arith, has-place_self fp b r' e)
]

has-place :
    (q fp : ℕ) (b r : List ℕ) → 0 < q → has q b ≡ true → place fp b ≡ some r → has q r ≡ true
unfolding has place
has-place q fp [] r p m h = cc
has-place q fp (s ∷ b) r p m h = elim (Option-cases (place fp b)) [
  | inl e ↦ ground arith
  | inr (r', e) ↦ ground (arith, has-place q fp b r' p)
]

place-free : (fp : ℕ) (b : List ℕ) → has 0 b ≡ true → place fp b ≢ none
unfolding has place
place-free fp [] h = cc
place-free fp (s ∷ b) h = λ e. ground (arith, place-free fp b)

-- The bucket where one looks, after the bucket `i` was filled.
has-add_item :
    (f : CuckooFilter) (t : IsTable f) (i j q fp : ℕ) (b : List ℕ)
    → i < f.num_buckets
    → 0 < q
    → place fp (bucket f i) ≡ some b
    → has q (bucket f j) ≡ true
    → has q (bucket (add_item f i b) j) ≡ true
unfolding add_item
has-add_item f t i j q fp b lt pos e h = elim (ℕ_discrete i j) [
  | yes p ↦
      rw (← p, get_or-set_self f.buckets i b [] (omega (arith, t.width)))
        (has-place q fp (bucket f i) b pos (rw p h) e)
  | no n ↦ rw (get_or-set_ne f.buckets i j b [] n) h
]

contains-has :
    (f : CuckooFilter) (q : Bytes)
    → IsTable f
    → contains f q ≡ (
        has (fingerprint q) (bucket f (first_index f q))
        || has (fingerprint q) (bucket f (second_index f q)))
unfolding contains
contains-has f q t =
    let o1 = old-IsBucket f t _ (get_index-lt f (hash_string q) t.positive) in
    let o2 = old-IsBucket f t _ (get_alt_index-lt f (first_index f q) (fingerprint q) t.positive) in
    either_has-has (fingerprint q) _ _ (omega (arith, o1.size, o2.size))

or_mono :
    (a b a' b' : Bool)
    → (a ≡ true → a' ≡ true)
    → (b ≡ true → b' ≡ true)
    → (a || b) ≡ true
    → (a' || b') ≡ true
or_mono a b a' b' h k e = ground arith

-- What a successful placement in bucket `i` makes of `contains`.
module _ (f : CuckooFilter) (t : IsTable f) (i : ℕ) (lt : i < f.num_buckets) (fp : ℕ)
    (fits : fp < 256) (b : List ℕ) (e : place fp (bucket f i) ≡ some b) where
  new-IsTable : IsTable (add_item f i b)
  new-IsTable = (add_item-Conserves f t i lt fp 1 b (omega arith) fits e).table

  add_item-contains : (q : Bytes) → contains f q ≡ true → contains (add_item f i b) q ≡ true
  unfolding add_item get_index get_alt_index
  add_item-contains q h =
      let (pos, _) = create_fingerprint_range (hash_string q) in
      rw (contains-has (add_item f i b) q new-IsTable) (
        or_mono _ _ _ _ (has-add_item f t i (first_index f q) (fingerprint q) fp b lt pos e)
          (has-add_item f t i (second_index f q) (fingerprint q) fp b lt pos e)
          (rw (contains-has f q t) at h))

-- For a filter whose vector of buckets is as the constructor made it: if one of the two buckets of
-- an item has a free slot, `insert` reports success, and `contains` then answers true for the item
-- and for every key for which it did so before.
pub contains-insert :
    (draw : ℕ → ℕ) (f : CuckooFilter) (item : Bytes)
    → IsTable f
    → (has 0 (bucket f (first_index f item)) || has 0 (bucket f (second_index f item))) ≡ true
    → ((insert draw f item).0 ≡ true)
      × (contains (insert draw f item).1 item ≡ true)
      × ((q : Bytes) → contains f q ≡ true → contains (insert draw f item).1 q ≡ true)
unfolding insert get_index get_alt_index add_item
contains-insert draw f item t free =
    let fp = fingerprint item in
    let i1 = first_index f item in
    let i2 = second_index f item in
    let (pos, fits) = create_fingerprint_range (hash_string item) in
    let lt1 = get_index-lt f (hash_string item) t.positive in
    let lt2 = get_alt_index-lt f i1 fp t.positive in
    elim (Option-cases (place fp (bucket f i1))) [
      | inr (b, e) ↦
          let here = get_or-set_self f.buckets i1 b [] (omega (arith, t.width)) in
          rw (e, insert)
            (
              refl,
              rw (
                contains-has (add_item f i1 b) item (new-IsTable f t i1 lt1 fp fits b e),
                here,
                has-place_self fp (bucket f i1) b e,
              ),
              add_item-contains f t i1 lt1 fp fits b e,
            )
      | inl e1 ↦ elim (Option-cases (place fp (bucket f i2))) [
        | inl e2 ↦ absurd (ground (arith, place-free fp (bucket f i1), place-free fp (bucket f i2)))
        | inr (b, e) ↦
            let here = get_or-set_self f.buckets i2 b [] (omega (arith, t.width)) in
            rw (e1, insert, e)
              (
                refl,
                rw
                    (
                      contains-has (add_item f i2 b) item (new-IsTable f t i2 lt2 fp fits b e),
                      here,
                      has-place_self fp (bucket f i2) b e,
                    )
                    (ground arith),
                add_item-contains f t i2 lt2 fp fits b e,
              )
      ]
    ]
