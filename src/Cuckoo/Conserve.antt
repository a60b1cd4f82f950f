-- ===== src/Cuckoo/Conserve.antt =====
-- What an insertion and a removal do to the stored fingerprints (src/cuckoo.cpp).
use vortex_db.Base.{
  ℕ, zero, suc, ◌+◌, ◌%◌, ◌<◌, ◌≡◌, refl, inl, inr, Bool, true, some, List, ◌==◌, if◌then◌else◌,
  get_or, set, length, All, arith, Bool-cases, Option-cases, length-set,
}
use vortex_db.Base.Words.{Bytes, u64}
use vortex_db.Cuckoo.{
  CuckooFilter, bucket, create_fingerprint, fingerprint, get_index, get_alt_index, first_index,
  second_index, hash_string, place, add_item, kick, insert,
}
use vortex_db.Cuckoo.Slots.{
  total, tally-set, total-set, IsBucket, All-set, All-get_or, place-Placed, IsFull, place-IsFull,
  get_or-pos, All-set-IsBucket, All-get-IsBucket,
}

-- The vector of buckets is as the constructor made it.
pub record IsTable (f : CuckooFilter) : Type 0 where
  pub positive : 0 < f.num_buckets
  pub width : length f.buckets ≡ f.num_buckets
  pub shape : All IsBucket f.buckets

-- The run `r` on `f` stored `fp`. If it failed, it dropped `lost` in its place.
pub record Conserves (fp lost : ℕ) (f : CuckooFilter) (r : Bool × CuckooFilter) : Type 0 where
  pub table : IsTable r.1
  pub frame : r.1.num_buckets ≡ f.num_buckets
  pub items : r.1.num_items ≡ (if r.0 then u64 (f.num_items + 1) else f.num_items)
  pub real : 0 < lost
  pub weight :
      (w : ℕ → ℕ)
      → w 0 ≡ 0
      → total w r.1.buckets + (if r.0 then 0 else w lost) ≡ total w f.buckets + w fp

pub get_index-lt : (f : CuckooFilter) (h : ℕ) → 0 < f.num_buckets → get_index f h < f.num_buckets
unfolding get_index
get_index-lt f h p = omega arith

pub get_alt_index-lt :
    (f : CuckooFilter) (i fp : ℕ) → 0 < f.num_buckets → get_alt_index f i fp < f.num_buckets
unfolding get_alt_index
get_alt_index-lt f i fp p = omega arith

-- A fingerprint is a byte and never the mark of an empty slot.
pub create_fingerprint_range :
    (hash : ℕ) → (0 < create_fingerprint hash) × (create_fingerprint hash < 256)
unfolding create_fingerprint
create_fingerprint_range hash = omega arith

-- One bucket is written over.
module _ (f : CuckooFilter) (t : IsTable f) (i : ℕ) (lt : i < f.num_buckets) where
  pub old-IsBucket : IsBucket (bucket f i)
  old-IsBucket = All-get-IsBucket f.buckets i (omega (arith, t.width)) t.shape

  pub set-IsTable :
      (b : List ℕ) (n : ℕ)
      → IsBucket b
      → IsTable (record f { num_items = n; buckets = set f.buckets i b })
  set-IsTable b n ok = record {
    positive = t.positive;
    width = omega (arith, length-set f.buckets i b, t.width);
    shape = All-set-IsBucket f.buckets i b ok t.shape;
  }

  -- `place` succeeded, and its bucket is written back.
  pub add_item-Conserves :
      (fp lost : ℕ) (b : List ℕ)
      → 0 < lost
      → fp < 256
      → place fp (bucket f i) ≡ some b
      → Conserves fp lost f (true, add_item f i b)
  unfolding add_item
  add_item-Conserves fp lost b pos fits e =
      let p = place-Placed fp (bucket f i) b e in
      let o = old-IsBucket in
      record {
        table =
            set-IsTable b _
              (record { size = omega (arith, p.size, o.size); bytes = p.bytes o.bytes fits });
        frame = refl;
        items = refl;
        real = pos;
        weight =
            λ w z. omega (arith, p.weight w z, total-set w f.buckets i b (omega (arith, t.width)));
      }

  -- A round of the eviction loop: one slot is written over.
  pub evict-IsTable :
      (slot fp : ℕ)
      → fp < 256
      → IsTable (record f { buckets = set f.buckets i (set (bucket f i) slot fp) })
  evict-IsTable slot fp fits =
      let o = old-IsBucket in
      set-IsTable _ _ (record {
        size = omega (arith, length-set (bucket f i) slot fp, o.size);
        bytes = All-set (bucket f i) slot fp fits o.bytes;
      })

  pub evict-weight :
      (w : ℕ → ℕ) (slot fp : ℕ)
      → slot < 4
      → total w (set f.buckets i (set (bucket f i) slot fp)) + w (get_or (bucket f i) slot 0)
        ≡ total w f.buckets + w fp
  evict-weight w slot fp h =
      let o = old-IsBucket in
      omega (
        arith,
        o.size,
        tally-set w (bucket f i) slot fp (omega (arith, o.size)),
        total-set w f.buckets i (set (bucket f i) slot fp) (omega (arith, t.width)),
      )

-- A round that evicts `kicked` and goes on with it, followed by the rest of the loop.
evict-Conserves :
    (f : CuckooFilter) (t : IsTable f) (i slot fp lost : ℕ) {r : Bool × CuckooFilter}
    → i < f.num_buckets
    → slot < 4
    → Conserves
        (get_or (bucket f i) slot 0)
        lost
        (record f { buckets = set f.buckets i (set (bucket f i) slot fp) })
        r
    → Conserves fp lost f r
evict-Conserves f t i slot fp lost lt small c = record {
  table = c.table;
  frame = c.frame;
  items = c.items;
  real = c.real;
  weight = λ w z. omega (arith, c.weight w z, evict-weight f t i lt w slot fp small);
}

kick-Conserves :
    (draw : ℕ → ℕ) (rounds n : ℕ) (f : CuckooFilter) (current fp : ℕ)
    → IsTable f
    → current < f.num_buckets
    → 0 < fp
    → fp < 256
    → IsFull (bucket f current)
    → (lost : ℕ) × Conserves fp lost f (kick draw rounds n f current fp)
unfolding kick
kick-Conserves draw zero n f current fp t lt pos fits full =
    (fp, record { table = t; frame = refl; items = refl; real = pos; weight = λ w z. refl })
kick-Conserves draw (suc rounds) n f current fp t lt pos fits full =
    let slot : ℕ = draw n % 4 in
    let small : slot < 4 = omega arith in
    let o = old-IsBucket f t current lt in
    let kicked : ℕ = get_or (bucket f current) slot 0 in
    let f' : CuckooFilter = record f {
      buckets = set f.buckets current (set (bucket f current) slot fp);
    } in
    let t' : IsTable f' = evict-IsTable f t current lt slot fp fits in
    let next : ℕ = get_alt_index f' current kicked in
    let near : next < f'.num_buckets = get_alt_index-lt f' current kicked t.positive in
    let pos' : 0 < kicked = get_or-pos (bucket f current) slot full (omega (arith, o.size)) in
    let fits' : kicked < 256 = All-get_or (bucket f current) slot o.bytes in
    elim (Option-cases (place kicked (bucket f' next))) [
      | inr (b, e) ↦ (
        fp,
        rw (e, kick)
            (evict-Conserves f t current slot fp fp lt small
              (add_item-Conserves f' t' next near kicked fp b pos fits' e)),
      )
      | inl e ↦
          let (lost, c) =
            kick-Conserves draw rounds (n + 1) f' next kicked t' near pos' fits'
              (place-IsFull kicked (bucket f' next) e) in
          (lost, rw (e, kick) (evict-Conserves f t current slot fp lost lt small c))
    ]

-- For a filter whose vector of buckets is as the constructor made it, `insert` keeps the vector
-- so, whatever `rand` draws, and stores the item's fingerprint. On success the filter holds what
-- it held and the fingerprint, and `num_items` is one more, modulo 2^64. On failure `num_items`
-- stays, and the filter holds what it held and the fingerprint less one that it drops, which is
-- not zero. What a filter holds is measured by any weight of fingerprints that is 0 for a free
-- slot.
pub insert-Conserves :
    (draw : ℕ → ℕ) (f : CuckooFilter) (item : Bytes)
    → IsTable f
    → (lost : ℕ) × Conserves (fingerprint item) lost f (insert draw f item)
unfolding insert
insert-Conserves draw f item t =
    let fp = fingerprint item in
    let (pos, fits) = create_fingerprint_range (hash_string item) in
    let i1 = first_index f item in
    let i2 = second_index f item in
    let lt1 = get_index-lt f (hash_string item) t.positive in
    let lt2 = get_alt_index-lt f i1 fp t.positive in
    elim (Option-cases (place fp (bucket f i1))) [
      | inr (b, e) ↦ (fp, rw (e, insert) (add_item-Conserves f t i1 lt1 fp fp b pos fits e))
      | inl e1 ↦ elim (Option-cases (place fp (bucket f i2))) [
        | inr (b, e) ↦ (fp, rw (e1, insert, e) (add_item-Conserves f t i2 lt2 fp fp b pos fits e))
        | inl e2 ↦ elim (Bool-cases (draw 0 % 2 == 0)) [
          | inl d ↦
              rw (e1, insert, e2, d)
                (kick-Conserves draw 500 1 f i1 fp t lt1 pos fits (place-IsFull fp _ e1))
          | inr d ↦
              rw (e1, insert, e2, d)
                (kick-Conserves draw 500 1 f i2 fp t lt2 pos fits (place-IsFull fp _ e2))
        ]
      ]
    ]
