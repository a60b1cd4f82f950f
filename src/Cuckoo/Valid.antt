-- ===== src/Cuckoo/Valid.antt =====
-- The filter's invariant, and a removal (src/cuckoo.cpp).
use vortex_db.Base.{
  ℕ, suc, ◌+◌, ◌*◌, ◌^◌, ◌≤◌, ◌<◌, ◌≡◌, refl, ap, inl, inr, Bool, true, false, none, some, List, [],
  ◌∷◌, ◌==◌, if◌then◌else◌, get_or, length, All, arith, Bool-cases, Option-cases, length-replicate,
}
use vortex_db.Base.Words.{Bytes}
use vortex_db.Cuckoo.{
  CuckooFilter, bucket, new, fingerprint, first_index, second_index, hash_string, either_has,
  insert, contains, locate, clear_slot, remove,
}
use vortex_db.Cuckoo.Slots.{tally, total, total-replicate, IsBucket, replicate-IsBucket}
use vortex_db.Cuckoo.Conserve.{
  IsTable, insert-Conserves, create_fingerprint_range, get_index-lt, get_alt_index-lt,
  evict-IsTable, evict-weight, old-IsBucket,
}

-- One for each slot in use.
abbrev pub in_use : ℕ → ℕ
in_use s = if s == 0 then 0 else 1

-- The vector has its shape, and `num_items` is the number of slots in use.
pub record IsValid (f : CuckooFilter) : Type 0 where
  pub table : IsTable f
  pub counted : total in_use f.buckets ≡ f.num_items
  pub roomy : f.num_buckets * 4 < 2 ^ 64

tally-in_use-le : (b : List ℕ) → tally in_use b ≤ length b
unfolding tally
tally-in_use-le [] = omega arith
tally-in_use-le (s ∷ b) = ground (arith, tally-in_use-le b)

total-in_use-le : (bs : List (List ℕ)) → All IsBucket bs → total in_use bs ≤ length bs * 4
unfolding total
total-in_use-le [] a = omega arith
total-in_use-le (b ∷ bs) (a, rest) =
    omega (arith, total-in_use-le bs rest, tally-in_use-le b, a.size)

-- The constructor's filter is valid.
pub new-IsValid : (capacity : ℕ) → 0 < capacity → capacity * 4 < 2 ^ 64 → IsValid (new capacity)
unfolding new
new-IsValid capacity pos roomy = record {
  table = record {
    positive = pos;
    width = length-replicate capacity _;
    shape = replicate-IsBucket capacity;
  };
  counted = total-replicate in_use capacity 4 refl;
  roomy = roomy;
}

-- An insertion into a valid filter leaves a valid filter, whether or not it succeeds: the vector of
-- buckets has its shape, and `num_items` is the number of slots in use.
pub insert-IsValid :
    (draw : ℕ → ℕ) (f : CuckooFilter) (item : Bytes) → IsValid f → IsValid (insert draw f item).1
insert-IsValid draw f item v =
    let (lost, c) = insert-Conserves draw f item v.table in
    let (pos, fits) = create_fingerprint_range (hash_string item) in
    let bound = total-in_use-le (insert draw f item).1.buckets c.table.shape in
    record {
      table = c.table;
      counted = ground (
        arith,
        c.weight in_use refl,
        c.items,
        c.table.width,
        c.frame,
        c.real,
        v.counted,
        v.roomy,
        v.table.width,
      );
      roomy = omega (arith, c.frame, v.roomy);
    }

-- Where `locate` finds the fingerprint.
locate-found :
    (fp i : ℕ) (a b : List ℕ) {w : Bool} {s : ℕ}
    → locate fp i a b ≡ some (w, s)
    → (n : ℕ) × (s ≡ i + n)
      × (n < length (if w then a else b))
      × (get_or (if w then a else b) n 0 ≡ fp)
unfolding locate
locate-found fp i [] b e = cc
locate-found fp i (x ∷ a) [] e = cc
locate-found fp i (x ∷ a) (y ∷ b) {w} {s} e = elim (Bool-cases (x == fp)) [
  | inl here ↦ (0, ground arith, ground arith, ground arith)
  | inr not_first ↦ elim (Bool-cases (y == fp)) [
    | inl here ↦ (0, ground arith, ground arith, ground arith)
    | inr not_second ↦
        let (n, at, small, value) = locate-found fp (i + 1) a b {w = w} {s = s} (ground arith) in
        (suc n, omega arith, ground arith, ground arith)
  ]
]

locate-either_has :
    (fp i : ℕ) (a b : List ℕ)
    → (elim (locate fp i a b) [ none ↦ false | some x ↦ true ]) ≡ either_has fp a b
unfolding locate either_has
locate-either_has fp i [] b = refl
locate-either_has fp i (x ∷ a) [] = refl
locate-either_has fp i (x ∷ a) (y ∷ b) = ground (arith, locate-either_has fp (i + 1) a b)

-- The answer of `remove` is that of `contains`.
pub remove-contains : (f : CuckooFilter) (item : Bytes) → (remove f item).0 ≡ contains f item
unfolding remove contains
remove-contains f item = ground (
  arith,
  locate-either_has (fingerprint item) 0 (bucket f (first_index f item))
      (bucket f (second_index f item)),
)

-- The run `r` took out `fp` once, or changed nothing.
pub record Removes (fp : ℕ) (f : CuckooFilter) (r : Bool × CuckooFilter) : Type 0 where
  pub valid : IsValid r.1
  pub frame : r.1.num_buckets ≡ f.num_buckets
  pub items : r.1.num_items + (if r.0 then 1 else 0) ≡ f.num_items
  pub weight :
      (w : ℕ → ℕ) → w 0 ≡ 0 → total w r.1.buckets + (if r.0 then w fp else 0) ≡ total w f.buckets
  pub kept : r.0 ≡ false → r.1 ≡ f

clear_slot-Removes :
    (f : CuckooFilter) (v : IsValid f) (i slot fp : ℕ)
    → i < f.num_buckets
    → slot < 4
    → 0 < fp
    → get_or (bucket f i) slot 0 ≡ fp
    → Removes fp f (true, clear_slot f i slot)
unfolding clear_slot
clear_slot-Removes f v i slot fp lt small pos e =
    let t = evict-IsTable f v.table i lt slot 0 (omega arith) in
    let bound = total-in_use-le f.buckets v.table.shape in
    let freed = evict-weight f v.table i lt in_use slot 0 small in
    let used : in_use (get_or (bucket f i) slot 0) ≡ 1 = rw e (ground arith) in
    record {
      valid = record {
        table = record { positive = t.positive; width = t.width; shape = t.shape };
        counted = omega (arith, freed, used, bound, v.counted, v.roomy, v.table.width);
        roomy = v.roomy;
      };
      frame = refl;
      items = omega (arith, freed, used, bound, v.counted, v.roomy, v.table.width);
      weight = λ w z. omega (arith, evict-weight f v.table i lt w slot 0 small, ap w e);
      kept = λ c. cc;
    }

-- A removal from a valid filter leaves a valid filter. If it reports success, it took the item's
-- fingerprint out exactly once, by any weight of fingerprints that is 0 for a free slot, and
-- `num_items` is one less; otherwise the filter is the same.
pub remove-Removes :
    (f : CuckooFilter) (item : Bytes) → IsValid f → Removes (fingerprint item) f (remove f item)
unfolding remove
remove-Removes f item v =
    let fp = fingerprint item in
    let i1 = first_index f item in
    let i2 = second_index f item in
    let (pos, fits) = create_fingerprint_range (hash_string item) in
    let lt1 = get_index-lt f (hash_string item) v.table.positive in
    let lt2 = get_alt_index-lt f i1 fp v.table.positive in
    let o1 = old-IsBucket f v.table i1 lt1 in
    let o2 = old-IsBucket f v.table i2 lt2 in
    elim (Option-cases (locate fp 0 (bucket f i1) (bucket f i2))) [
      | inl e ↦
          rw (e, remove)
            (record {
              valid = v;
              frame = refl;
              items = omega arith;
              weight = λ w z. omega arith;
              kept = λ c. refl;
            })
      | inr ((true, slot), e) ↦
          let (n, at, small, value) = locate-found fp 0 (bucket f i1) (bucket f i2) e in
          let same : n ≡ slot = omega arith in
          rw (e, remove)
            (clear_slot-Removes f v i1 slot fp lt1 (omega (arith, o1.size)) pos (rw same at value))
      | inr ((false, slot), e) ↦
          let (n, at, small, value) = locate-found fp 0 (bucket f i1) (bucket f i2) e in
          let same : n ≡ slot = omega arith in
          rw (e, remove)
            (clear_slot-Removes f v i2 slot fp lt2 (omega (arith, o2.size)) pos (rw same at value))
    ]
