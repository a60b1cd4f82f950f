-- ===== src/Cuckoo.antt =====
-- src/cuckoo.h and src/cuckoo.cpp: the cuckoo filter over keys. `rand()` is a parameter: `draw n`
-- is the value of the n-th call that an insertion makes.
pub mod Slots
pub mod Conserve
pub mod Valid
pub mod Membership
use vortex_db.Base.{
  ℕ, zero, suc, ◌+◌, ◌-◌, ◌*◌, ◌/◌, ◌%◌, ◌^◌, bit_xor, Bool, true, false, Option, none, some, List,
  [], ◌∷◌, ◌||◌, ◌==◌, if◌then◌else◌, get_or, set, replicate,
}
use vortex_db.Base.Words.{Bytes, u8, u32, u64}

abbrev pub bucket_size : ℕ
bucket_size = 4

abbrev pub max_kicks : ℕ
max_kicks = 500

pub record CuckooFilter : Type 0 where
  pub num_buckets : ℕ
  pub num_items : ℕ
  pub buckets : List (List ℕ)

-- The constructor; the default capacity is 10000.
unfoldable pub new : ℕ → CuckooFilter
new capacity = record {
  num_buckets = capacity;
  num_items = 0;
  buckets = replicate capacity (replicate bucket_size 0);
}

-- FNV-1a over the bytes of the string.
unfoldable pub hash_string_from : ℕ → Bytes → ℕ
hash_string_from hash [] = hash
hash_string_from hash (c ∷ str) = hash_string_from (u32 (bit_xor hash (u8 c) * 16777619)) str

unfoldable pub hash_string : Bytes → ℕ
unfolding hash_string_from
hash_string = hash_string_from 2166136261

unfoldable pub hash_int : ℕ → ℕ
hash_int val =
    let v₁ : ℕ = u32 (bit_xor (val / 2 ^ 16) val * 0x45d9f3b) in
    let v₂ : ℕ = u32 (bit_xor (v₁ / 2 ^ 16) v₁ * 0x45d9f3b) in bit_xor (v₂ / 2 ^ 16) v₂

unfoldable pub create_fingerprint : ℕ → ℕ
create_fingerprint hash = let fp : ℕ = u8 (hash % 255) in u8 (fp + 1)

unfoldable pub get_index : CuckooFilter → ℕ → ℕ
get_index f hash = hash % f.num_buckets

unfoldable pub get_alt_index : CuckooFilter → ℕ → ℕ → ℕ
get_alt_index f index fingerprint = bit_xor index (hash_int fingerprint) % f.num_buckets

-- What every operation computes first.
abbrev pub fingerprint : Bytes → ℕ
fingerprint item = create_fingerprint (hash_string item)

abbrev pub first_index : CuckooFilter → Bytes → ℕ
first_index f item = get_index f (hash_string item)

abbrev pub second_index : CuckooFilter → Bytes → ℕ
second_index f item = get_alt_index f (first_index f item) (fingerprint item)

abbrev pub bucket : CuckooFilter → ℕ → List ℕ
bucket f i = get_or f.buckets i []

-- The loop that looks for a zero slot and writes the fingerprint there.
unfoldable pub place : ℕ → List ℕ → Option (List ℕ)
place fp [] = none
place fp (s ∷ slots) =
    let rest = place fp slots in
    if s == 0 then some (fp ∷ slots) else elim rest [ none ↦ none | some r ↦ some (s ∷ r) ]

-- A bucket is written back, and an item counted.
unfoldable pub add_item : CuckooFilter → ℕ → List ℕ → CuckooFilter
add_item f i slots = record f { num_items = u64 (f.num_items + 1); buckets = set f.buckets i slots }

-- The rounds of the eviction loop; `rounds` are left, and `n` draws have been made.
unfoldable pub kick : (ℕ → ℕ) → ℕ → ℕ → CuckooFilter → ℕ → ℕ → Bool × CuckooFilter
kick draw zero n f current fp = (false, f)
kick draw (suc rounds) n f current fp =
    let slot : ℕ = draw n % bucket_size in
    let kicked : ℕ = get_or (bucket f current) slot 0 in
    let f' : CuckooFilter = record f {
      buckets = set f.buckets current (set (bucket f current) slot fp);
    } in
    let next : ℕ = get_alt_index f' current kicked in
    let more = kick draw rounds (n + 1) f' next kicked in
    elim (place kicked (bucket f' next)) [ some b ↦ (true, add_item f' next b) | none ↦ more ]

unfoldable pub insert : (ℕ → ℕ) → CuckooFilter → Bytes → Bool × CuckooFilter
unfolding kick place add_item
insert draw f item =
    let fp = fingerprint item in
    let i1 = first_index f item in
    let i2 = second_index f item in
    elim (place fp (bucket f i1)) [
      | some b ↦ (true, add_item f i1 b)
      | none ↦ elim (place fp (bucket f i2)) [
        | some b ↦ (true, add_item f i2 b)
        | none ↦ kick draw max_kicks 1 f (if draw 0 % 2 == 0 then i1 else i2) fp
      ]
    ]

-- The loop of `contains` runs over both buckets at once.
unfoldable pub either_has : ℕ → List ℕ → List ℕ → Bool
either_has fp (a ∷ rest_a) (b ∷ bs) = a == fp || b == fp || either_has fp rest_a bs
either_has fp [] bs = false
either_has fp (a ∷ rest_a) [] = false

unfoldable pub contains : CuckooFilter → Bytes → Bool
unfolding either_has
contains f item =
    either_has (fingerprint item) (bucket f (first_index f item)) (bucket f (second_index f item))

-- The loop of `remove`: in which bucket and at which slot the fingerprint stands first.
unfoldable pub locate : ℕ → ℕ → List ℕ → List ℕ → Option (Bool × ℕ)
locate fp i (a ∷ rest_a) (b ∷ bs) =
    let rest = locate fp (i + 1) rest_a bs in
    if a == fp then some (true, i) else if b == fp then some (false, i) else rest
locate fp i [] bs = none
locate fp i (a ∷ rest_a) [] = none

unfoldable pub clear_slot : CuckooFilter → ℕ → ℕ → CuckooFilter
clear_slot f i slot = record f {
  num_items = u64 (f.num_items + (2 ^ 64 - 1));
  buckets = set f.buckets i (set (bucket f i) slot 0);
}

unfoldable pub remove : CuckooFilter → Bytes → Bool × CuckooFilter
unfolding locate clear_slot
remove f item =
    let i1 = first_index f item in
    let i2 = second_index f item in
    elim (locate (fingerprint item) 0 (bucket f i1) (bucket f i2)) [
      | none ↦ (false, f)
      | some (in_first, slot) ↦ (true, clear_slot f (if in_first then i1 else i2) slot)
    ]
