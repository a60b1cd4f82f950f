-- ===== src/Vlog/Cache.antt =====
-- The value cache of `VLogReader` (src/vlog.cpp).
use vortex_db.Base.{
  ℕ, zero, suc, ◌-◌, ◌<◌, ◌≤◌, ◌≡◌, refl, subst, true, some, List, [], ◌∷◌, ◌++◌, leb, length,
  arith, Bool-cases, inl, inr, All, Option-cases, length-append, drop,
}
use vortex_db.Base.Words.{Bytes, le_bytes}
use vortex_db.Base.Map.{find}
use vortex_db.Files.{ok, Disk}
use vortex_db.Vlog.{ValuePointer, VortexData, to_tag, same_place}
use vortex_db.Vlog.Writer.{segment, contents}
use vortex_db.Vlog.Reader.{
  CacheEntry, VLogReader, max_cache_size, has_handle, get_handle, find_cached, pop_back, push_front,
  read_value,
}
use vortex_db.Vlog.Points.{Points, load_value-Points, Points-unique}

-- The bytes on disk of the segment to which a pointer refers.
abbrev pub target : Bytes → ValuePointer → Disk → Bytes
target base p d = contents (segment base p.file_id) d

abbrev pub IsCached : Bytes → Disk → CacheEntry → Type 0
IsCached base d e = Points (target base e.ptr d) e.ptr e.cached

-- What the cache holds is what is on disk, and it does not outgrow its bound.
pub record IsCoherent (r : VLogReader) (d : Disk) : Type 0 where
  pub entries : All (IsCached r.base_path d) r.lru_list
  pub bounded : length r.lru_list ≤ max_cache_size

pub nonempty_of_drop : (n : ℕ) (content : Bytes) → 0 < length (drop n content) → 0 < length content
nonempty_of_drop zero content h = h
nonempty_of_drop (suc n) [] h = h
nonempty_of_drop (suc n) (x ∷ content) h = omega arith

Points-nonempty :
    (content : Bytes) (p : ValuePointer) (x : VortexData) → Points content p x → 0 < length content
Points-nonempty content p x h = nonempty_of_drop h.front content (
    rw h.ahead (
      omega
        (arith, length-append (le_bytes 4 (length x.value)) (to_tag x.type ∷ (x.value ++ h.back)))))

pub get_handle-open :
    (id : ℕ) (r : VLogReader) (d : Disk)
    → 0 < length (contents (segment r.base_path id) d)
    → (r' : VLogReader) × (get_handle id r d ≡ (some (contents (segment r.base_path id) d), r'))
      × (r'.lru_list ≡ r.lru_list)
      × (r'.base_path ≡ r.base_path)
unfolding get_handle contents
get_handle-open id r d h = elim (Bool-cases (has_handle id r.handle_cache)) [
  | inl cached ↦ (r, rw (cached, get_handle), refl, refl)
  | inr new ↦ elim (Option-cases (find (segment r.base_path id) d)) [
    | inl missing ↦ absurd (ground arith)
    | inr (bs, found) ↦
        (record r { handle_cache = id ∷ r.handle_cache }, ground (arith, new, found), refl, refl)
  ]
]

find_cached-All {κ} :
    (P : CacheEntry → Type κ) (ptr : ValuePointer) (es : List CacheEntry) (e : CacheEntry)
    (rest : List CacheEntry)
    → find_cached ptr es ≡ some (e, rest)
    → All P es
    → (same_place e.ptr ptr ≡ true) × All P (e ∷ rest) × (length es ≡ suc (length rest))
unfolding find_cached
find_cached-All P ptr [] e rest h a = cc
find_cached-All P ptr (c ∷ es) e rest h a = elim (Bool-cases (same_place c.ptr ptr)) [
  | inl here ↦
      let e' : c ≡ e = ground arith in
      let rest' : es ≡ rest = ground arith in rw (← e', ← rest') (here, a, refl)
  | inr there ↦ elim (Option-cases (find_cached ptr es)) [
    | inl absent ↦ absurd (ground arith)
    | inr ((f, others), found) ↦
        let (same, all, len) = find_cached-All P ptr es f others found a.1 in
        let e' : f ≡ e = ground arith in
        let rest' : c ∷ others ≡ rest = ground arith in
        rw (← e', ← rest') (same, (all.0, (a.0, all.1)), omega (arith, len))
  ]
]

pop_back-All {κ} :
    (P : CacheEntry → Type κ) (es : List CacheEntry)
    → All P es
    → All P (pop_back es) × (length (pop_back es) ≡ length es - 1)
unfolding pop_back
pop_back-All P [] a = (tt, omega arith)
pop_back-All P (e ∷ []) a = (tt, omega arith)
pop_back-All P (e ∷ e' ∷ es) (a, rest) =
    let (all, len) = pop_back-All P (e' ∷ es) rest in ((a, all), omega (arith, len))

push_front-All :
    (P : CacheEntry → Type 0) (e : CacheEntry) (es : List CacheEntry)
    → P e
    → All P es
    → length es ≤ max_cache_size
    → All P (push_front e es) × (length (push_front e es) ≤ max_cache_size)
unfolding push_front
push_front-All P e es h a small = elim (Bool-cases (leb max_cache_size (length es))) [
  | inl full ↦
      let (rest, len) = pop_back-All P es a in rw (full, push_front) ((h, rest), omega (arith, len))
  | inr roomy ↦ rw (roomy, push_front) ((h, a), ground arith)
]

-- A pointer with the same place has the same value.
cached-value :
    (base : Bytes) (d : Disk) (e : CacheEntry) (p : ValuePointer) (x : VortexData)
    → IsCached base d e
    → same_place e.ptr p ≡ true
    → Points (target base p d) p x
    → e.cached ≡ x
unfolding same_place
cached-value base d e p x c same h =
    let id : e.ptr.file_id ≡ p.file_id = ground arith in
    let place : e.ptr.offset ≡ p.offset = ground arith in
    let c' : Points (target base p d) e.ptr e.cached =
      subst (λ i. Points (contents (segment base i) d) e.ptr e.cached) id c in
    Points-unique (target base p d) e.ptr p e.cached x c' h place

-- If a pointer leads to a value in the segment on disk, and the cache is coherent with the disk
-- and has at most 2000 entries, `read_value` returns that value, whether or not the cache has it,
-- and the cache is coherent and within that bound afterwards.
pub read_value-Points :
    (p : ValuePointer) (x : VortexData) (r : VLogReader) (d : Disk)
    → IsCoherent r d
    → Points (target r.base_path p d) p x
    → (r' : VLogReader) × (read_value p r d ≡ ok (x, r'))
      × IsCoherent r' d
      × (r'.base_path ≡ r.base_path)
unfolding read_value
read_value-Points p x r d co h = elim (Option-cases (find_cached p r.lru_list)) [
  | inr ((e, rest), found) ↦
      let (same, all, len) =
        find_cached-All (IsCached r.base_path d) p r.lru_list e rest found co.entries in
      let value : e.cached ≡ x = cached-value r.base_path d e p x all.0 same h in
      (
        record r { lru_list = e ∷ rest },
        rw (found, read_value, value),
        record { entries = all; bounded = omega (arith, len, co.bounded) },
        refl,
      )
  | inl missing ↦
      let (r₁, handle, list, base) =
        get_handle-open p.file_id r d (Points-nonempty (target r.base_path p d) p x h) in
      let e : CacheEntry = record { ptr = p; cached = x } in
      let (all, len) =
        push_front-All (IsCached r.base_path d) e r.lru_list h co.entries co.bounded in
      (
        record r₁ { lru_list = push_front e r₁.lru_list },
        ground (arith, missing, handle, load_value-Points (target r.base_path p d) p x h),
        rw (list, base) (record { entries = all; bounded = len }),
        base,
      )
]
