-- ===== src/Engine/Segments/Discovered.antt =====
-- What `discover_vlog_segments` finds (src/vortex.cpp).
use vortex_db.Base.{
  ℕ, ◌^◌, ◌<◌, ◌≤◌, ◌≡◌, refl, sym, ap, subst, ◌∙◌, true, some, List, [], ◌∷◌, ◌++◌, length, drop,
  leb, drop-append, append_assoc, arith, ◌⊎◌, inl, inr, Bool-cases, Option-cases, All,
}
use vortex_db.Base.Words.{Bytes}
use vortex_db.Base.Order.{lex, Ordering-cases, eq_of_lex}
use vortex_db.Base.Map
use vortex_db.Base.Decimal.{to_string}
use vortex_db.Files.{Disk}
use vortex_db.Text.{codes, begins_with, stoul}
use vortex_db.Text.Numbers.{stoul-to_string}
use vortex_db.Vlog.Writer.{segment}
use vortex_db.Engine.Segments.{sort_into, sort, segment_ids, discover_vlog_segments, last_or}

abbrev pub IsIn : ℕ → List ℕ → Type 0
IsIn i [] = ⊥
IsIn i (j ∷ ids) = (i ≡ j) ⊎ IsIn i ids

begins_with-append : (t s : Bytes) → begins_with t (t ++ s) ≡ true
unfolding begins_with
begins_with-append [] s = refl
begins_with-append (c ∷ t) s = ground (arith, begins_with-append t s)

module _ (prefix : Bytes) where
  segment_ids-cons :
      (id : ℕ) (path b : Bytes) (d : Disk)
      → IsIn id (segment_ids prefix d)
      → IsIn id (segment_ids prefix ((path, b) ∷ d))
  unfolding segment_ids
  segment_ids-cons id path b d h = elim (Bool-cases (begins_with prefix path)) [
    | inr f ↦ rw (f, segment_ids) h
    | inl t ↦ elim (Option-cases (stoul (drop (length prefix) path))) [
      | inl e ↦ rw (t, e, segment_ids) h
      | inr (j, e) ↦ rw (t, e, segment_ids) (inr h)
    ]
  ]

  segment_ids-listed :
      (id : ℕ) (bs : Bytes) (d : Disk)
      → id < 2 ^ 32
      → Map.find (prefix ++ to_string id) d ≡ some bs
      → IsIn id (segment_ids prefix d)
  unfolding Map.find segment_ids
  segment_ids-listed id bs [] small e = absurd (cc e)
  segment_ids-listed id bs ((path, b) ∷ d) small e =
      elim (Ordering-cases (lex (prefix ++ to_string id) path)) [
        | inr (inl same) ↦
            let name : prefix ++ to_string id ≡ path =
              eq_of_lex (prefix ++ to_string id) path same in
            subst (λ p. IsIn id (segment_ids prefix ((p, b) ∷ d))) name
              (rw
                (
                  begins_with-append prefix (to_string id),
                  drop-append prefix (to_string id) (length prefix) refl,
                  stoul-to_string id small,
                )
                (inl (omega arith)))
        | inl below ↦
            let e' : Map.find (prefix ++ to_string id) d ≡ some bs = ground (arith, below, e) in
            segment_ids-cons id path b d (segment_ids-listed id bs d small e')
        | inr (inr above) ↦
            let e' : Map.find (prefix ++ to_string id) d ≡ some bs = ground (arith, above, e) in
            segment_ids-cons id path b d (segment_ids-listed id bs d small e')
      ]

  segment_ids-small : (d : Disk) → All (λ i. i < 2 ^ 32) (segment_ids prefix d)
  unfolding segment_ids
  segment_ids-small [] = tt
  segment_ids-small ((path, b) ∷ d) = elim (Bool-cases (begins_with prefix path)) [
    | inr f ↦ rw (f, segment_ids) (segment_ids-small d)
    | inl t ↦ elim (Option-cases (stoul (drop (length prefix) path))) [
      | inl e ↦ rw (t, e, segment_ids) (segment_ids-small d)
      | inr (j, e) ↦ rw (t, e, segment_ids) (omega arith, segment_ids-small d)
    ]
  ]

-- Each number is at most those behind it.
abbrev pub IsOrdered : List ℕ → Type 0
IsOrdered [] = Unit
IsOrdered (i ∷ ids) = All (λ j. i ≤ j) ids × IsOrdered ids

sort_into-All : (P : ℕ → Type 0) (i : ℕ) (ids : List ℕ) → P i → All P ids → All P (sort_into i ids)
sort_into-All P i [] p a = (p, tt)
sort_into-All P i (j ∷ ids) p (q, a) = elim (Bool-cases (leb i j)) [
  | inl below ↦ rw below (p, (q, a))
  | inr above ↦ rw above (q, sort_into-All P i ids p a)
]

sort-All : (P : ℕ → Type 0) (ids : List ℕ) → All P ids → All P (sort ids)
sort-All P [] a = tt
sort-All P (i ∷ ids) (p, a) = sort_into-All P i (sort ids) p (sort-All P ids a)

All-weaken : (i j : ℕ) (ids : List ℕ) → i ≤ j → All (λ k. j ≤ k) ids → All (λ k. i ≤ k) ids
All-weaken i j [] h a = tt
All-weaken i j (k ∷ ids) h (p, a) = (omega (arith, h, p), All-weaken i j ids h a)

sort_into-IsOrdered : (i : ℕ) (ids : List ℕ) → IsOrdered ids → IsOrdered (sort_into i ids)
sort_into-IsOrdered i [] o = (tt, tt)
sort_into-IsOrdered i (j ∷ ids) (a, o) = elim (Bool-cases (leb i j)) [
  | inl below ↦
      let le : i ≤ j = ground (arith, below) in rw below ((le, All-weaken i j ids le a), (a, o))
  | inr above ↦
      let le : j ≤ i = ground (arith, above) in
      rw above (sort_into-All (λ k. j ≤ k) i ids le a, sort_into-IsOrdered i ids o)
]

sort-IsOrdered : (ids : List ℕ) → IsOrdered (sort ids)
sort-IsOrdered [] = tt
sort-IsOrdered (i ∷ ids) = sort_into-IsOrdered i (sort ids) (sort-IsOrdered ids)

sort_into-IsIn : (i j : ℕ) (ids : List ℕ) → (i ≡ j) ⊎ IsIn i ids → IsIn i (sort_into j ids)
sort_into-IsIn i j [] h = h
sort_into-IsIn i j (k ∷ ids) h = elim (Bool-cases (leb j k)) [
  | inl below ↦ rw below h
  | inr above ↦ rw above (elim h [
    | inl e ↦ inr (sort_into-IsIn i j ids (inl e))
    | inr rest ↦ elim rest [ inl e ↦ inl e | inr h' ↦ inr (sort_into-IsIn i j ids (inr h')) ]
  ])
]

sort-IsIn : (i : ℕ) (ids : List ℕ) → IsIn i ids → IsIn i (sort ids)
sort-IsIn i [] h = absurd h
sort-IsIn i (j ∷ ids) (inl e) = sort_into-IsIn i j (sort ids) (inl e)
sort-IsIn i (j ∷ ids) (inr h) = sort_into-IsIn i j (sort ids) (inr (sort-IsIn i ids h))

last_or-least :
    (n i : ℕ) (ids : List ℕ) → n ≡ i → All (λ j. i ≤ j) ids → IsOrdered ids → i ≤ last_or n ids
last_or-least n i [] e a o = omega (arith, e)
last_or-least n i (j ∷ ids) e (p, a) (b, o) = omega (arith, p, last_or-least j j ids refl b o)

last_or-greatest : (n i : ℕ) (ids : List ℕ) → IsOrdered ids → IsIn i ids → i ≤ last_or n ids
last_or-greatest n i [] o h = absurd h
last_or-greatest n i (j ∷ ids) (a, o) (inl e) = omega (arith, e, last_or-least j j ids refl a o)
last_or-greatest n i (j ∷ ids) (a, o) (inr h) = last_or-greatest j i ids o h

last_or-All : (P : ℕ → Type 0) (n : ℕ) (ids : List ℕ) → P n → All P ids → P (last_or n ids)
last_or-All P n [] p a = p
last_or-All P n (j ∷ ids) p (q, a) = last_or-All P j ids q a

prefix-segment :
    (db_name : Bytes) (id : ℕ)
    → (db_name ++ codes ".vlog.") ++ to_string id ≡ segment (db_name ++ codes ".vlog") id
unfolding segment
prefix-segment db_name id =
    append_assoc db_name (codes ".vlog.") (to_string id)
    ∙ sym (append_assoc db_name (codes ".vlog") (b'.' ∷ to_string id))

-- The numbers of the segments come in order, each fits in a `uint32_t`, and the number of every segment
-- of the database that the directory has is among them, if it fits in one.
pub discover_vlog_segments-IsOrdered :
    (db_name : Bytes) (d : Disk)
    → IsOrdered (discover_vlog_segments db_name d)
      × All (λ i. i < 2 ^ 32) (discover_vlog_segments db_name d)
      × ((id : ℕ) (bs : Bytes)
          → id < 2 ^ 32
          → Map.find (segment (db_name ++ codes ".vlog") id) d ≡ some bs
          → IsIn id (discover_vlog_segments db_name d))
unfolding discover_vlog_segments
discover_vlog_segments-IsOrdered db_name d =
    let prefix = db_name ++ codes ".vlog." in
    (
      sort-IsOrdered (segment_ids prefix d),
      sort-All (λ i. i < 2 ^ 32) (segment_ids prefix d) (segment_ids-small prefix d),
      λ id bs small e. sort-IsIn id (segment_ids prefix d) (
          segment_ids-listed prefix id bs d small
            (ap (λ n. Map.find n d) (prefix-segment db_name id) ∙ e)),
    )

-- The last of them is at least the number of any segment that the directory has, and fits too.
pub last-discovered :
    (db_name : Bytes) (d : Disk)
    → (last_or 0 (discover_vlog_segments db_name d) < 2 ^ 32)
      × ((id : ℕ) (bs : Bytes)
          → id < 2 ^ 32
          → Map.find (segment (db_name ++ codes ".vlog") id) d ≡ some bs
          → id ≤ last_or 0 (discover_vlog_segments db_name d))
last-discovered db_name d =
    let (ordered, small, listed) = discover_vlog_segments-IsOrdered db_name d in
    (
      last_or-All (λ i. i < 2 ^ 32) 0 (discover_vlog_segments db_name d) (omega arith) small,
      λ id bs fits e.
          last_or-greatest 0 id (discover_vlog_segments db_name d) ordered (listed id bs fits e),
    )
