-- ===== src/Base/Map.antt =====
-- `std::map<std::string, V>`: the entries in the order of their keys.
use vortex_db.Base.Words.{Bytes}
use vortex_db.Base.Tests.{if◌then◌else◌}
use vortex_db.Base.Order.{lex, ◌=ˢ◌, lex_refl, eq_of_lex, lex-flip, lex_trans}
use Prim.Native.Nat.Ordering.{lt, eq, gt}
use mathlib.Core.Path.{◌≡◌, refl}
use mathlib.Core.Option.{Option, none, some}
use mathlib.Core.List.{List, [], ◌∷◌, ◌++◌}
use native.Mathlib.Omega.{arith}

abbrev pub Map {ℓ} : Type ℓ → Type ℓ
Map V = List (Bytes × V)

module _ {ℓ} {V : Type ℓ} where
  unfoldable pub find : Bytes → Map V → Option V
  find k [] = none
  find k ((j, v) ∷ m) = elim (lex k j) [ eq ↦ some v | _ ↦ find k m ]

  -- `m[k] = v`
  unfoldable pub insert : Bytes → V → Map V → Map V
  insert k v [] = (k, v) ∷ []
  insert k v ((j, w) ∷ m) =
      let rest = insert k v m in
      elim (lex k j) [ lt ↦ (k, v) ∷ (j, w) ∷ m | eq ↦ (j, v) ∷ m | gt ↦ (j, w) ∷ rest ]

  unfoldable pub erase : Bytes → Map V → Map V
  erase k [] = []
  erase k ((j, w) ∷ m) = let rest = erase k m in elim (lex k j) [ eq ↦ m | _ ↦ (j, w) ∷ rest ]

  -- Every key of the map is above `k`.
  abbrev pub IsAbove : Bytes → Map V → Type 0
  IsAbove k [] = Unit
  IsAbove k ((j, v) ∷ m) = (lex k j ≡ lt) × IsAbove k m

  abbrev pub IsSorted : Map V → Type 0
  IsSorted [] = Unit
  IsSorted ((j, v) ∷ m) = IsAbove j m × IsSorted m

  pub find-insert :
      (k j : Bytes) (v : V) (m : Map V)
      → find j (insert k v m) ≡ (if j =ˢ k then some v else find j m)
  unfolding find insert
  find-insert k j v [] = ground arith
  find-insert k j v ((i, w) ∷ m) =
      ground (arith, find-insert k j v m, eq_of_lex k i, eq_of_lex j i, eq_of_lex j k)

  pub IsAbove-trans : (j k : Bytes) (m : Map V) → lex j k ≡ lt → IsAbove k m → IsAbove j m
  IsAbove-trans j k [] h a = tt
  IsAbove-trans j k ((i, v) ∷ m) h (a, above) = (lex_trans j k i h a, IsAbove-trans j k m h above)

  insert-IsAbove :
      (i k : Bytes) (v : V) (m : Map V) → lex i k ≡ lt → IsAbove i m → IsAbove i (insert k v m)
  unfolding insert
  insert-IsAbove i k v [] h a = (h, tt)
  insert-IsAbove i k v ((j, w) ∷ m) h (a, above) = ground (arith, insert-IsAbove i k v m h above)

  pub insert-IsSorted : (k : Bytes) (v : V) (m : Map V) → IsSorted m → IsSorted (insert k v m)
  unfolding insert
  insert-IsSorted k v [] s = (tt, tt)
  insert-IsSorted k v ((j, w) ∷ m) (a, s) =
      ground
        (arith, insert-IsSorted k v m s, lex-flip k j, insert-IsAbove j k v m, IsAbove-trans k j m)

  erase-IsAbove : (i k : Bytes) (m : Map V) → IsAbove i m → IsAbove i (erase k m)
  unfolding erase
  erase-IsAbove i k [] a = tt
  erase-IsAbove i k ((j, w) ∷ m) (a, above) = ground (arith, erase-IsAbove i k m above)

  pub erase-IsSorted : (k : Bytes) (m : Map V) → IsSorted m → IsSorted (erase k m)
  unfolding erase
  erase-IsSorted k [] s = tt
  erase-IsSorted k ((j, w) ∷ m) (a, s) = ground (arith, erase-IsSorted k m s, erase-IsAbove j k m a)

  -- A key below every key of the map is not in it.
  pub find_below : (k : Bytes) (m : Map V) → IsAbove k m → find k m ≡ none
  unfolding find
  find_below k [] a = refl
  find_below k ((j, v) ∷ m) (a, above) = rw (a, find) (find_below k m above)

  pub find-erase :
      (k j : Bytes) (m : Map V)
      → IsSorted m
      → find j (erase k m) ≡ (if j =ˢ k then none else find j m)
  unfolding find erase
  find-erase k j [] s = ground arith
  find-erase k j ((i, w) ∷ m) (a, s) = ground (
    arith,
    find-erase k j m s,
    eq_of_lex k i,
    eq_of_lex j i,
    eq_of_lex j k,
    lex_refl k,
    find_below i m a,
  )

module _ {ℓ} {V : Type ℓ} where
  -- `m.lower_bound(k)`: the entries from the first whose key is not below `k`.
  unfoldable pub lower_bound : Bytes → Map V → Map V
  lower_bound k [] = []
  lower_bound k ((j, v) ∷ m) =
      let rest = lower_bound k m in elim (lex j k) [ lt ↦ rest | _ ↦ (j, v) ∷ m ]

  -- Every key of the map is below `k`.
  abbrev pub IsBelow : Bytes → Map V → Type 0
  IsBelow k [] = Unit
  IsBelow k ((j, v) ∷ m) = (lex j k ≡ lt) × IsBelow k m

  pub lower_bound-append :
      (k : Bytes) (front m : Map V) → IsBelow k front → lower_bound k (front ++ m) ≡ lower_bound k m
  unfolding lower_bound
  lower_bound-append k [] m b = refl
  lower_bound-append k ((j, v) ∷ front) m (b, below) =
      ground (arith, lower_bound-append k front m below)

  -- A lookup in a sorted map is a test of the lower bound's first entry.
  pub find-lower_bound :
      (k : Bytes) (m : Map V)
      → IsSorted m
      → find k m
        ≡ (elim (lower_bound k m) [ [] ↦ none | e ∷ _ ↦ if e.0 =ˢ k then some e.1 else none ])
  unfolding find lower_bound
  find-lower_bound k [] s = refl
  find-lower_bound k ((j, v) ∷ m) (a, s) =
      ground (arith, find-lower_bound k m s, lex-flip k j, find_below k m, IsAbove-trans k j m)

  IsAbove-append :
      (j k : Bytes) (v : V) (front m : Map V) → IsAbove j (front ++ (k, v) ∷ m) → lex j k ≡ lt
  IsAbove-append j k v [] m a = a.0
  IsAbove-append j k v (e ∷ front) m a = IsAbove-append j k v front m a.1

  -- In a sorted map the entries before an entry are below its key.
  pub IsBelow-before :
      (k : Bytes) (v : V) (front m : Map V) → IsSorted (front ++ (k, v) ∷ m) → IsBelow k front
  IsBelow-before k v [] m s = tt
  IsBelow-before k v ((j, w) ∷ front) m (a, s) =
      (IsAbove-append j k v front m a, IsBelow-before k v front m s)

  pub IsBelow-trans : (j k : Bytes) (m : Map V) → lex j k ≡ lt → IsBelow j m → IsBelow k m
  IsBelow-trans j k [] h b = tt
  IsBelow-trans j k ((i, v) ∷ m) h (b, below) = (lex_trans i j k b h, IsBelow-trans j k m h below)

  pub IsSorted-after : (front m : Map V) → IsSorted (front ++ m) → IsSorted m
  IsSorted-after [] m s = s
  IsSorted-after (e ∷ front) m (a, s) = IsSorted-after front m s
