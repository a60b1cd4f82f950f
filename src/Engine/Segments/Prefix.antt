-- ===== src/Engine/Segments/Prefix.antt =====
-- What `get_prefix` answers (src/vortex.cpp).
use vortex_db.Base.{
  ℕ, ◌<◌, ◌≡◌, refl, ◌∙◌, false, Option, none, some, List, [], ◌∷◌, ◌++◌, arith, lt,
}
use vortex_db.Base.Words.{Bytes}
use vortex_db.Base.Order.{lex, is_lt}
use vortex_db.Base.Map
use vortex_db.Base.Map.{Map, IsSorted}
use vortex_db.Files.{ok, Disk}
use vortex_db.Vlog.{ValuePointer, VortexData}
use vortex_db.Engine.State.{VortexDb}
use vortex_db.Engine.Tables.{TableFile, newest}
use vortex_db.Engine.Merge.Sources.{weight}
use vortex_db.Engine.Range.{is_beyond}
use vortex_db.Engine.Range.Shown.{shown}
use vortex_db.Engine.Range.Sources.{sources}
use vortex_db.Engine.Segments.{after_prefix, get_range, get_prefix}
use vortex_db.Engine.Segments.Answered.{IsWhole, Leaves, get_range-exact}

-- The last byte, which `get_prefix` makes one greater, does not wrap.
abbrev pub IsBounded : Bytes → Type 0
IsBounded [] = Unit
IsBounded (c ∷ []) = c < 255
IsBounded (c ∷ c' ∷ p) = IsBounded (c' ∷ p)

below-after_prefix :
    (c : ℕ) (p s : Bytes) → IsBounded (c ∷ p) → lex (c ∷ (p ++ s)) (after_prefix (c ∷ p)) ≡ lt
unfolding lex after_prefix
below-after_prefix c [] s h = ground (arith, h)
below-after_prefix c (c' ∷ p) s h = ground (arith, below-after_prefix c' p s h)

is_beyond-below : (e k : Bytes) → lex k e ≡ lt → is_beyond e k ≡ false
unfolding is_beyond
is_beyond-below [] k h = refl
is_beyond-below (c ∷ e) k h = rw h refl

is_beyond-after_prefix : (p s : Bytes) → IsBounded p → is_beyond (after_prefix p) (p ++ s) ≡ false
unfolding is_beyond after_prefix
is_beyond-after_prefix [] s h = refl
is_beyond-after_prefix (c ∷ p) s h =
    is_beyond-below (after_prefix (c ∷ p)) (c ∷ (p ++ s)) (below-after_prefix c p s h)

shown_within :
    (load : ValuePointer → VortexData) (e j : Bytes) (o : Option ValuePointer)
    → is_beyond e j ≡ false
    → shown load e j o ≡ shown load [] j o
unfolding shown is_beyond
shown_within load e j none h = refl
shown_within load e j (some p) h = rw h refl

lower-prefix : (p s : Bytes) → is_lt (lex (p ++ s) p) ≡ false
unfolding lex
lower-prefix [] [] = refl
lower-prefix [] (c ∷ s) = refl
lower-prefix (c ∷ p) s = ground (arith, lower-prefix p s)

-- `get_prefix` finds every key that begins with the prefix: it answers what the memtable, or else the
-- newest table with the key, points to, in the buffer or on disk, unless that is a tombstone, and
-- nothing for a key that is nowhere; its answers are in the order of the keys. It leaves an open
-- writer, whose log has the bytes that it had, and the same memtable. The last byte of the prefix is
-- less than 255, the database and its files fit together, and there is one round more than the
-- sources have entries.
pub get_prefix_complete :
    (load : ValuePointer → VortexData) (fuel : ℕ) (prefix : Bytes) (files : List TableFile)
    (db : VortexDb) (d : Disk)
    → IsBounded prefix
    → IsWhole load files db d
    → weight (sources prefix db.memtable files) < fuel
    → (results : Map Bytes) × (db' : VortexDb) × (d' : Disk) × (get_prefix fuel prefix db d
        ≡ ok (results, db', d'))
      × IsSorted results
      × ((s : Bytes)
          → Map.find (prefix ++ s) results
            ≡ shown load [] (prefix ++ s) (elim (Map.find (prefix ++ s) db.memtable) [
              | some p ↦ some p
              | none ↦ newest (prefix ++ s) files
            ]))
      × Leaves db d db' d'
unfolding get_prefix get_range
get_prefix_complete load fuel prefix files db d small h more =
    let (results, db', d', run, sorted, finds, leaves) =
      get_range-exact load fuel prefix (after_prefix prefix) files db d h more in
    (
      results,
      db',
      d',
      run,
      sorted,
      λ s.
          finds (prefix ++ s) (lower-prefix prefix s)
          ∙ shown_within load (after_prefix prefix) (prefix ++ s) _
              (is_beyond-after_prefix prefix s small),
      leaves,
    )
