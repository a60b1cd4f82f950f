-- ===== src/Engine/Range/Exact.antt =====
-- `get_range_internal` (src/vortex.cpp) on the keys that are not below its start.
use vortex_db.Base.{
  ℕ, ◌<◌, ◌≡◌, refl, ap, ◌∙◌, false, none, some, List, [], ◌∷◌, ◌++◌, lt, arith, inl, inr,
}
use vortex_db.Base.Words.{Bytes}
use vortex_db.Base.Order.{Ordering-cases, lex, lex_trans, eq_of_lex, is_lt}
use vortex_db.Base.Map
use vortex_db.Base.Map.{Map, IsSorted, lower_bound}
use vortex_db.Files.{ok, Disk}
use vortex_db.Vlog.{ValuePointer, VortexData}
use vortex_db.Vlog.Reader.{VLogReader}
use vortex_db.SsTable.Seek.{last_entry}
use vortex_db.SsTable.Find.{last_entry-below}
use vortex_db.Engine.State.{VortexDb}
use vortex_db.Engine.Tables.{TableFile, newest}
use vortex_db.Engine.Merge.Views.{from_target}
use vortex_db.Engine.Merge.Sources.{weight, first}
use vortex_db.Engine.Range.{get_range_internal}
use vortex_db.Engine.Range.Shown.{shown}
use vortex_db.Engine.Range.Sources.{newest_files, table_sources, sources, IsServing}
use vortex_db.Engine.Range.Answer.{get_range_internal-sources}

module _ (start j : Bytes) (up : is_lt (lex j start) ≡ false) where
  find-lower_bound_from : (m : Map ValuePointer) → Map.find j (lower_bound start m) ≡ Map.find j m
  unfolding lower_bound Map.find
  find-lower_bound_from [] = refl
  find-lower_bound_from ((k, p) ∷ m) = elim (Ordering-cases (lex k start)) [
    | inr (inl same) ↦ rw (same, lower_bound)
    | inr (inr above) ↦ rw (above, lower_bound)
    | inl below ↦ elim (Ordering-cases (lex j k)) [
      | inl less ↦ absurd (ground (arith, lex_trans j k start less below, up))
      | inr (inl same) ↦
          let e : j ≡ k = eq_of_lex j k same in
          let less : lex j start ≡ lt = rw e below in absurd (ground (arith, less, up))
      | inr (inr more) ↦ rw (below, lower_bound, more, Map.find) (find-lower_bound_from m)
    ]
  ]

  -- A key below the start is not the key.
  find_one : (e : Bytes × ValuePointer) → lex e.0 start ≡ lt → Map.find j (e ∷ []) ≡ Map.find j ([])
  unfolding Map.find
  find_one (k, p) below = elim (Ordering-cases (lex j k)) [
    | inl less ↦ rw (less, Map.find)
    | inr (inr more) ↦ rw (more, Map.find)
    | inr (inl same) ↦
        let e : j ≡ k = eq_of_lex j k same in
        let less : lex j start ≡ lt = rw e below in absurd (ground (arith, less, up))
  ]

  find-from_target : (m : Map ValuePointer) → Map.find j (from_target start m) ≡ Map.find j m
  unfolding from_target
  find-from_target [] = refl
  find-from_target (e ∷ m) = go (lower_bound start (e ∷ m)) refl ∙ find-lower_bound_from (e ∷ m)
    where
      go :
          (low : Map ValuePointer)
          → lower_bound start (e ∷ m) ≡ low
          → Map.find j (elim low [ [] ↦ last_entry e m ∷ [] | l ∷ ls ↦ l ∷ ls ])
            ≡ Map.find j (lower_bound start (e ∷ m))
      go [] h = rw h (find_one (last_entry e m) (last_entry-below start e m h))
      go (l ∷ ls) h = rw h

  table_sources-append :
      (fs : List TableFile) (f : TableFile)
      → first j (table_sources start (fs ++ f ∷ []))
        ≡ (elim (first j (table_sources start fs)) [ some p ↦ some p | none ↦ Map.find j f.1 ])
  unfolding first
  table_sources-append [] (fname, m) = ground (arith, find-from_target m)
  table_sources-append ((fname, m) ∷ fs) f = ground (arith, table_sources-append fs f)

  first-newest :
      (files : List TableFile) → first j (table_sources start (newest_files files)) ≡ newest j files
  unfolding first newest newest_files
  first-newest [] = refl
  first-newest ((fname, m) ∷ files) =
      table_sources-append (newest_files files) (fname, m) ∙ ground (arith, first-newest files)

  pub first-sources :
      (m : Map ValuePointer) (files : List TableFile)
      → first j (sources start m files)
        ≡ (elim (Map.find j m) [ some p ↦ some p | none ↦ newest j files ])
  unfolding first
  first-sources m files = ground (arith, find-lower_bound_from m, first-newest files)

-- For every key that is not below the start, a range answers what the memtable, or else the newest
-- table with the key, points to, if the key is not beyond the end and the value is no tombstone; and
-- nothing otherwise. Its answers are in the order of the keys, each key once. The memtable is
-- sorted, each table is opened from a file that `write_new` has written for a sorted map in range,
-- each pointer leads to a value on disk, the cache is coherent, and there is one round more than the
-- sources have entries.
pub get_range_internal-exact :
    (load : ValuePointer → VortexData) (fuel : ℕ) (start end_key : Bytes) (files : List TableFile)
    (db : VortexDb) (d : Disk)
    → IsServing load files db d
    → weight (sources start db.memtable files) < fuel
    → (results : Map Bytes) × (r' : VLogReader) × (get_range_internal fuel start end_key db d
        ≡ ok (results, r'))
      × IsSorted results
      × ((j : Bytes)
          → is_lt (lex j start) ≡ false
          → Map.find j results
            ≡ shown load end_key j
                (elim (Map.find j db.memtable) [ some p ↦ some p | none ↦ newest j files ]))
get_range_internal-exact load fuel start end_key files db d v more =
    let (results, r', run, co, sorted, finds) =
      get_range_internal-sources load fuel start end_key files db d v more in
    (
      results,
      r',
      run,
      sorted,
      λ j up. finds j ∙ ap (shown load end_key j) (first-sources start j up db.memtable files),
    )
