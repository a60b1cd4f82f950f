-- ===== src/Engine/Range/Answer.antt =====
-- What `get_range_internal` answers (src/vortex.cpp).
use vortex_db.Base.{ℕ, ◌<◌, ◌≡◌, ap, ◌∙◌, List, [], ◌∷◌, All, arith, inl, inr}
use vortex_db.Base.Words.{Bytes}
use vortex_db.Base.Order.{Ordering-cases, lex}
use vortex_db.Base.Map
use vortex_db.Base.Map.{Map, IsAbove, IsSorted, lower_bound}
use vortex_db.Files.{ok, Disk}
use vortex_db.Vlog.{ValuePointer, VortexData}
use vortex_db.Vlog.Reader.{VLogReader}
use vortex_db.Vlog.Points.{Points}
use vortex_db.Vlog.Cache.{IsCoherent, target}
use vortex_db.SsTable.Seek.{last_entry}
use vortex_db.Engine.State.{VortexDb}
use vortex_db.Engine.Tables.{TableFile, IsStored}
use vortex_db.Engine.Merge.Views.{from_target}
use vortex_db.Engine.Merge.Settle.{size}
use vortex_db.Engine.Merge.Collect.{collect, collect-IsSorted, find-collect}
use vortex_db.Engine.Merge.Sources.{
  seek_streams, seek_all-AreNodes, seek_streams-IsMerge, weight, size-seek_streams, first,
  lookup-seek_streams-first,
}
use vortex_db.Engine.Range.{iterators, get_range_internal}
use vortex_db.Engine.Range.Walk.{visible, range_from-visible}
use vortex_db.Engine.Range.Shown.{shown, collected-All, visible-IsSorted, find-visible}
use vortex_db.Engine.Range.Sources.{
  newest_files, newest_files-All, table_sources, sources, IsServing, iterators-SeekTo,
  lower_bound-All, table_sources-All,
}

lower_bound-IsSorted :
    (start : Bytes) (m : Map ValuePointer) → IsSorted m → IsSorted (lower_bound start m)
unfolding lower_bound
lower_bound-IsSorted start [] s = tt
lower_bound-IsSorted start ((k, p) ∷ m) (a, s) = elim (Ordering-cases (lex k start)) [
  | inl below ↦ rw (below, lower_bound) (lower_bound-IsSorted start m s)
  | inr (inl same) ↦ rw (same, lower_bound) (a, s)
  | inr (inr above) ↦ rw (above, lower_bound) (a, s)
]

from_target-IsSorted :
    (start : Bytes) (m : Map ValuePointer) → IsSorted m → IsSorted (from_target start m)
unfolding from_target
from_target-IsSorted start [] s = tt
from_target-IsSorted start (e ∷ m) s =
    go (lower_bound start (e ∷ m)) (lower_bound-IsSorted start (e ∷ m) s)
  where
    go :
        (low : Map ValuePointer)
        → IsSorted low
        → IsSorted (elim low [ [] ↦ last_entry e m ∷ [] | l ∷ ls ↦ l ∷ ls ])
    go [] b = (tt, tt)
    go (l ∷ ls) b = b

table_sources-IsSorted :
    (start : Bytes) (files : List TableFile) (d : Disk)
    → All (IsStored d) files
    → All IsSorted (table_sources start files)
table_sources-IsSorted start [] d a = tt
table_sources-IsSorted start ((fname, m) ∷ files) d ((t, _), a) =
    (from_target-IsSorted start m t.sorted, table_sources-IsSorted start files d a)

-- A range runs through and answers in the order of the keys, each key once. For a key up to the end,
-- the answer is the value to which the pointer of the first source with the key leads, unless it is
-- a tombstone. The sources are the memtable from the start on, and the tables from the newest to the
-- oldest, each from the start on; a table all of whose keys are below the start is a source of its
-- last entry. The cache is coherent with the disk afterwards. The memtable is sorted, each table is
-- opened from a file that `write_new` has written for a sorted map in range, each pointer leads to a
-- value on disk, the cache is coherent before, and there is one round more than the sources have
-- entries.
pub get_range_internal-sources :
    (load : ValuePointer → VortexData) (fuel : ℕ) (start end_key : Bytes) (files : List TableFile)
    (db : VortexDb) (d : Disk)
    → IsServing load files db d
    → weight (sources start db.memtable files) < fuel
    → (results : Map Bytes) × (r' : VLogReader) × (get_range_internal fuel start end_key db d
        ≡ ok (results, r'))
      × IsCoherent r' d
      × IsSorted results
      × ((j : Bytes)
          → Map.find j results ≡ shown load end_key j (first j (sources start db.memtable files)))
unfolding get_range_internal weight size
get_range_internal-sources load fuel start end_key files db d v more =
    let ms = sources start db.memtable files in
    let P : Bytes × ValuePointer → Type 0 =
      λ e. Points (target db.reader.base_path e.1 d) e.1 (load e.1) in
    let sorted : All IsSorted ms = (
      lower_bound-IsSorted start db.memtable v.sorted,
      table_sources-IsSorted start (newest_files files) d
          (newest_files-All (IsStored d) files v.stored),
    ) in
    let loaded : All (All P) ms = (
      lower_bound-All P start db.memtable v.loaded,
      table_sources-All P start (newest_files files)
          (newest_files-All (λ f. All P f.1) files v.loaded_tables),
    ) in
    let merge = seek_streams-IsMerge 0 ms [] sorted tt (record { queue = tt; streams = tt }) in
    let (pq, opened, nodes) =
      seek_all-AreNodes start 0 (iterators db d) ms [] [] (iterators-SeekTo load start files db d v)
        tt in
    let few : size (seek_streams 0 ms []) < fuel = omega (arith, size-seek_streams 0 ms [], more) in
    let (r', run, co) =
      range_from-visible load fuel end_key pq (seek_streams 0 ms []) db.reader d merge few
        (collected-All P fuel ms loaded) nodes v.coherent in
    let walk = collect fuel (seek_streams 0 ms []) in
    let walk_sorted = collect-IsSorted fuel (seek_streams 0 ms []) merge in
    (
      visible load end_key walk,
      r',
      rw opened run,
      co,
      visible-IsSorted load end_key walk walk_sorted,
      λ j.
          find-visible load end_key j walk walk_sorted
          ∙ ap (shown load end_key j) (
              find-collect fuel j (seek_streams 0 ms []) merge few
              ∙ lookup-seek_streams-first j ms),
    )
