-- ===== src/Engine/Range.antt =====
-- `get_range_internal` and `get_all_keys_internal` of src/vortex.cpp.
pub mod Walk
pub mod Shown
pub mod Sources
pub mod Answer
pub mod Exact
use vortex_db.Base.{ℕ, zero, suc, Bool, false, List, [], ◌∷◌, map, if◌then◌else◌}
use vortex_db.Base.Words.{Bytes}
use vortex_db.Base.Order.{lex, is_gt}
use vortex_db.Base.Map.{Map}
use vortex_db.Files.{Run, ok, indeterminate, ◌>>=◌, Disk}
use vortex_db.Vlog.{ValuePointer, VortexData}
use vortex_db.Vlog.Reader.{VLogReader, read_value}
use vortex_db.SsTable.{SsTable, new_iterator}
use vortex_db.Engine.Scan.{is_tombstone}
use vortex_db.Engine.State.{VortexDb, newest_first}
use vortex_db.Engine.Merge.{
  InternalIterator, IterNode, memtable_iterator, sst_iterator, key, value, seek_all, merge_next,
}

-- `!end_key.empty() && key > end_key`
unfoldable pub is_beyond : Bytes → Bytes → Bool
is_beyond [] k = false
is_beyond (c ∷ end_key) k = is_gt (lex k (c ∷ end_key))

-- A value that is a tombstone is left out.
unfoldable pub add_result : Bytes → VortexData → Map Bytes → Map Bytes
add_result k x results = if is_tombstone x.type then results else (k, x.value) ∷ results

-- The loop over the merged entries. A run that is out of fuel has no result.
unfoldable pub range_from :
    ℕ → Bytes → List IterNode → VLogReader → Disk → Run (Map Bytes × VLogReader)
unfolding is_beyond add_result merge_next
range_from zero end_key pq r d = indeterminate
range_from (suc fuel) end_key [] r d = ok ([], r)
range_from (suc fuel) end_key (top ∷ pq) r d =
    let k = key top.iter in
    let rest : Run (Map Bytes × VLogReader) = (do
      (x, r₁) ← read_value (value top.iter) r d
      pq' ← merge_next (top ∷ pq)
      (results, r₂) ← range_from fuel end_key pq' r₁ d
      ok (add_result k x results, r₂)) in
    if is_beyond end_key k then ok ([], r) else rest

-- The iterators in the order in which they are pushed: the memtable's, then those of the tables,
-- the newest first.
unfoldable pub table_iterators : List SsTable → Disk → List InternalIterator
table_iterators [] d = []
table_iterators (t ∷ ts) d = sst_iterator (new_iterator t d) ∷ table_iterators ts d

unfoldable pub iterators : VortexDb → Disk → List InternalIterator
unfolding table_iterators newest_first
iterators db d =
    memtable_iterator db.memtable db.memtable ∷ table_iterators (newest_first db.sstables) d

unfoldable pub get_range_internal :
    ℕ → Bytes → Bytes → VortexDb → Disk → Run (Map Bytes × VLogReader)
unfolding range_from iterators
get_range_internal fuel start_key end_key db d = do
  pq ← seek_all start_key 0 (iterators db d) []
  range_from fuel end_key pq db.reader d

abbrev pub keys_of : Map Bytes → List Bytes
keys_of [] = []
keys_of ((k, v) ∷ m) = k ∷ keys_of m

unfoldable pub get_all_keys_internal : ℕ → VortexDb → Disk → Run (List Bytes × VLogReader)
unfolding get_range_internal
get_all_keys_internal fuel db d = do
  (res, r) ← get_range_internal fuel [] [] db d
  ok (keys_of res, r)
