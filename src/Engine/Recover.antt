-- ===== src/Engine/Recover.antt =====
-- `recover_from_vlog` of src/vortex.cpp. The segments are those that the directory lists.
use vortex_db.Base.{ℕ, zero, suc, List, [], ◌∷◌, length, if◌then◌else◌}
use vortex_db.Base.Map
use vortex_db.Base.Map.{Map}
use vortex_db.Files.{Run, ok, indeterminate, ◌>>=◌, Disk}
use vortex_db.Vlog.{ValuePointer}
use vortex_db.Vlog.Reader.{Cursor, read_next_entry}
use vortex_db.Engine.Scan.{fresh_cursor, is_tombstone}
use vortex_db.Engine.State.{VortexDb, make_room, save_index}

-- What an entry does to the memtable.
unfoldable pub recover_entry : Cursor → Map ValuePointer → Map ValuePointer
recover_entry c m =
    if is_tombstone c.entry.type then Map.erase c.key m else Map.insert c.key c.ptr m

-- The loop over the entries of a segment; `clock n` is the time at which the database has `n`
-- tables. A run that is out of fuel has no result.
unfoldable pub recover_segment : (ℕ → ℕ) → ℕ → ℕ → Cursor → VortexDb → Disk → Run (VortexDb × Disk)
unfolding recover_entry
recover_segment clock zero id c db d = indeterminate
recover_segment clock (suc fuel) id c db d = do
  (more, c', r) ← read_next_entry id c db.reader d
  let db₁ : VortexDb = record db { reader = r; memtable = recover_entry c' db.memtable }
  let rest =
      make_room (clock (length db.sstables)) db₁ d >>= λ s. recover_segment clock fuel id c' s.0 s.1
  if more then rest else ok (record db { reader = r }, d)

unfoldable pub recover_segments : (ℕ → ℕ) → ℕ → List ℕ → VortexDb → Disk → Run (VortexDb × Disk)
unfolding recover_segment
recover_segments clock fuel [] db d = ok (db, d)
recover_segments clock fuel (id ∷ ids) db d =
    recover_segment clock fuel id fresh_cursor db d >>= λ s. recover_segments clock fuel ids s.0 s.1

unfoldable pub recover_from_vlog : (ℕ → ℕ) → ℕ → List ℕ → VortexDb → Disk → Run (VortexDb × Disk)
unfolding recover_segments
recover_from_vlog clock fuel segments db d = do
  (db₁, d₁) ← recover_segments clock fuel segments (record db { memtable = [] }) d
  ok (save_index db₁ d₁)
