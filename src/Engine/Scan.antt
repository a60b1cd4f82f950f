-- ===== src/Engine/Scan.antt =====
-- The loops of src/vortex.cpp over the entries of the value log. Each runs `read_next_entry` until it
-- answers false.
use vortex_db.Base.{ℕ, zero, suc, ◌+◌, Bool, true, false, List, [], ◌∷◌, if◌then◌else◌}
use vortex_db.Files.{Run, ok, indeterminate, ◌>>=◌, Disk}
use vortex_db.Vlog.{ValueType, string, tombstone}
use vortex_db.Vlog.Reader.{VLogReader, Cursor, read_next_entry}
use vortex_db.Cuckoo.{CuckooFilter, insert, remove}

-- The variables that are declared before the loop. The type and the pointer have no value yet in
-- the program, and are not read before `read_next_entry` has written them.
abbrev pub fresh_cursor : Cursor
fresh_cursor = record {
  key = [];
  entry = record { type = string; value = [] };
  ptr = record { file_id = 0; value_size = 0; offset = 0 };
  current_pos = 0;
}

-- `while (reader->read_next_entry(id, k, d, p, pos)) { … }`: `body` is what is done with an entry.
-- A run that is out of fuel has no result.
unfoldable pub scan_segment {ℓ} :
    {A : Type ℓ} → (Cursor → A → A) → ℕ → ℕ → Cursor → VLogReader → Disk → A → Run (A × VLogReader)
scan_segment body zero id c r d a = indeterminate
scan_segment body (suc fuel) id c r d a = do
  (more, c', r') ← read_next_entry id c r d
  let rest = scan_segment body fuel id c' r' d (body c' a)
  if more then rest else ok (a, r')

-- `for (uint32_t id : segments)` around it.
unfoldable pub scan_segments {ℓ} :
    {A : Type ℓ} → (Cursor → A → A) → ℕ → List ℕ → VLogReader → Disk → A → Run (A × VLogReader)
scan_segments body fuel [] r d a = ok (a, r)
scan_segments body fuel (id ∷ ids) r d a = do
  (a', r') ← scan_segment body fuel id fresh_cursor r d a
  scan_segments body fuel ids r' d a'

unfoldable pub is_tombstone : ValueType → Bool
is_tombstone tombstone = true
is_tombstone _ = false

-- The body of the loop that fills the filter, with the number of insertions so far; `draws n`
-- are the draws of the n-th one.
unfoldable pub note_key : (ℕ → ℕ → ℕ) → Cursor → CuckooFilter × ℕ → CuckooFilter × ℕ
note_key draws c (f, n) =
    if is_tombstone c.entry.type
    then ((remove f c.key).1, n)
    else ((insert (draws n) f c.key).1, n + 1)

unfoldable pub rebuild_filter :
    (ℕ → ℕ → ℕ)
    → ℕ
    → List ℕ
    → VLogReader
    → Disk
    → CuckooFilter
    → Run ((CuckooFilter × ℕ) × VLogReader)
rebuild_filter draws fuel segments r d f = scan_segments (note_key draws) fuel segments r d (f, 0)
