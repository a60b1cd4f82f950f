-- ===== src/Engine/Segments.antt =====
-- The segments of the log that a directory has (src/vortex.cpp), and the operations that let go of the
-- writer while they read and open it again behind that.
pub mod Discovered
pub mod Reopened
pub mod Answered
pub mod Prefix
use vortex_db.Base.{
  ℕ, ◌+◌, true, Option, none, some, List, [], ◌∷◌, ◌++◌, length, drop, leb, if◌then◌else◌,
}
use vortex_db.Base.Words.{Bytes, u8, u32}
use vortex_db.Base.Map.{Map}
use vortex_db.Files.{Run, ok, ◌>>=◌, Disk}
use vortex_db.Text.{codes, begins_with, stoul}
use vortex_db.Vlog.Writer
use vortex_db.Vlog.Writer.{VLogWriter, flush}
use vortex_db.Vlog.Reader.{VLogReader, close_all, invalidate}
use vortex_db.Database.{VortexStats}
use vortex_db.Engine.Scan.{fresh_cursor, scan_segment}
use vortex_db.Engine.State.{VortexDb}
use vortex_db.Engine.Range.{get_range_internal, get_all_keys_internal}

-- `std::sort`
abbrev pub sort_into : ℕ → List ℕ → List ℕ
sort_into i [] = i ∷ []
sort_into i (j ∷ ids) = let rest = sort_into i ids in if leb i j then i ∷ j ∷ ids else j ∷ rest

abbrev pub sort : List ℕ → List ℕ
sort [] = []
sort (i ∷ ids) = sort_into i (sort ids)

-- The loop over the files of the directory.
unfoldable pub segment_ids : Bytes → Disk → List ℕ
segment_ids prefix [] = []
segment_ids prefix ((path, bs) ∷ d) =
    let ids = segment_ids prefix d in
    if begins_with prefix path
    then elim (stoul (drop (length prefix) path)) [ none ↦ ids | some id ↦ u32 id ∷ ids ]
    else ids

unfoldable pub discover_vlog_segments : Bytes → Disk → List ℕ
unfolding segment_ids
discover_vlog_segments db_name d = sort (segment_ids (db_name ++ codes ".vlog.") d)

-- `segments.empty() ? 0 : segments.back()`
abbrev pub last_or : ℕ → List ℕ → ℕ
last_or n [] = n
last_or n (i ∷ ids) = last_or i ids

-- `writer->flush(true)`, the end of the writer, whose flush has nothing left, and `close_all`.
unfoldable pub let_go : VortexDb → Disk → VortexDb × Disk
let_go db d =
    let (w, d₁) = flush true db.writer d in
    (record db { writer = w; reader = close_all db.reader }, d₁)

-- The new writer on the last segment.
unfoldable pub reopen : VortexDb → Disk → VortexDb × Disk
unfolding discover_vlog_segments
reopen db d =
    let active_id : ℕ = last_or 0 (discover_vlog_segments db.db_name d) in
    let (w, d₁) = Writer.new (db.db_name ++ codes ".vlog") active_id d in
    (record db { writer = w }, d₁)

-- The number of rounds bounds the loop over the merged entries.
unfoldable pub get_range : ℕ → Bytes → Bytes → VortexDb → Disk → Run (Map Bytes × VortexDb × Disk)
unfolding let_go reopen
get_range fuel start end_key db d =
    let (db₁, d₁) = let_go db d in
    do
      (res, r) ← get_range_internal fuel start end_key db₁ d₁
      let (db₂, d₂) = reopen (record db₁ { reader = r }) d₁
      ok (res, db₂, d₂)

unfoldable pub get_all_keys : ℕ → VortexDb → Disk → Run (List Bytes × VortexDb × Disk)
unfolding let_go reopen
get_all_keys fuel db d =
    let (db₁, d₁) = let_go db d in
    do
      (res, r) ← get_all_keys_internal fuel db₁ d₁
      let (db₂, d₂) = reopen (record db₁ { reader = r }) d₁
      ok (res, db₂, d₂)

-- `if (!end_key.empty()) end_key.back()++`
unfoldable pub after_prefix : Bytes → Bytes
after_prefix [] = []
after_prefix (c ∷ s) =
    let rest = after_prefix s in elim s [ [] ↦ u8 (c + 1) ∷ [] | _ ∷ _ ↦ c ∷ rest ]

-- `get_prefix` of a prefix without a slash.
unfoldable pub get_prefix : ℕ → Bytes → VortexDb → Disk → Run (Map Bytes × VortexDb × Disk)
unfolding let_go reopen after_prefix
get_prefix fuel prefix db d =
    let (db₁, d₁) = let_go db d in
    do
      (res, r) ← get_range_internal fuel prefix (after_prefix prefix) db₁ d₁
      let (db₂, d₂) = reopen (record db₁ { reader = r }) d₁
      ok (res, db₂, d₂)

-- The loop of `get_stats` over the segments: the number of their entries.
unfoldable pub count_entries : ℕ → List ℕ → VLogReader → Disk → ℕ → Run (ℕ × VLogReader)
count_entries fuel [] r d total_count = ok (total_count, r)
count_entries fuel (id ∷ segments) r d total_count = do
  (n, r') ← scan_segment (λ c n. n + 1) fuel id fresh_cursor r d total_count
  count_entries fuel segments (invalidate id r') d n

-- `get_stats`; `fuel` bounds the loops over the merged entries and over the entries of a segment.
unfoldable pub get_stats : ℕ → VortexDb → Disk → Run (VortexStats × VortexDb × Disk)
unfolding let_go reopen count_entries discover_vlog_segments
get_stats fuel db d =
    let (db₁, d₁) = let_go db d in
    do
      (range, r) ← get_range_internal fuel [] [] db₁ d₁
      (total_count, r') ← count_entries fuel (discover_vlog_segments db.db_name d₁) r d₁ 0
      let (db₂, d₂) = reopen (record db₁ { reader = r' }) d₁
      ok (record { live_keys = length range; total_entries = total_count }, db₂, d₂)
