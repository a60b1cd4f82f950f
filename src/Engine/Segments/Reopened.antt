-- ===== src/Engine/Segments/Reopened.antt =====
-- The state in which a range leaves the database (src/vortex.cpp): the writer is open again, on a
-- segment behind which there are none, and the log has lost nothing.
use vortex_db.Base.{ℕ, ◌≤◌, ◌≡◌, sym, ap, ◌∙◌, some, [], ◌++◌, arith}
use vortex_db.Base.Words.{Bytes}
use vortex_db.Base.Map
use vortex_db.Base.Map.{Map, IsSorted}
use vortex_db.Files.{Disk}
use vortex_db.Text.{codes}
use vortex_db.Vlog.Writer.{segment, contents, active}
use vortex_db.Vlog.Log.{logical, logical-empty, IsOpen, new-IsOpen}
use vortex_db.Engine.State.{VortexDb}
use vortex_db.Engine.Segments.{last_or, discover_vlog_segments, reopen}
use vortex_db.Engine.Segments.Discovered.{last-discovered}

-- The writer is on a segment of the database, which the directory has.
pub record IsPlaced (db : VortexDb) (d : Disk) : Type 0 where
  pub base : db.writer.base_path ≡ db.db_name ++ codes ".vlog"
  pub bytes : Bytes
  pub there : Map.find (active db.writer) d ≡ some bytes

-- The new writer satisfies the writer's invariant, and every segment of the log has the bytes that it
-- had, if the old writer satisfies it, has nothing in its buffer, and is on a segment that the
-- directory has.
pub reopen-IsOpen :
    (db : VortexDb) (d : Disk)
    → IsOpen db.writer d
    → db.writer.buffer ≡ []
    → IsPlaced db d
    → IsOpen (reopen db d).0.writer (reopen db d).1
      × ((j : ℕ) → logical (reopen db d).0.writer (reopen db d).1 j ≡ logical db.writer d j)
unfolding reopen
reopen-IsOpen db d o empty placed =
    let base = db.db_name ++ codes ".vlog" in
    let id = last_or 0 (discover_vlog_segments db.db_name d) in
    let (small, above) = last-discovered db.db_name d in
    let there : Map.find (segment base db.writer.current_file_id) d ≡ some placed.bytes =
      ap (λ b. Map.find (segment b db.writer.current_file_id) d) (sym placed.base) ∙ placed.there in
    let le : db.writer.current_file_id ≤ id =
      above db.writer.current_file_id placed.bytes o.small there in
    let (opened, kept) = new-IsOpen base id d small (λ j more.
      ap (λ b. contents (segment b j) d) (sym placed.base) ∙ o.fresh j (omega (arith, le, more))) in
    (
      opened,
      λ j.
          kept j
          ∙ ap (λ b. contents (segment b j) d) (sym placed.base)
          ∙ sym (logical-empty db.writer d j empty),
    )
