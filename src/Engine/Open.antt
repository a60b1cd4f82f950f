-- ===== src/Engine/Open.antt =====
-- The constructor of `VortexDB` (src/vortex.cpp).
pub mod Restart
pub mod Restored
use vortex_db.Base.{
  ℕ, ◌+◌, Bool, true, false, ◌&&◌, not, Option, none, some, List, [], ◌∷◌, ◌++◌, if◌then◌else◌,
}
use vortex_db.Base.Words.{Bytes, u32}
use vortex_db.Base.Map
use vortex_db.Files.{Run, ok, ◌>>=◌, Disk}
use vortex_db.Text.{codes}
use vortex_db.Vlog.Writer
use vortex_db.Vlog.Reader
use vortex_db.Cuckoo
use vortex_db.SsTable
use vortex_db.SsTable.{SsTable}
use vortex_db.Manifest
use vortex_db.Engine.Scan.{rebuild_filter}
use vortex_db.Engine.State.{VortexDb}
use vortex_db.Engine.Index.{load_index}
use vortex_db.Engine.Recover.{recover_from_vlog}
use vortex_db.Engine.Segments.{discover_vlog_segments, last_or}

-- The number of the segment that is begun: none is written to again.
unfoldable pub next_segment : List ℕ → ℕ
next_segment [] = 0
next_segment (id ∷ segments) = u32 (last_or id segments + 1)

-- The loop over the names in the manifest; a table without its file is passed over.
unfoldable pub open_tables : List Bytes → Disk → Run (List SsTable)
open_tables [] d = ok []
open_tables (fname ∷ names) d =
    let rest = open_tables names d in
    elim (Map.find fname d) [
      | none ↦ rest
      | some content ↦ do table ← SsTable.new fname d; tables ← rest; ok (table ∷ tables)
    ]

abbrev pub is_empty {ℓ} : {A : Type ℓ} → List A → Bool
is_empty [] = true
is_empty (x ∷ xs) = false

-- The members that are there before any file is read; the writer begins a new segment.
unfoldable pub begun : Bytes → List ℕ → Disk → VortexDb × Disk
unfolding next_segment
begun name segments d =
    let (writer, d₁) = Writer.new (name ++ codes ".vlog") (next_segment segments) d in
    (
      record {
        memtable = [];
        writer = writer;
        reader = Reader.new (name ++ codes ".vlog");
        db_name = name;
        filter = Cuckoo.new 10000;
        sstables = [];
        manifest = Manifest.new (name ++ codes ".manifest");
      },
      d₁,
    )

-- The memtable: that of the index file, or else the one that the log gives. The segments that
-- `recover_from_vlog` finds have the new one among them. `fuel` bounds the loops over the index file
-- and over the entries of a segment, and `clock` is as for the recovery.
unfoldable pub open_memtable : (ℕ → ℕ) → ℕ → List ℕ → VortexDb → Disk → Run (VortexDb × Disk)
open_memtable clock fuel segments db d = do
  db₁ ← load_index fuel db d
  if not (is_empty segments) && is_empty db₁.memtable
      then recover_from_vlog clock fuel (discover_vlog_segments db.db_name d) db₁ d
      else ok (db₁, d)

-- The constructor; `draws` are as for the loop that fills the filter.
unfoldable pub new : (ℕ → ℕ) → (ℕ → ℕ → ℕ) → ℕ → Bytes → Disk → Run (VortexDb × Disk)
unfolding begun open_memtable open_tables
new clock draws fuel name d =
    let segments = discover_vlog_segments name d in
    let (db, d₁) = begun name segments d in
    do
      (db₁, d₂) ← open_memtable clock fuel segments db d₁
      manifest ← Manifest.load db₁.manifest d₂
      sstables ← open_tables manifest.sst_filenames d₂
      ((filter, inserted), reader) ← rebuild_filter draws fuel segments db₁.reader d₂ db₁.filter
      ok (
        record db₁ {
          manifest = manifest;
          sstables = db₁.sstables ++ sstables;
          filter = filter;
          reader = reader;
        },
        d₂,
      )
