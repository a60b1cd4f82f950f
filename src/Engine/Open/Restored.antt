-- ===== src/Engine/Open/Restored.antt =====
-- The constructor on a database that was closed (src/vortex.cpp): all its members.
use vortex_db.Base.{
  ℕ, ◌+◌, ◌^◌, ◌<◌, ◌≡◌, refl, sym, ap, ◌∙◌, false, some, List, [], ◌∷◌, ◌++◌, length, arith, All,
  append_assoc,
}
use vortex_db.Base.Words.{Bytes}
use vortex_db.Base.Order.{lex, is_eq, ◌=ˢ◌}
use vortex_db.Base.Map
use vortex_db.Base.Map.{Map, IsSorted}
use vortex_db.Base.Decimal.{to_string}
use vortex_db.Files.{ok, Disk}
use vortex_db.Text.{codes}
use vortex_db.Vlog.{ValuePointer}
use vortex_db.Vlog.Writer.{segment, contents}
use vortex_db.Vlog.Reader
use vortex_db.Vlog.Reader.{VLogReader, Cursor}
use vortex_db.Vlog.Log.{logical, IsOpen}
use vortex_db.Vlog.Beside.{IsBeside}
use vortex_db.Vlog.Cache.{IsCoherent}
use vortex_db.Vlog.ReadBack.{Item}
use vortex_db.Cuckoo
use vortex_db.Cuckoo.{CuckooFilter}
use vortex_db.SsTable.Index.{new-table_of}
use vortex_db.Manifest
use vortex_db.Manifest.{Manifest, file_bytes}
use vortex_db.Manifest.Reload.{IsShort, load_from-file_bytes}
use vortex_db.Engine.Scan.{scan_segments, note_key, rebuild_filter}
use vortex_db.Engine.Replay.{replay, scan_segment-replay}
use vortex_db.Engine.State.{VortexDb, index_name, save_index}
use vortex_db.Engine.Index.{IsIndexed}
use vortex_db.Engine.Recovered.{IsLogOf}
use vortex_db.Engine.Segments.{discover_vlog_segments, last_or}
use vortex_db.Engine.Segments.Reopened.{IsPlaced}
use vortex_db.Engine.Tables.{TableFile, tables_of, IsStored}
use vortex_db.Engine.Open.{begun, open_tables, new}
use vortex_db.Engine.Open.Restart.{
  lex-append, segments_again, again, again-other, open_memtable-save_index,
}

-- The names of the tables' files.
unfoldable pub names_of : List TableFile → List Bytes
names_of [] = []
names_of ((fname, m) ∷ files) = fname ∷ names_of files

open_tables-tables_of :
    (files : List TableFile) (d : Disk)
    → All (IsStored d) files
    → open_tables (names_of files) d ≡ ok (tables_of files)
unfolding open_tables names_of tables_of
open_tables-tables_of [] d a = refl
open_tables-tables_of ((fname, m) ∷ files) d ((table, file), a) =
    ground (arith, file, new-table_of fname m d table file, open_tables-tables_of files d a)

-- The body of a loop on the entries of all segments, in their order.
unfoldable pub replay_all {ℓ} : {A : Type ℓ} → (Cursor → A → A) → (ℕ → List Item) → List ℕ → A → A
replay_all body items [] a = a
replay_all body items (id ∷ ids) a = replay_all body items ids (replay body id 0 (items id) a)

scan_segments-replay_all :
    {A : Type 0} (body : Cursor → A → A) (items : ℕ → List Item) (fuel : ℕ) (ids : List ℕ)
    (r : VLogReader) (d : Disk) (a : A)
    → All (λ id. IsLogOf (items id) fuel (contents (segment r.base_path id) d)) ids
    → IsCoherent r d
    → (r' : VLogReader) × (scan_segments body fuel ids r d a ≡ ok (replay_all body items ids a, r'))
unfolding scan_segments replay_all
scan_segments-replay_all body items fuel [] r d a logs co = (r, refl)
scan_segments-replay_all body items fuel (id ∷ ids) r d a (log, logs) co =
    let (r₁, run, co₁, base) =
      scan_segment-replay body (items id) fuel id r d a log.more log.fits log.holds
        (omega (arith, log.small, ap length log.holds)) co in
    let (r', run') =
      scan_segments-replay_all body items fuel ids r₁ d (replay body id 0 (items id) a)
        (rw base logs) co₁ in
    (r', rw run run')

abbrev pub manifest_name : VortexDb → Bytes
manifest_name db = db.db_name ++ codes ".manifest"

segment-manifest : (name : Bytes) → IsBeside (name ++ codes ".vlog") (name ++ codes ".manifest")
unfolding segment lex
segment-manifest name id = ap is_eq (
    ap (lex (name ++ codes ".manifest")) (append_assoc name (codes ".vlog") (b'.' ∷ to_string id))
    ∙ lex-append name (codes ".manifest") (codes ".vlog" ++ b'.' ∷ to_string id))

index-manifest : (db : VortexDb) → (manifest_name db =ˢ index_name db) ≡ false
unfolding lex
index-manifest db = ap is_eq (lex-append db.db_name (codes ".manifest") (codes ".idx"))

-- The files of the database are in order: the manifest names the tables, whose files are neither
-- segments nor the index.
pub record IsKept (files : List TableFile) (db : VortexDb) (d : Disk) : Type 0 where
  pub listed : Map.find (manifest_name db) d ≡ some (file_bytes (names_of files))
  pub few : length (names_of files) < 2 ^ 32
  pub short : All IsShort (names_of files)
  pub tables : db.sstables ≡ tables_of files
  pub stored : All (IsStored d) files
  pub apart :
      All (λ f. IsBeside (db.db_name ++ codes ".vlog") f.0 × ((f.0 =ˢ index_name db) ≡ false)) files

module _ (db : VortexDb) (d : Disk) (o : IsOpen db.writer d) (placed : IsPlaced db d) where
  again-stored :
      (files : List TableFile)
      → All (IsStored d) files
      → All
          (λ f. IsBeside (db.db_name ++ codes ".vlog") f.0 × ((f.0 =ˢ index_name db) ≡ false))
          files
      → All (IsStored (again db d o placed).1) files
  again-stored [] a b = tt
  again-stored ((fname, m) ∷ files) ((table, file), a) ((beside, other), b) =
      ((table, again-other db d o placed fname beside other ∙ file), again-stored files a b)

  again-manifest :
      (names : List Bytes)
      → Map.find (manifest_name db) d ≡ some (file_bytes names)
      → length names < 2 ^ 32
      → All IsShort names
      → Manifest.load (Manifest.new (manifest_name db)) (again db d o placed).1
        ≡ ok (record { filepath = manifest_name db; sst_filenames = names })
  unfolding Manifest.load Manifest.new
  again-manifest names listed few short =
      rw
        (
          again-other db d o placed (manifest_name db) (segment-manifest db.db_name)
                (index-manifest db)
              ∙ listed,
          Manifest.load,
        )
        (load_from-file_bytes (Manifest.new (manifest_name db)) names few short)

  IsLogOf-map :
      (fuel : ℕ) (items : ℕ → List Item) (log log' : ℕ → Bytes) (ids : List ℕ)
      → ((id : ℕ) → log' id ≡ log id)
      → All (λ id. IsLogOf (items id) fuel (log id)) ids
      → All (λ id. IsLogOf (items id) fuel (log' id)) ids
  IsLogOf-map fuel items log log' [] e a = tt
  IsLogOf-map fuel items log log' (id ∷ ids) e (h, a) =
      (rw (e id) h, IsLogOf-map fuel items log log' ids e a)

  -- A database that is closed, by `save_index` and the end of its writer, and is opened again by the
  -- constructor, has the memtable, the tables and the manifest's names that it had, and an open writer
  -- whose log has the bytes that it had, those in the buffer included; its filter is what the entries
  -- of all segments make of an empty one, in their order. The memtable is not empty and is sorted, its
  -- keys are shorter than 2^64 bytes and its pointers in range; the writer satisfies its invariant and
  -- is on a segment that the directory has, and the numbers of the segments leave room for one more.
  -- The manifest's file names the tables, fewer than 2^32 and with names shorter than 2^32 bytes, whose
  -- files `write_new` has written for sorted maps in range and are neither segments nor the index.
  -- Each segment holds entries one behind another, and nothing else, is shorter than 2^63 bytes, and
  -- each type is the one that its byte stands for; there is one round more than there are entries in
  -- a segment, or keys in the memtable.
  pub new-save_index :
      (clock : ℕ → ℕ) (draws : ℕ → ℕ → ℕ) (fuel : ℕ) (e : Bytes × ValuePointer)
      (m : Map ValuePointer) (files : List TableFile) (items : ℕ → List Item)
      → db.memtable ≡ e ∷ m
      → IsSorted db.memtable
      → All IsIndexed db.memtable
      → length db.memtable < fuel
      → last_or 0 (discover_vlog_segments db.db_name (save_index db d).1) + 1 < 2 ^ 32
      → IsKept files db d
      → All
          (λ id. IsLogOf (items id) fuel (logical db.writer d id))
          (discover_vlog_segments db.db_name (save_index db d).1)
      → (db' : VortexDb) × (d' : Disk) × (new clock draws fuel db.db_name (save_index db d).1
          ≡ ok (db', d'))
        × (db'.memtable ≡ db.memtable)
        × (db'.sstables ≡ db.sstables)
        × (db'.manifest.sst_filenames ≡ names_of files)
        × (db'.filter
            ≡ (replay_all
                (note_key draws)
                items
                (discover_vlog_segments db.db_name (save_index db d).1)
                (Cuckoo.new 10000, 0)).0)
        × IsOpen db'.writer d'
        × ((id : ℕ) → logical db'.writer d' id ≡ logical db.writer d id)
  unfolding new begun rebuild_filter Reader.new
  new-save_index clock draws fuel e m files items some_key sorted fits more room kept logs =
      let segments = segments_again db d o placed in
      let (db₀, d₁) = again db d o placed in
      let (run, opened, log, there) =
        open_memtable-save_index db d o placed clock fuel e m some_key sorted fits more room in
      let listed = again-manifest (names_of files) kept.listed kept.few kept.short in
      let tables = open_tables-tables_of files d₁ (again-stored files kept.stored kept.apart) in
      let (r', filled) =
        scan_segments-replay_all (note_key draws) items fuel segments db₀.reader d₁
          (Cuckoo.new 10000, 0)
          (IsLogOf-map fuel items (logical db.writer d)
            (λ id. contents (segment (db.db_name ++ codes ".vlog") id) d₁) segments there logs)
          (record { entries = tt; bounded = omega arith }) in
      let noted = replay_all (note_key draws) items segments (Cuckoo.new 10000, 0) in
      (
        record db₀ {
          memtable = db.memtable;
          manifest = record { filepath = manifest_name db; sst_filenames = names_of files };
          sstables = tables_of files;
          filter = noted.0;
          reader = r';
        },
        d₁,
        rw (run, listed, tables, filled) refl,
        refl,
        sym kept.tables,
        refl,
        refl,
        opened,
        log,
      )
