-- ===== src/Engine/Compact.antt =====
-- `compact` of src/vortex.cpp. The calls of `time` answer `now`.
pub mod Merged
use vortex_db.Base.{
  ℕ, zero, suc, ◌+◌, Bool, true, false, Option, none, some, List, [], ◌∷◌, ◌++◌, length, leb,
  if◌then◌else◌,
}
use vortex_db.Base.Words.{Bytes}
use vortex_db.Base.Decimal.{to_string}
use vortex_db.Base.Map
use vortex_db.Base.Map.{Map}
use vortex_db.Files.{Run, ok, indeterminate, ◌>>=◌, Disk, In, open_in, read, need_word, read_string}
use vortex_db.Text.{codes}
use vortex_db.Vlog.{ValuePointer}
use vortex_db.Vlog.Pointer.{pointer_size, to_pointer}
use vortex_db.Vlog.Writer
use vortex_db.Vlog.Writer.{VLogWriter, segment, contents, flush, append_entry}
use vortex_db.Vlog.Reader
use vortex_db.Vlog.Reader.{VLogReader, close_all, read_value}
use vortex_db.Cuckoo
use vortex_db.Cuckoo.{CuckooFilter}
use vortex_db.SsTable
use vortex_db.SsTable.{SsTable}
use vortex_db.Manifest
use vortex_db.Manifest.{Manifest, register_sstable}
use vortex_db.Engine.Scan.{is_tombstone}
use vortex_db.Engine.State.{VortexDb, memtable_limit, save_index}
use vortex_db.Engine.Segments.{discover_vlog_segments}

-- The loop over the keys of a table; `count` of them are left.
unfoldable pub merge_keys : ℕ → In → Map ValuePointer → Run (Map ValuePointer)
merge_keys zero s merged_index = ok merged_index
merge_keys (suc count) s merged_index = do
  (k_size, s₁) ← need_word 4 s
  let (k, s₂) = read_string k_size [] s₁
  let (p, s₃) = read pointer_size s₂
  let rest = merge_keys count s₃ (Map.insert k (to_pointer p) merged_index)
  if s₃.good then rest else indeterminate

-- The loop over the tables, the oldest first. A table without its file is passed over.
unfoldable pub merge_tables : List SsTable → Disk → Map ValuePointer → Run (Map ValuePointer)
unfolding merge_keys
merge_tables [] d merged_index = ok merged_index
merge_tables (sst ∷ sstables) d merged_index = elim (Map.find sst.filename d) [
  | none ↦ merge_tables sstables d merged_index
  | some content ↦ do
    (num_keys, s) ← need_word 4 (open_in content)
    merged ← merge_keys num_keys s merged_index
    merge_tables sstables d merged
]

-- `for (const auto& [k, p] : memtable) merged_index[k] = p;`
unfoldable pub merge_memtable : Map ValuePointer → Map ValuePointer → Map ValuePointer
merge_memtable [] merged_index = merged_index
merge_memtable ((k, p) ∷ m) merged_index = merge_memtable m (Map.insert k p merged_index)

-- What the loop over the merged index changes; `inserted` counts the insertions into the filter.
pub record Rewrite : Type 0 where
  pub reader : VLogReader
  pub temp_writer : VLogWriter
  pub disk : Disk
  pub new_sst_names : List Bytes
  pub current_chunk : Map ValuePointer
  pub filter : CuckooFilter
  pub inserted : ℕ

unfoldable pub close_chunk : Bytes → ℕ → Rewrite → Rewrite
close_chunk db_name now t =
    let sst_name = db_name ++ (codes "_compact_" ++ (to_string now ++ codes ".sst")) in
    record t {
      disk = SsTable.write_new sst_name t.current_chunk t.disk;
      new_sst_names = t.new_sst_names ++ sst_name ∷ [];
      current_chunk = [];
    }

unfoldable pub rewrite_entry :
    (ℕ → ℕ → ℕ) → Bytes → ℕ → Bytes × ValuePointer → Rewrite → Run Rewrite
unfolding close_chunk
rewrite_entry draws db_name now (k, p) t = do
  (data_read, r) ← read_value p t.reader t.disk
  let (w, d, new_ptr) = append_entry k data_read.value data_read.type t.temp_writer t.disk
  let t₁ : Rewrite = record t {
    reader = r;
    temp_writer = w;
    disk = d;
    current_chunk = Map.insert k new_ptr t.current_chunk;
    filter = (Cuckoo.insert (draws t.inserted) t.filter k).1;
    inserted = t.inserted + 1;
  }
  ok (
      if is_tombstone data_read.type
      then record t { reader = r }
      else if leb memtable_limit (length t₁.current_chunk)
      then close_chunk db_name now t₁
      else t₁)

unfoldable pub rewrite_entries : (ℕ → ℕ → ℕ) → Bytes → ℕ → Map ValuePointer → Rewrite → Run Rewrite
unfolding rewrite_entry
rewrite_entries draws db_name now [] t = ok t
rewrite_entries draws db_name now (e ∷ merged_index) t = do
  t' ← rewrite_entry draws db_name now e t
  rewrite_entries draws db_name now merged_index t'

-- `fs::remove` of the segments, and of the files of the tables.
unfoldable pub remove_segments : Bytes → List ℕ → Disk → Disk
remove_segments db_name [] d = d
remove_segments db_name (id ∷ segments) d =
    remove_segments db_name segments (Map.erase (segment (db_name ++ codes ".vlog") id) d)

unfoldable pub remove_tables : List SsTable → Disk → Disk
remove_tables [] d = d
remove_tables (sst ∷ sstables) d = remove_tables sstables (Map.erase sst.filename d)

unfoldable pub register_all :
    List Bytes → List SsTable → Manifest → Disk → Run (List SsTable × Manifest × Disk)
register_all [] sstables manifest d = ok (sstables, manifest, d)
register_all (fname ∷ names) sstables manifest d = do
  sst ← SsTable.new fname d
  let (manifest', d') = register_sstable fname manifest d
  register_all names (sstables ++ sst ∷ []) manifest' d'

-- `fs::rename` of the first temporary segment onto segment 0.
unfoldable pub rename : Bytes → Bytes → Disk → Disk
rename from to d = Map.insert to (contents from d) (Map.erase from d)

-- The part behind the loop: the files are exchanged, and the database is opened on the new ones.
unfoldable pub exchange : VortexDb → Rewrite → Run (VortexDb × Disk)
unfolding remove_segments remove_tables register_all rename
exchange db t =
    let (w, d₁) = flush true db.writer t.disk in
    let (tw, d₂) = flush true t.temp_writer d₁ in
    let d₃ = remove_segments db.db_name (discover_vlog_segments db.db_name d₂) d₂ in
    let d₄ =
      rename (segment (db.db_name ++ codes ".temp_vlog") 0) (db.db_name ++ codes ".vlog.0") d₃ in
    let d₅ = remove_tables db.sstables d₄ in
    let (manifest, d₆) = Manifest.clear db.manifest d₅ in
    do
      (sstables, manifest', d₇) ← register_all t.new_sst_names [] manifest d₆
      let (writer, d₈) = Writer.new (db.db_name ++ codes ".vlog") 1 d₇
      ok (
          save_index
            (record db {
              memtable = t.current_chunk;
              writer = writer;
              reader = Reader.new (db.db_name ++ codes ".vlog");
              filter = t.filter;
              sstables = sstables;
              manifest = manifest';
            })
            d₈)

-- What `compact` does with the merged index.
unfoldable pub rewrite_index :
    (ℕ → ℕ → ℕ) → ℕ → Map ValuePointer → VortexDb → Disk → Run (VortexDb × Disk)
unfolding rewrite_entries exchange
rewrite_index draws now merged_index db d =
    let (temp_writer, d₁) = Writer.new (db.db_name ++ codes ".temp_vlog") 0 d in
    do
      t ← rewrite_entries draws db.db_name now merged_index (record {
        reader = close_all db.reader;
        temp_writer = temp_writer;
        disk = d₁;
        new_sst_names = [];
        current_chunk = [];
        filter = Cuckoo.new 10000;
        inserted = 0;
      })
      exchange db t

unfoldable pub compact : (ℕ → ℕ → ℕ) → ℕ → VortexDb → Disk → Run (VortexDb × Disk)
unfolding merge_tables merge_memtable rewrite_index
compact draws now db d = do
  from_tables ← merge_tables db.sstables d []
  rewrite_index draws now (merge_memtable db.memtable from_tables) db d
