-- ===== src/Tests/Openings.antt =====
-- A database with one key in its memtable and one in a table, closed and opened again
-- (src/vortex.cpp).
use vortex_db.Base.{ℕ, ◌≡◌, refl, false, List, [], ◌∷◌, length, arith}
use vortex_db.Base.Words.{le_bytes}
use vortex_db.Base.Order.{lex}
use vortex_db.Base.Decimal.{to_string, of_digits}
use vortex_db.Base.Map
use vortex_db.Files.{ok, Disk}
use vortex_db.Text.{codes, begins_with, stoul}
use vortex_db.Vlog.{string, to_tag, of_tag, ValuePointer}
use vortex_db.Vlog.Writer
use vortex_db.Vlog.Writer.{VLogWriter, segment, contents, flush}
use vortex_db.Vlog.Log.{IsOpen, logical, segment-eq}
use vortex_db.Vlog.ReadBack.{Item}
use vortex_db.Cuckoo
use vortex_db.SsTable.{table_bytes}
use vortex_db.Manifest.{file_bytes}
use vortex_db.Engine.Scan.{note_key}
use vortex_db.Engine.Replay.{log_bytes}
use vortex_db.Engine.State.{VortexDb, save_index}
use vortex_db.Engine.Tables.{TableFile, tables_of}
use vortex_db.Engine.Segments.{discover_vlog_segments}
use vortex_db.Engine.Segments.Reopened.{IsPlaced}
use vortex_db.Engine.Open.{new}
use vortex_db.Engine.Open.Restored.{names_of, replay_all, IsKept, new-save_index}
use vortex_db.Tests.Databases.{empty_database}

abbrev logged_item : ℕ → List Item
logged_item id = (codes "a", record { type = string; value = codes "42" }) ∷ []

abbrev its_pointer : ValuePointer
its_pointer = record { file_id = 0; value_size = 2; offset = 13 }

abbrev kept_file : List TableFile
kept_file = (codes "t", (codes "d", its_pointer) ∷ []) ∷ []

abbrev kept_disk : Disk
kept_disk =
    (codes "t", table_bytes ((codes "d", its_pointer) ∷ []))
    ∷ (segment (codes "db.vlog") 0, log_bytes (logged_item 0))
    ∷ (codes "db.manifest", file_bytes (codes "t" ∷ []))
    ∷ []

abbrev kept_writer : VLogWriter
kept_writer = record {
  base_path = codes "db.vlog";
  current_file_id = 0;
  current_size = length (log_bytes (logged_item 0));
  buffer = [];
  is_dirty = false;
}

abbrev kept_database : VortexDb
kept_database = record empty_database {
  memtable = (codes "a", its_pointer) ∷ [];
  writer = kept_writer;
  reader = record { base_path = codes "db.vlog"; handle_cache = []; lru_list = [] };
  db_name = codes "db";
  sstables = tables_of kept_file;
}

kept_writer-IsOpen : IsOpen kept_writer kept_disk
unfolding contents Map.find segment lex to_string
kept_writer-IsOpen = record {
  size = refl;
  dirty = λ h. absurd (omega arith);
  bounded = omega arith;
  small = omega arith;
  fresh = λ id h. ground (arith, h, segment-eq (codes "db.vlog") id 0);
}

kept_database-IsPlaced : IsPlaced kept_database kept_disk
unfolding Map.find lex segment to_string
kept_database-IsPlaced = record { base = refl; bytes = log_bytes (logged_item 0); there = refl }

kept_database-IsKept : IsKept kept_file kept_database kept_disk
unfolding Map.find lex segment to_string names_of
kept_database-IsKept = record {
  listed = refl;
  few = omega arith;
  short = (omega arith, tt);
  tables = refl;
  stored = ((record { sorted = (tt, tt); few = omega arith; fits = omega arith }, refl), tt);
  apart = ((λ id. refl, refl), tt);
}

new-save_index_example :
    (db' : VortexDb) × (d' : Disk) × (new
        (λ n. 0)
        (λ n k. 0)
        5
        (codes "db")
        (save_index kept_database kept_disk).1
      ≡ ok (db', d'))
    × (db'.memtable ≡ kept_database.memtable)
    × (db'.sstables ≡ kept_database.sstables)
    × (db'.manifest.sst_filenames ≡ names_of kept_file)
    × (db'.filter
        ≡ (replay_all
            (note_key (λ n k. 0))
            logged_item
            (discover_vlog_segments (codes "db") (save_index kept_database kept_disk).1)
            (Cuckoo.new 10000, 0)).0)
    × IsOpen db'.writer d'
    × ((id : ℕ) → logical db'.writer d' id ≡ logical kept_writer kept_disk id)
unfolding discover_vlog_segments save_index Map.insert lex segment to_string begins_with stoul flush
    of_digits logical contents Map.find to_tag of_tag log_bytes Writer.entry_bytes le_bytes
    Writer.body_bytes
new-save_index_example =
    new-save_index kept_database kept_disk kept_writer-IsOpen kept_database-IsPlaced (λ n. 0)
      (λ n k. 0) 5 (codes "a", its_pointer) [] kept_file logged_item refl (tt, tt)
      (
        (
          omega arith,
          record { file_id = omega arith; value_size = omega arith; offset = omega arith },
        ),
        tt,
      )
      (omega arith) (omega arith) kept_database-IsKept
      (
        record {
          fits = ((omega arith, (refl, omega arith)), tt);
          holds = refl;
          small = omega arith;
          more = omega arith;
        },
        tt,
      )
