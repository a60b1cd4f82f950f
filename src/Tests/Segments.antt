-- ===== src/Tests/Segments.antt =====
-- Deletion, and ranges with the writer opened again (src/vortex.cpp).
use vortex_db.Base.{
  ℕ, ◌<◌, ◌^◌, ◌≡◌, refl, false, none, some, List, [], ◌∷◌, ◌++◌, length, arith, All,
}
use vortex_db.Base.Words.{Bytes, le_bytes}
use vortex_db.Base.Order.{lex, is_lt}
use vortex_db.Base.Decimal.{to_string}
use vortex_db.Base.Map
use vortex_db.Base.Map.{Map, IsSorted}
use vortex_db.Files.{ok, indeterminate, Disk}
use vortex_db.Text.{codes}
use vortex_db.Vlog.{string, to_tag, of_tag, ValuePointer, VortexData}
use vortex_db.Vlog.Writer
use vortex_db.Vlog.Writer.{
  VLogWriter, segment, contents, append_file, append_entry, append_small, flush,
}
use vortex_db.Vlog.Log.{IsOpen, logical, segment-eq}
use vortex_db.Vlog.Points.{Points, value_bytes}
use vortex_db.SsTable.{table_bytes}
use vortex_db.Engine.State.{VortexDb, store}
use vortex_db.Vlog.Reader.{read_value, find_cached, close_all}
use vortex_db.Files.{read, read_word, need_word}
use vortex_db.Engine.Tables.{TableFile, tables_of, newest}
use vortex_db.Engine.Merge.Sources.{weight}
use vortex_db.Engine.Merge.Views.{from_target}
use vortex_db.Engine.Range.Shown.{shown}
use vortex_db.Engine.Range.Sources.{newest_files}
use vortex_db.Engine.Segments.{discover_vlog_segments, get_range, get_prefix}
use vortex_db.Engine.Segments.Discovered.{IsIn, IsOrdered, discover_vlog_segments-IsOrdered}
use vortex_db.Engine.Segments.Answered.{IsWhole, Leaves, get_range-exact}
use vortex_db.Engine.Segments.Prefix.{get_prefix_complete}
use vortex_db.Engine.Compact.{rewrite_index, compact}
use vortex_db.Engine.Compact.Merged.{compact-newest}
use vortex_db.Tests.Databases.{stored_database, empty_database}

abbrev held : VortexData
held = record { type = string; value = codes "42" }

-- Every pointer here leads to the one value.
abbrev load : ValuePointer → VortexData
load p = held

abbrev the_pointer : ValuePointer
the_pointer = record { file_id = 0; value_size = 2; offset = 4 }

abbrev one_file : List TableFile
one_file = (codes "t", (codes "ab", the_pointer) ∷ (codes "d", the_pointer) ∷ []) ∷ []

abbrev whole_disk : Disk
whole_disk =
    (codes "t", table_bytes ((codes "ab", the_pointer) ∷ (codes "d", the_pointer) ∷ []))
    ∷ (segment (codes "db.vlog") 0, value_bytes held [])
    ∷ []

abbrev whole_writer : VLogWriter
whole_writer = record {
  base_path = codes "db.vlog";
  current_file_id = 0;
  current_size = length (value_bytes held []);
  buffer = [];
  is_dirty = false;
}

abbrev whole_database : VortexDb
whole_database = record empty_database {
  memtable = (codes "a", the_pointer) ∷ (codes "ab", the_pointer) ∷ [];
  writer = whole_writer;
  reader = record { base_path = codes "db.vlog"; handle_cache = []; lru_list = [] };
  db_name = codes "db";
  sstables = tables_of one_file;
}

whole_writer-IsOpen : IsOpen whole_writer whole_disk
unfolding contents Map.find segment lex to_string
whole_writer-IsOpen = record {
  size = refl;
  dirty = λ h. absurd (omega arith);
  bounded = omega arith;
  small = omega arith;
  fresh = λ id h. ground (arith, h, segment-eq (codes "db.vlog") id 0);
}

the_pointer-Points : Points (logical whole_writer whole_disk 0) the_pointer held
unfolding logical contents Map.find segment lex to_tag of_tag le_bytes to_string
the_pointer-Points = record {
  front = 0;
  back = [];
  ahead = refl;
  offset = refl;
  size = refl;
  small = omega arith;
  short = omega arith;
  type = (refl, omega arith);
}

whole_database-IsWhole : IsWhole load one_file whole_database whole_disk
unfolding Map.find lex segment to_string
whole_database-IsWhole = record {
  ready = record { opened = whole_writer-IsOpen; base = refl; entries = tt; bounded = omega arith };
  placed = record { base = refl; bytes = value_bytes held []; there = refl };
  sorted = ((refl, tt), (tt, tt));
  tables = refl;
  stored = (
    (record { sorted = ((refl, tt), (tt, tt)); few = omega arith; fits = omega arith }, refl),
    tt,
  );
  apart = (refl, tt);
  logged = (the_pointer-Points, (the_pointer-Points, tt));
  logged_tables = ((the_pointer-Points, (the_pointer-Points, tt)), tt);
}

get_range-exact_example :
    (results : Map Bytes) × (db' : VortexDb) × (d' : Disk) × (get_range 5
        (codes "ab")
        (codes "c")
        whole_database
        whole_disk
      ≡ ok (results, db', d'))
    × IsSorted results
    × ((j : Bytes)
        → is_lt (lex j (codes "ab")) ≡ false
        → Map.find j results
          ≡ shown load (codes "c") j (elim (Map.find j whole_database.memtable) [
            | some p ↦ some p
            | none ↦ newest j one_file
          ]))
    × Leaves whole_database whole_disk db' d'
unfolding weight Map.lower_bound lex newest_files from_target
get_range-exact_example =
    get_range-exact load 5 (codes "ab") (codes "c") one_file whole_database whole_disk
      whole_database-IsWhole (omega arith)

get_prefix_complete_example :
    (results : Map Bytes) × (db' : VortexDb) × (d' : Disk) × (get_prefix 5
        (codes "a")
        whole_database
        whole_disk
      ≡ ok (results, db', d'))
    × IsSorted results
    × ((s : Bytes)
        → Map.find (codes "a" ++ s) results
          ≡ shown load []
              (codes "a" ++ s)
              (elim (Map.find (codes "a" ++ s) whole_database.memtable) [
                | some p ↦ some p
                | none ↦ newest (codes "a" ++ s) one_file
              ]))
    × Leaves whole_database whole_disk db' d'
unfolding weight Map.lower_bound lex newest_files from_target
get_prefix_complete_example =
    get_prefix_complete load 5 (codes "a") one_file whole_database whole_disk (omega arith)
      whole_database-IsWhole (omega arith)

discover_vlog_segments-IsOrdered_example :
    IsOrdered (discover_vlog_segments (codes "db") whole_disk)
    × All (λ i. i < 2 ^ 32) (discover_vlog_segments (codes "db") whole_disk)
    × ((id : ℕ) (bs : Bytes)
        → id < 2 ^ 32
        → Map.find (segment (codes "db" ++ codes ".vlog") id) whole_disk ≡ some bs
        → IsIn id (discover_vlog_segments (codes "db") whole_disk))
discover_vlog_segments-IsOrdered_example = discover_vlog_segments-IsOrdered (codes "db") whole_disk

compact-newest_example :
    (merged_index : Map ValuePointer) × (compact (λ n k. 0) 0 whole_database whole_disk
      ≡ rewrite_index (λ n k. 0) 0 merged_index whole_database whole_disk)
    × IsSorted merged_index
    × ((k : Bytes)
        → Map.find k merged_index ≡ (elim (Map.find k whole_database.memtable) [
          | some p ↦ some p
          | none ↦ newest k one_file
        ]))
compact-newest_example =
    compact-newest (λ n k. 0) 0 one_file whole_database whole_disk refl
      whole_database-IsWhole.stored whole_database-IsWhole.sorted

-- The value that is in the buffer alone is not there when it is compacted.
compact_buffered : compact (λ n k. 0) 0 stored_database.0 stored_database.1 ≡ indeterminate
unfolding compact rewrite_index store Map.insert read_value find_cached close_all Map.find
    Writer.new append_file append_entry append_small contents lex segment to_string need_word
    read_word read
compact_buffered = refl
