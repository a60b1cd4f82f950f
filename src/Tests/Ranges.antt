-- ===== src/Tests/Ranges.antt =====
-- Ranges over a memtable and a table (src/vortex.cpp).
use vortex_db.Base.{◌≡◌, refl, false, some, none, List, [], ◌∷◌, arith}
use vortex_db.Base.Words.{Bytes, le_bytes}
use vortex_db.Base.Order.{lex, is_lt}
use vortex_db.Base.Decimal.{to_string}
use vortex_db.Base.Map
use vortex_db.Base.Map.{Map, IsSorted}
use vortex_db.Files.{ok, Disk}
use vortex_db.Vlog.{string, to_tag, of_tag, ValuePointer, VortexData}
use vortex_db.Vlog.Writer.{segment, contents}
use vortex_db.Vlog.Reader.{VLogReader}
use vortex_db.Vlog.Points.{Points, value_bytes}
use vortex_db.Vlog.Cache.{IsCoherent}
use vortex_db.SsTable.{table_bytes}
use vortex_db.Engine.State.{VortexDb}
use vortex_db.Engine.Tables.{TableFile, tables_of, newest}
use vortex_db.Engine.Merge.Sources.{first, weight}
use vortex_db.Engine.Merge.Views.{from_target}
use vortex_db.Engine.Range.{get_range_internal}
use vortex_db.Engine.Range.Shown.{shown}
use vortex_db.Engine.Range.Sources.{sources, newest_files, IsServing}
use vortex_db.Engine.Range.Answer.{get_range_internal-sources}
use vortex_db.Engine.Range.Exact.{get_range_internal-exact}
use vortex_db.Tests.Databases.{database_name, empty_database, the_value}

abbrev held : VortexData
held = record { type = string; value = the_value }

-- Every pointer here leads to the one value.
abbrev load : ValuePointer → VortexData
load p = held

abbrev the_pointer : ValuePointer
the_pointer = record { file_id = 0; value_size = 2; offset = 4 }

abbrev one_file : List TableFile
one_file = (b't' ∷ [], (b'b' ∷ [], the_pointer) ∷ (b'd' ∷ [], the_pointer) ∷ []) ∷ []

abbrev range_disk : Disk
range_disk =
    (b't' ∷ [], table_bytes ((b'b' ∷ [], the_pointer) ∷ (b'd' ∷ [], the_pointer) ∷ []))
    ∷ (segment database_name 0, value_bytes held [])
    ∷ []

abbrev range_database : VortexDb
range_database = record empty_database {
  memtable = (b'a' ∷ [], the_pointer) ∷ (b'b' ∷ [], the_pointer) ∷ [];
  sstables = tables_of one_file;
}

the_pointer-Points : Points (contents (segment database_name 0) range_disk) the_pointer held
unfolding contents Map.find segment lex to_tag of_tag le_bytes to_string
the_pointer-Points = record {
  front = 0;
  back = [];
  ahead = refl;
  offset = refl;
  size = refl;
  small = omega arith;
  short = omega arith;
  type = (refl, omega arith);
}

range_database-IsServing : IsServing load one_file range_database range_disk
unfolding Map.find lex
range_database-IsServing = record {
  sorted = ((refl, tt), (tt, tt));
  tables = refl;
  stored = (
    (record { sorted = ((refl, tt), (tt, tt)); few = omega arith; fits = omega arith }, refl),
    tt,
  );
  coherent = record { entries = tt; bounded = omega arith };
  loaded = (the_pointer-Points, (the_pointer-Points, tt));
  loaded_tables = ((the_pointer-Points, (the_pointer-Points, tt)), tt);
}

get_range_internal-sources_example :
    (results : Map Bytes) × (r' : VLogReader) × (get_range_internal 5
        (b'a' ∷ [])
        []
        range_database
        range_disk
      ≡ ok (results, r'))
    × IsCoherent r' range_disk
    × IsSorted results
    × ((j : Bytes)
        → Map.find j results
          ≡ shown load [] j (first j (sources (b'a' ∷ []) range_database.memtable one_file)))
unfolding weight Map.lower_bound lex newest_files from_target
get_range_internal-sources_example =
    get_range_internal-sources load 5 (b'a' ∷ []) [] one_file range_database range_disk
      range_database-IsServing (omega arith)

get_range_internal-exact_example :
    (results : Map Bytes) × (r' : VLogReader) × (get_range_internal 5
        (b'a' ∷ [])
        []
        range_database
        range_disk
      ≡ ok (results, r'))
    × IsSorted results
    × ((j : Bytes)
        → is_lt (lex j (b'a' ∷ [])) ≡ false
        → Map.find j results
          ≡ shown load [] j (elim (Map.find j range_database.memtable) [
            | some p ↦ some p
            | none ↦ newest j one_file
          ]))
unfolding weight Map.lower_bound lex newest_files from_target
get_range_internal-exact_example =
    get_range_internal-exact load 5 (b'a' ∷ []) [] one_file range_database range_disk
      range_database-IsServing (omega arith)
