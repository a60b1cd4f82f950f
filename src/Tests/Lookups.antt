-- ===== src/Tests/Lookups.antt =====
-- Lookups in tables at small inputs (src/vortex.cpp).
use vortex_db.Base.{All, ℕ, ◌≡◌, refl, List, [], ◌∷◌, arith}
use vortex_db.Base.Words.{le_bytes}
use vortex_db.Base.Map.{find}
use vortex_db.Files.{ok, Disk}
use vortex_db.Vlog.{string, to_tag, of_tag, ValuePointer}
use vortex_db.Vlog.Writer.{segment, contents}
use vortex_db.Vlog.Reader.{VLogReader}
use vortex_db.Vlog.Cache.{IsCoherent}
use vortex_db.Base.Order.{lex}
use vortex_db.Base.Decimal.{to_string}
use vortex_db.Engine.State.{VortexDb, get, find_in_tables, newest_first, answer}
use vortex_db.Vlog.{VortexData}
use vortex_db.Engine.Tables.{
  TableFile, tables_of, IsStored, newest, find_in_tables-newest, get-newest,
}
use vortex_db.SsTable.{table_bytes}
use vortex_db.Vlog.Points.{Points, value_bytes}
use vortex_db.Tests.Databases.{
  database_name, empty_database, the_key, the_value, stored_database, stored_database-Stores,
}

-- Two tables; the key is in both.
abbrev pointer_to : ℕ → ValuePointer
pointer_to n = record { file_id = 0; value_size = 2; offset = n }

abbrev two_files : List TableFile
two_files =
    (b'1' ∷ [], (the_key, pointer_to 99) ∷ []) ∷ (b'2' ∷ [], (the_key, pointer_to 4) ∷ []) ∷ []

abbrev held : VortexData
held = record { type = string; value = the_value }

abbrev tables_disk : Disk
tables_disk =
    (b'1' ∷ [], table_bytes ((the_key, pointer_to 99) ∷ []))
    ∷ (b'2' ∷ [], table_bytes ((the_key, pointer_to 4) ∷ []))
    ∷ (segment database_name 0, value_bytes held [])
    ∷ []

two_files-IsStored : All (IsStored tables_disk) two_files
unfolding find lex
two_files-IsStored = (
  (record { sorted = (tt, tt); few = omega arith; fits = omega arith }, refl),
  ((record { sorted = (tt, tt); few = omega arith; fits = omega arith }, refl), tt),
)

find_in_tables-newest_example :
    find_in_tables (newest_first (tables_of two_files)) the_key tables_disk
    ≡ ok (newest the_key two_files)
find_in_tables-newest_example =
    find_in_tables-newest two_files the_key tables_disk two_files-IsStored

-- The database with the two tables, and the filter of the one that stores the key.
abbrev tables_database : VortexDb
tables_database = record empty_database {
  filter = stored_database.0.filter;
  sstables = tables_of two_files;
}

held-Points : Points (contents (segment database_name 0) tables_disk) (pointer_to 4) held
unfolding contents find segment lex to_tag of_tag le_bytes to_string
held-Points = record {
  front = 0;
  back = [];
  ahead = refl;
  offset = refl;
  size = refl;
  small = omega arith;
  short = omega arith;
  type = (refl, omega arith);
}

get-newest_example :
    (r' : VLogReader) × (get the_key tables_database tables_disk
      ≡ ok (answer held, record tables_database { reader = r' }, tables_disk))
    × IsCoherent r' tables_disk
unfolding find newest lex
get-newest_example =
    get-newest two_files the_key tables_database tables_disk (pointer_to 4) held refl
      stored_database-Stores.listed refl two_files-IsStored refl
      (record { entries = tt; bounded = omega arith }) held-Points
