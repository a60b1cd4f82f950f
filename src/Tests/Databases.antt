-- ===== src/Tests/Databases.antt =====
-- The engine at small inputs (src/vortex.cpp).
use vortex_db.Base.{zero, suc, ◌↔◌, true, none, ℕ, ◌+◌, ◌≡◌, refl, List, [], ◌∷◌, arith, inl}
use vortex_db.Base.Words.{Bytes, le_bytes}
use vortex_db.Base.Map.{Map, find}
use vortex_db.Files.{ok, Disk}
use vortex_db.Vlog.{string, int, double, bool, json, tombstone, to_tag, of_tag, ValuePointer}
use vortex_db.Vlog.Writer
use vortex_db.Vlog.Writer.{segment, contents, VLogWriter}
use vortex_db.Vlog.Reader.{VLogReader, Cursor}
use vortex_db.Vlog.Log.{new-IsOpen}
use vortex_db.Vlog.Cache.{IsCoherent}
use vortex_db.Vlog.ReadBack.{Item}
use vortex_db.Cuckoo
use vortex_db.Cuckoo.{hash_string, create_fingerprint, get_index, get_alt_index, hash_int}
use vortex_db.Cuckoo.Valid.{new-IsValid}
use vortex_db.Cuckoo.Membership.{has}
use vortex_db.Base.Order.{lex}
use vortex_db.Base.Decimal.{to_string}
use vortex_db.Manifest
use vortex_db.Engine.Infer.{infer_type, is_integer, infer_type-int}
use vortex_db.Engine.Scan.{scan_segment, fresh_cursor, is_tombstone}
use vortex_db.Engine.Replay.{log_bytes, replay, scan_segment-replay}
use vortex_db.Engine.Recover.{recover_from_vlog}
use vortex_db.Engine.Recovered.{entries_of, recover_from_vlog-IsRecovered}
use vortex_db.Engine.Latest.{IsRecovered, latest}
use vortex_db.Engine.State.{
  newest_first, find_in_tables, VortexDb, put, get, store, save_index, get_type,
}
use vortex_db.Engine.Index.{load_index, load_index-save_index}
use vortex_db.Engine.Lookup.{IsSound, IsSame, get-Holds, get_type-Holds}
use vortex_db.Engine.Reaches.{IsNoDatabase}
use vortex_db.Engine.Store.{IsStorable, Stores, Others, inferred, put-Stores, store-Stores}

-- Types that are inferred; a point alone counts as a number.
inferred_types :
    (infer_type (b'4' ∷ b'2' ∷ []) ≡ int)
    × (infer_type (b'-' ∷ b'1' ∷ b'.' ∷ b'5' ∷ []) ≡ double)
    × (infer_type (b't' ∷ b'r' ∷ b'u' ∷ b'e' ∷ []) ≡ bool)
    × (infer_type (b'{' ∷ b'}' ∷ []) ≡ json)
    × (infer_type (b'1' ∷ b'x' ∷ []) ≡ string)
    × (infer_type (b'.' ∷ []) ≡ double)
unfolding infer_type lex
inferred_types = (refl, refl, refl, refl, refl, refl)

abbrev pub database_name : Bytes
database_name = b'd' ∷ b'b' ∷ []

abbrev pub opened_database : VLogWriter × Disk
opened_database = Writer.new database_name 0 []

abbrev pub empty_database : VortexDb
empty_database = record {
  memtable = [];
  writer = opened_database.0;
  reader = record { base_path = database_name; handle_cache = []; lru_list = [] };
  db_name = database_name;
  filter = Cuckoo.new 3;
  sstables = [];
  manifest = Manifest.new (b'm' ∷ []);
}

abbrev pub empty_disk : Disk
empty_disk = opened_database.1

abbrev pub the_key : Bytes
the_key = b'k' ∷ []

abbrev pub the_value : Bytes
the_value = b'4' ∷ b'2' ∷ []

abbrev pub no_draws : ℕ → ℕ
no_draws n = 0

pub empty_database-IsSound : IsSound empty_database empty_disk
unfolding contents find Writer.new
empty_database-IsSound = record {
  ready = record {
    opened = (new-IsOpen database_name 0 [] (omega arith) (λ j h. refl)).0;
    base = refl;
    entries = tt;
    bounded = omega arith;
  };
  table = (new-IsValid 3 (omega arith) (omega arith)).table;
}

-- There is no database in a database with no keys.
pub empty_database-IsNoDatabase : (key : Bytes) → IsNoDatabase key empty_database empty_disk
unfolding find newest_first find_in_tables
empty_database-IsNoDatabase key x r = absurd (ground (arith, r.found))

the_key-IsStorable : IsStorable the_key the_value empty_database
unfolding Cuckoo.new hash_string create_fingerprint get_index get_alt_index hash_int has Writer.new
the_key-IsStorable = record { short = omega arith; room = omega arith; free = refl }

put-Stores_example :
    (s : VortexDb × Disk) × (put no_draws 0 the_key the_value empty_database empty_disk ≡ ok s)
    × Stores the_key the_value empty_database empty_disk s
    × Others the_key empty_database empty_disk s
unfolding find
put-Stores_example =
    put-Stores no_draws 0 the_key the_value empty_database empty_disk empty_database-IsSound
      the_key-IsStorable (omega arith) (inl refl) (empty_database-IsNoDatabase the_key) tt

-- The state with one key.
abbrev pub stored_database : VortexDb × Disk
stored_database = store no_draws the_key the_value empty_database empty_disk

pub stored_database-Stores : Stores the_key the_value empty_database empty_disk stored_database
stored_database-Stores =
    store-Stores no_draws the_key the_value empty_database empty_disk empty_database-IsSound
      the_key-IsStorable

get-Holds_example :
    (db' : VortexDb) × (d' : Disk) × (get the_key stored_database.0 stored_database.1
      ≡ ok (the_value, db', d'))
    × IsSame stored_database.0 stored_database.1 db' d'
unfolding infer_type lex is_tombstone
get-Holds_example =
    get-Holds the_key stored_database.0 stored_database.1 (inferred the_value)
      stored_database-Stores.sound stored_database-Stores.holds refl stored_database-Stores.listed

abbrev logged : List Item
logged =
    (the_key, record { type = string; value = the_value })
    ∷ (the_key, record { type = tombstone; value = [] })
    ∷ []

abbrev logged_disk : Disk
logged_disk = (segment database_name 0, log_bytes logged) ∷ []

abbrev count : Cursor → ℕ → ℕ
count c n = n + 1

scan_segment-replay_example :
    (r' : VLogReader) × (scan_segment count 5 0 fresh_cursor empty_database.reader logged_disk 0
      ≡ ok (replay count 0 0 logged 0, r'))
    × IsCoherent r' logged_disk
    × (r'.base_path ≡ database_name)
unfolding to_tag of_tag contents find segment lex to_string log_bytes Writer.entry_bytes le_bytes
    Writer.body_bytes
scan_segment-replay_example =
    scan_segment-replay count logged 5 0 empty_database.reader logged_disk 0 (omega arith)
      ((omega arith, (refl, omega arith)), ((omega arith, (refl, omega arith)), tt)) refl
      (omega arith) (record { entries = tt; bounded = omega arith })

-- A database with one key in its memtable.
abbrev indexed_database : VortexDb
indexed_database = record empty_database {
  memtable = (the_key, record { file_id = 0; value_size = 2; offset = 13 }) ∷ [];
}

load_index-save_index_example :
    load_index 2
      (record (save_index indexed_database empty_disk).0 { memtable = [] })
      (save_index indexed_database empty_disk).1
    ≡ ok (save_index indexed_database empty_disk).0
load_index-save_index_example =
    load_index-save_index 2 indexed_database [] empty_disk (omega arith) (tt, tt) (omega arith)

-- The segments of a log: the key is deleted in the first one, and comes back in the second.
abbrev both_logged : ℕ → List Item
both_logged zero = logged
both_logged (suc _) = (the_key, record { type = int; value = the_value }) ∷ []

abbrev both_disk : Disk
both_disk =
    (segment database_name 0, log_bytes (both_logged 0))
    ∷ (segment database_name 1, log_bytes (both_logged 1))
    ∷ []

recover_from_vlog-IsRecovered_example :
    (r' : VLogReader) × (m' : Map ValuePointer) × (recover_from_vlog no_draws 5
        (0 ∷ 1 ∷ [])
        indexed_database
        both_disk
      ≡ ok (save_index (record indexed_database { reader = r'; memtable = m' }) both_disk))
    × IsCoherent r' both_disk
    × ((key : Bytes)
        → IsRecovered
            (λ id. contents (segment database_name id) both_disk)
            (latest key (entries_of both_logged (0 ∷ 1 ∷ [])))
            none
            (find key m'))
unfolding to_tag of_tag contents find segment lex to_string log_bytes Writer.entry_bytes le_bytes
    Writer.body_bytes entries_of
recover_from_vlog-IsRecovered_example =
    recover_from_vlog-IsRecovered no_draws both_logged 5 (0 ∷ 1 ∷ []) indexed_database both_disk
      (
        record {
          fits = ((omega arith, (refl, omega arith)), ((omega arith, (refl, omega arith)), tt));
          holds = refl;
          small = omega arith;
          more = omega arith;
        },
        (
          record {
            fits = ((omega arith, (refl, omega arith)), tt);
            holds = refl;
            small = omega arith;
            more = omega arith;
          },
          tt,
        ),
      )
      (omega arith) (record { entries = tt; bounded = omega arith })

get_type-Holds_example :
    (db' : VortexDb) × (d' : Disk) × (get_type the_key stored_database.0 stored_database.1
      ≡ ok (infer_type the_value, db', d'))
    × IsSame stored_database.0 stored_database.1 db' d'
get_type-Holds_example =
    get_type-Holds the_key stored_database.0 stored_database.1 (inferred the_value)
      stored_database-Stores.sound stored_database-Stores.holds stored_database-Stores.listed

infer_type-int_example : (infer_type the_value ≡ int) ↔ (is_integer the_value ≡ true)
infer_type-int_example = infer_type-int the_value
