-- ===== src/Tests/Logs.antt =====
-- The value log at small inputs (src/vlog.cpp).
use vortex_db.Base.{ℕ, ◌+◌, ◌≡◌, refl, List, [], ◌∷◌, arith, false, true}
use vortex_db.Base.Words.{Bytes, le_bytes}
use vortex_db.Files.{Disk, ok}
use vortex_db.Vlog.{string, tombstone, to_tag, of_tag, VortexData, ValuePointer}
use vortex_db.Vlog.Points.{Points, value_bytes}
use vortex_db.Base.Order.{lex}
use vortex_db.Base.Decimal.{to_string}
use vortex_db.Vlog.Crc.{calculate_crc32}
use vortex_db.Base.Map.{find}
use vortex_db.Vlog.Writer
use vortex_db.Vlog.Writer.{segment, contents, VLogWriter, flush, rotate, append_entry}
use vortex_db.Vlog.Reader.{VLogReader, read_value}
use vortex_db.Vlog.Log.{logical, new-IsOpen, IsOpen, Keeps, rotate-Keeps, flush-contents}
use vortex_db.Vlog.Append.{Appends, append_entry-Appends}
use vortex_db.Vlog.Cache.{IsCoherent, read_value-Points}
use vortex_db.Vlog.ReadBack.{Item, append_all, Reads, read_value-append_all}

-- The check value of CRC-32.
crc_check :
    calculate_crc32 (b'1' ∷ b'2' ∷ b'3' ∷ b'4' ∷ b'5' ∷ b'6' ∷ b'7' ∷ b'8' ∷ b'9' ∷ []) ≡ 0xcbf43926
unfolding calculate_crc32
crc_check = refl

abbrev log_name : Bytes
log_name = b'v' ∷ []

-- A writer on an empty directory.
abbrev opened_log : VLogWriter × Disk
opened_log = Writer.new log_name 0 []

abbrev fresh_writer : VLogWriter
fresh_writer = opened_log.0

abbrev fresh_disk : Disk
fresh_disk = opened_log.1

new-IsOpen_example :
    IsOpen (Writer.new log_name 0 []).0 (Writer.new log_name 0 []).1
    × ((j : ℕ)
        → logical (Writer.new log_name 0 []).0 (Writer.new log_name 0 []).1 j
          ≡ contents (segment log_name j) [])
unfolding contents find
new-IsOpen_example = new-IsOpen log_name 0 [] (omega arith) (λ j h. refl)

fresh_writer-IsOpen : IsOpen fresh_writer fresh_disk
unfolding contents find
fresh_writer-IsOpen = (new-IsOpen log_name 0 [] (omega arith) (λ j h. refl)).0

abbrev greeting : Item
greeting = (b'k' ∷ [], record { type = string; value = b'h' ∷ b'i' ∷ [] })

abbrev items : List Item
items = greeting ∷ (b'k' ∷ [], record { type = tombstone; value = [] }) ∷ []

abbrev fresh_reader : VLogReader
fresh_reader = record { base_path = log_name; handle_cache = []; lru_list = [] }

fresh_reader-IsCoherent : (d : Disk) → IsCoherent fresh_reader d
fresh_reader-IsCoherent d = record { entries = tt; bounded = omega arith }

rotate-Keeps_example :
    Keeps fresh_writer fresh_disk (rotate fresh_writer fresh_disk)
    × ((rotate fresh_writer fresh_disk).0.current_file_id ≡ fresh_writer.current_file_id + 1)
unfolding Writer.new
rotate-Keeps_example = rotate-Keeps fresh_writer fresh_disk fresh_writer-IsOpen (omega arith)

-- A writer with two bytes in its buffer.
abbrev buffered_writer : VLogWriter
buffered_writer = record fresh_writer { buffer = 1 ∷ 2 ∷ []; is_dirty = true }

flush-contents_example :
    IsOpen (flush false buffered_writer fresh_disk).0 (flush false buffered_writer fresh_disk).1
    × ((flush false buffered_writer fresh_disk).0.buffer ≡ [])
    × ((flush false buffered_writer fresh_disk).0.base_path ≡ log_name)
    × ((flush false buffered_writer fresh_disk).0.current_file_id ≡ 0)
    × ((id : ℕ)
        → contents (segment log_name id) (flush false buffered_writer fresh_disk).1
          ≡ logical buffered_writer fresh_disk id)
unfolding Writer.new
flush-contents_example = flush-contents false buffered_writer fresh_disk (record {
  size = fresh_writer-IsOpen.size;
  dirty = λ h. refl;
  bounded = omega arith;
  small = fresh_writer-IsOpen.small;
  fresh = fresh_writer-IsOpen.fresh;
})

append_entry-Appends_example :
    Appends fresh_writer fresh_disk
      (b'k' ∷ [])
      (b'v' ∷ [])
      string
      (append_entry (b'k' ∷ []) (b'v' ∷ []) string fresh_writer fresh_disk)
unfolding Writer.new
append_entry-Appends_example =
    append_entry-Appends fresh_writer fresh_disk (b'k' ∷ []) (b'v' ∷ []) string fresh_writer-IsOpen
      (omega arith) (omega arith)

read_value-append_all_example :
    Reads fresh_reader
      (flush false
        (append_all items fresh_writer fresh_disk).0
        (append_all items fresh_writer fresh_disk).1).1
      items
      (append_all items fresh_writer fresh_disk).2
unfolding to_tag of_tag Writer.new
read_value-append_all_example =
    read_value-append_all items fresh_writer fresh_disk fresh_reader fresh_writer-IsOpen
      (omega arith) ((omega arith, (refl, omega arith)), ((omega arith, (refl, omega arith)), tt))
      refl (fresh_reader-IsCoherent _)

-- A segment that holds the value of one entry, and the pointer to it.
abbrev stored : VortexData
stored = record { type = string; value = b'h' ∷ b'i' ∷ [] }

abbrev stored_pointer : ValuePointer
stored_pointer = record { file_id = 0; value_size = 2; offset = 4 }

abbrev stored_disk : Disk
stored_disk = (segment log_name 0, value_bytes stored []) ∷ []

stored-Points : Points (contents (segment log_name 0) stored_disk) stored_pointer stored
unfolding contents find segment lex to_tag of_tag le_bytes to_string
stored-Points = record {
  front = 0;
  back = [];
  ahead = refl;
  offset = refl;
  size = refl;
  small = omega arith;
  short = omega arith;
  type = (refl, omega arith);
}

read_value-Points_example :
    (r' : VLogReader) × (read_value stored_pointer fresh_reader stored_disk ≡ ok (stored, r'))
    × IsCoherent r' stored_disk
    × (r'.base_path ≡ fresh_reader.base_path)
read_value-Points_example =
    read_value-Points stored_pointer stored fresh_reader stored_disk
      (fresh_reader-IsCoherent stored_disk) stored-Points
