-- ===== src/Vlog/Writer.antt =====
-- `VLogWriter` of src/vlog.h and src/vlog.cpp. The segment files are always open in the model.
-- `buffer` is the part of the array that is in use, so that `buffer_pos` is its length.
use vortex_db.Base.{
  ℕ, ◌+◌, ◌*◌, Bool, true, false, ◌&&◌, ◌||◌, none, some, [], ◌∷◌, ◌++◌, ltb, if◌then◌else◌, length,
}
use vortex_db.Base.Words.{Bytes, u32, u64, le_bytes}
use vortex_db.Base.Decimal.{to_string}
use vortex_db.Base.Map.{find, insert}
use vortex_db.Files.{Disk}
use vortex_db.Vlog.{ValueType, ValuePointer, to_tag}
use vortex_db.Vlog.Crc.{calculate_crc32}

abbrev pub max_log_size : ℕ
max_log_size = 5 * 1024 * 1024

abbrev pub buffer_size : ℕ
buffer_size = 64 * 1024

pub record VLogWriter : Type 0 where
  pub base_path : Bytes
  pub current_file_id : ℕ
  pub current_size : ℕ
  pub buffer : Bytes
  pub is_dirty : Bool

-- `base_path + "." + std::to_string(id)`
unfoldable pub segment : Bytes → ℕ → Bytes
segment base_path id = base_path ++ 46 ∷ to_string id

-- The bytes of a file; a file that is not there has none.
unfoldable pub contents : Bytes → Disk → Bytes
contents name d = elim (find name d) [ none ↦ [] | some bs ↦ bs ]

-- `log_file.write` at the end of the file.
unfoldable pub append_file : Bytes → Bytes → Disk → Disk
append_file name bs d = insert name (contents name d ++ bs) d

abbrev pub active : VLogWriter → Bytes
active w = segment w.base_path w.current_file_id

-- The constructor opens with `app`: a segment that exists is kept.
unfoldable pub new : Bytes → ℕ → Disk → VLogWriter × Disk
new filepath start_file_id d =
    let d' = append_file (segment filepath start_file_id) [] d in
    (
      record {
        base_path = filepath;
        current_file_id = start_file_id;
        current_size = length (contents (segment filepath start_file_id) d');
        buffer = [];
        is_dirty = false;
      },
      d',
    )

unfoldable pub flush : Bool → VLogWriter → Disk → VLogWriter × Disk
flush force w d =
    if ltb 0 (length w.buffer) && (w.is_dirty || force)
    then (
      record w { current_size = w.current_size + length w.buffer; buffer = []; is_dirty = false },
      append_file (active w) w.buffer d,
    )
    else (w, d)

-- The new segment is opened with `trunc`.
unfoldable pub rotate : VLogWriter → Disk → VLogWriter × Disk
rotate w d =
    let (w₁, d₁) = flush true w d in
    let w₂ : VLogWriter = record w₁ {
      current_file_id = u32 (w₁.current_file_id + 1);
      current_size = 0;
      buffer = [];
      is_dirty = false;
    } in
    (w₂, insert (active w₂) [] d₁)

-- What the checksum covers: the entry without its first four bytes.
unfoldable pub body_bytes : Bytes → Bytes → ValueType → Bytes
body_bytes key value type =
    le_bytes 4 (u32 (length key))
    ++ (key ++ (le_bytes 4 (u32 (length value)) ++ (to_tag type ∷ value)))

unfoldable pub entry_bytes : Bytes → Bytes → ValueType → Bytes
entry_bytes key value type =
    let body = body_bytes key value type in le_bytes 4 (calculate_crc32 body) ++ body

-- The sum is one of `uint32_t`, before it is widened.
abbrev pub total_entry_size : Bytes → Bytes → ℕ
total_entry_size key value = u32 (4 + 4 + u32 (length key) + 4 + 1 + u32 (length value))

-- An entry that is larger than the buffer goes to the file at once.
unfoldable pub append_large :
    Bytes → Bytes → ValueType → VLogWriter → Disk → VLogWriter × Disk × ValuePointer
append_large key value type w d =
    let (w₁, d₁) = flush true w d in
    let start_pos : ℕ = w₁.current_size in
    (
      record w₁ { current_size = w₁.current_size + total_entry_size key value; is_dirty = false },
      append_file (active w₁) (entry_bytes key value type) d₁,
      record {
        file_id = w₁.current_file_id;
        value_size = u32 (length value);
        offset = u64 (start_pos + 12 + u32 (length key));
      },
    )

unfoldable pub append_small :
    Bytes → Bytes → ValueType → VLogWriter → Disk → VLogWriter × Disk × ValuePointer
append_small key value type w d =
    let (w₁, d₁) =
      if ltb buffer_size (length w.buffer + total_entry_size key value)
      then flush true w d
      else (w, d) in
    let start_pos_virtual : ℕ = w₁.current_size + length w₁.buffer in
    (
      record w₁ { buffer = w₁.buffer ++ entry_bytes key value type; is_dirty = true },
      d₁,
      record {
        file_id = w₁.current_file_id;
        value_size = u32 (length value);
        offset = u64 (start_pos_virtual + 12 + u32 (length key));
      },
    )

unfoldable pub append_entry :
    Bytes → Bytes → ValueType → VLogWriter → Disk → VLogWriter × Disk × ValuePointer
append_entry key value type w d =
    let total : ℕ = total_entry_size key value in
    let (w₁, d₁) =
      if ltb max_log_size (w.current_size + length w.buffer + total) then rotate w d else (w, d) in
    if ltb buffer_size total
    then append_large key value type w₁ d₁
    else append_small key value type w₁ d₁
