-- ===== src/Vlog/Durable.antt =====
-- What was appended can be read back after any further appends and a flush (src/vlog.cpp).
use vortex_db.Base.{
  ℕ, ◌+◌, ◌^◌, ◌<◌, ◌≤◌, ◌≡◌, refl, ◌∙◌, [], ◌∷◌, ◌++◌, ltb, ==_iff, if◌then◌else◌, length, arith,
  Bool-cases, inl, inr, length-append, append_assoc, append-nil, drop, drop-append, drop-append_le,
}
use vortex_db.Base.Words.{Bytes, u32, le_bytes, length-le_bytes}
use vortex_db.Files.{Disk}
use vortex_db.Vlog.{ValueType, ValuePointer, VortexData, to_tag}
use vortex_db.Vlog.Crc.{calculate_crc32}
use vortex_db.Vlog.Writer.{
  VLogWriter, max_log_size, buffer_size, contents, active, flush, rotate, body_bytes, entry_bytes,
  total_entry_size, append_large, append_small, append_entry,
}
use vortex_db.Vlog.Log.{logical, IsOpen, rotate-Keeps}
use vortex_db.Vlog.Append.{IsShort, append_entry-Appends}
use vortex_db.Vlog.Points.{IsType, Points, value_bytes}

-- The part of `append_entry` behind the rotation stays in its segment.
step-file_id :
    (w : VLogWriter) (d : Disk) (key value : Bytes) (type : ValueType)
    → (if ltb buffer_size (total_entry_size key value)
        then append_large key value type w d
        else append_small key value type w d).2.file_id
      ≡ w.current_file_id
unfolding append_large append_small flush
step-file_id w d key value type = ground arith

logical_fresh :
    (w : VLogWriter) (d : Disk) (id : ℕ) → IsOpen w d → w.current_file_id < id → logical w d id ≡ []
unfolding logical
logical_fresh w d id o h = ground (arith, o.fresh id h)

length-logical_active :
    (w : VLogWriter) (d : Disk)
    → IsOpen w d
    → length (logical w d w.current_file_id) ≡ w.current_size + length w.buffer
unfolding logical
length-logical_active w d o =
    rw ((==_iff w.current_file_id _).1 refl)
      (omega (arith, o.size, length-append (contents (active w) d) w.buffer))

-- An entry begins no further than the largest size of a segment, and in the active segment or
-- the next one.
pub append_entry-start :
    (w : VLogWriter) (d : Disk) (key value : Bytes) (type : ValueType)
    → IsOpen w d
    → w.current_file_id + 1 < 2 ^ 32
    → (length (logical w d (append_entry key value type w d).2.file_id) ≤ max_log_size)
      × ((append_entry key value type w d).2.file_id ≤ w.current_file_id + 1)
unfolding append_entry
append_entry-start w d key value type o room =
    elim (Bool-cases
      (ltb max_log_size (w.current_size + length w.buffer + total_entry_size key value))) [
        | inl full ↦
            let (k, id) = rotate-Keeps w d o room in
            let r = rotate w d in
            rw
              (
                full,
                append_entry,
                step-file_id r.0 r.1 key value type,
                id,
                logical_fresh w d (w.current_file_id + 1) o (omega arith),
              )
              (omega arith)
        | inr roomy ↦
            rw (roomy, append_entry, step-file_id w d key value type)
              (ground (arith, length-logical_active w d o), omega arith)
      ]

-- A pointer stays good when its segment grows.
pub Points-append :
    (content more : Bytes) (p : ValuePointer) (x : VortexData)
    → Points content p x
    → Points (content ++ more) p x
Points-append content more p x h = record {
  front = h.front;
  back = h.back ++ more;
  ahead =
      drop-append_le h.front content more (
        rw h.ahead (
          omega (
            arith,
            length-append (le_bytes 4 (length x.value)) (to_tag x.type ∷ (x.value ++ h.back)),
          )))
      ∙ rw h.ahead (rw (append_assoc, append_assoc));
  offset = h.offset;
  size = h.size;
  small = h.small;
  short = h.short;
  type = h.type;
}

-- Where the value stands in an entry.
pub drop-entry_bytes :
    (log key value : Bytes) (type : ValueType)
    → IsShort key value
    → drop (length log + 8 + length key) (log ++ entry_bytes key value type)
      ≡ value_bytes (record { type = type; value = value }) []
unfolding entry_bytes body_bytes
drop-entry_bytes log key value type short =
    let crc = le_bytes 4 (calculate_crc32 (body_bytes key value type)) in
    let size = le_bytes 4 (u32 (length key)) in
    let head : Bytes = log ++ (crc ++ (size ++ key)) in
    let rest : Bytes = le_bytes 4 (u32 (length value)) ++ (to_tag type ∷ value) in
    let small : u32 (length value) ≡ length value = omega arith in
    let split : log ++ entry_bytes key value type ≡ head ++ rest = simp append_assoc in
    let len : length log + 8 + length key ≡ length head =
      simp (length-append, length-le_bytes) (omega arith) in
    rw split (drop-append head rest _ len ∙ rw (small, append-nil))

-- The pointer that an append returns.
pub append_entry-Points :
    (w : VLogWriter) (d : Disk) (key value : Bytes) (type : ValueType)
    → IsOpen w d
    → w.current_file_id + 1 < 2 ^ 32
    → IsShort key value
    → IsType type
    → Points
        (logical
          (append_entry key value type w d).0
          (append_entry key value type w d).1
          (append_entry key value type w d).2.file_id)
        (append_entry key value type w d).2
        (record { type = type; value = value })
append_entry-Points w d key value type o room short t =
    let r = append_entry key value type w d in
    let a = append_entry-Appends w d key value type o room short in
    let (start, near) = append_entry-start w d key value type o room in
    let log = logical w d r.2.file_id in
    let n : ℕ = length log in
    let whole : logical r.0 r.1 r.2.file_id ≡ log ++ entry_bytes key value type =
      rw (a.grown r.2.file_id, (==_iff r.2.file_id _).1 refl) in
    record {
      front = n + 8 + length key;
      back = [];
      ahead = rw whole (drop-entry_bytes log key value type short);
      offset = omega (arith, a.offset, start, short);
      size = a.size;
      small = omega (arith, a.offset, start, short);
      short = omega arith;
      type = t;
    }
