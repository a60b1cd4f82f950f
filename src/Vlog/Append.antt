-- ===== src/Vlog/Append.antt =====
-- `append_entry` of src/vlog.cpp against the abstract log.
use vortex_db.Base.{
  ℕ, ◌+◌, ◌^◌, ◌<◌, ◌≤◌, ◌≡◌, refl, ap, ◌∙◌, true, false, [], ◌++◌, ltb, ◌==◌, ==_iff,
  if◌then◌else◌, length, arith, Bool-cases, inl, inr, length-append, append_assoc, append-nil,
}
use vortex_db.Base.Words.{Bytes, u32, u64, length-le_bytes}
use vortex_db.Files.{Disk}
use vortex_db.Vlog.{ValueType, ValuePointer}
use vortex_db.Vlog.Writer.{
  VLogWriter, max_log_size, buffer_size, segment, contents, append_file, active, flush, rotate,
  body_bytes, entry_bytes, total_entry_size, append_large, append_small, append_entry,
}
use vortex_db.Vlog.Log.{logical, IsOpen, Keeps, flush-Keeps, rotate-Keeps, active-append}

pub length-entry_bytes :
    (key value : Bytes) (type : ValueType)
    → length (entry_bytes key value type) ≡ 13 + length key + length value
unfolding entry_bytes body_bytes
length-entry_bytes key value type = simp (length-append, length-le_bytes) (omega arith)

-- Key and value together are shorter than 2^32 bytes by the size of the header.
abbrev pub IsShort : Bytes → Bytes → Type 0
IsShort key value = 13 + length key + length value < 2 ^ 32

-- The run `r` appended one entry to the abstract log, and returned the place of its value.
pub record Appends (w : VLogWriter) (d : Disk) (key value : Bytes) (type : ValueType)
    (r : VLogWriter × Disk × ValuePointer) : Type 0 where
  pub opened : IsOpen r.0 r.1
  pub base : r.0.base_path ≡ w.base_path
  pub place : r.2.file_id ≡ r.0.current_file_id
  pub size : r.2.value_size ≡ length value
  pub offset : r.2.offset ≡ u64 (length (logical w d r.2.file_id) + 12 + length key)
  pub grown :
      (id : ℕ)
      → logical r.0 r.1 id
        ≡ logical w d id ++ (if id == r.2.file_id then entry_bytes key value type else [])

module _ (w : VLogWriter) (d : Disk) (o : IsOpen w d) (key value : Bytes) (type : ValueType)
    (short : IsShort key value) where
  abbrev pointer : ValuePointer
  pointer = record {
    file_id = w.current_file_id;
    value_size = u32 (length value);
    offset = u64 (w.current_size + length w.buffer + 12 + u32 (length key));
  }

  length-logical : length (logical w d w.current_file_id) ≡ w.current_size + length w.buffer
  unfolding logical
  length-logical =
      rw ((==_iff w.current_file_id _).1 refl)
        (omega (arith, o.size, length-append (contents (active w) d) w.buffer))

  offset-logical :
      u64 (w.current_size + length w.buffer + 12 + u32 (length key))
      ≡ u64 (length (logical w d w.current_file_id) + 12 + length key)
  offset-logical = rw length-logical (omega arith)

  -- The entry fits in the buffer.
  buffered :
      length w.buffer + (13 + length key + length value) ≤ buffer_size
      → Appends w d key value type (
        record w { buffer = w.buffer ++ entry_bytes key value type; is_dirty = true },
        d,
        pointer,
      )
  unfolding logical
  buffered fits = record {
    opened = record {
      size = o.size;
      dirty = λ h. refl;
      bounded = omega (
        arith,
        length-append w.buffer (entry_bytes key value type),
        length-entry_bytes key value type,
      );
      small = o.small;
      fresh = o.fresh;
    };
    base = refl;
    place = refl;
    size = omega arith;
    offset = offset-logical;
    grown = λ id. ground (
      arith,
      append_assoc (contents (segment w.base_path id) d) w.buffer (entry_bytes key value type),
      append-nil (contents (segment w.base_path id) d ++ w.buffer),
      append-nil (contents (segment w.base_path id) d ++ []),
    );
  }

  -- The entry goes to the file, behind an empty buffer.
  written :
      w.buffer ≡ []
      → Appends w d key value type (
        record w { current_size = w.current_size + total_entry_size key value; is_dirty = false },
        append_file (active w) (entry_bytes key value type) d,
        record pointer { offset = u64 (w.current_size + 12 + u32 (length key)) },
      )
  unfolding logical
  written empty =
      let entry = entry_bytes key value type in
      record {
        opened = record {
          size =
              rw (active-append w d o w.current_file_id entry, (==_iff w.current_file_id _).1 refl)
                (omega (
                  arith,
                  o.size,
                  length-append (contents (active w) d) entry,
                  length-entry_bytes key value type,
                ));
          dirty = λ h. absurd (omega (arith, ap length empty));
          bounded = o.bounded;
          small = o.small;
          fresh = λ id h. ground (arith, active-append w d o id entry, o.fresh id h);
        };
        base = refl;
        place = refl;
        size = omega arith;
        offset = omega (arith, offset-logical, ap length empty);
        grown = λ id. ground (
          arith,
          empty,
          active-append w d o id entry,
          append-nil (contents (active w) d),
          append-nil (contents (active w) d ++ entry),
          append-nil (contents (segment w.base_path id) d),
          append-nil (contents (segment w.base_path id) d ++ []),
        );
      }

-- An append after a step that keeps the abstract log.
after :
    {w : VLogWriter} {d : Disk} (key value : Bytes) (type : ValueType) (r : VLogWriter × Disk)
    (s : VLogWriter × Disk × ValuePointer)
    → Keeps w d r
    → Appends r.0 r.1 key value type s
    → Appends w d key value type s
after key value type r s k a = record {
  opened = a.opened;
  base = a.base ∙ k.base;
  place = a.place;
  size = a.size;
  offset = rw (← k.same s.2.file_id) a.offset;
  grown = λ id. rw (← k.same id) (a.grown id);
}

module _ (w : VLogWriter) (d : Disk) (o : IsOpen w d) (key value : Bytes) (type : ValueType)
    (short : IsShort key value) where
  large-Appends : Appends w d key value type (append_large key value type w d)
  unfolding append_large
  large-Appends =
      let (k, id) = flush-Keeps w d o in
      let r = flush true w d in
      let a = written r.0 r.1 k.opened key value type short k.empty in after key value type r _ k a

  small-Appends :
      13 + length key + length value ≤ buffer_size
      → Appends w d key value type (append_small key value type w d)
  unfolding append_small
  small-Appends fits =
      elim (Bool-cases (ltb buffer_size (length w.buffer + total_entry_size key value))) [
        | inl crowded ↦
            let (k, id) = flush-Keeps w d o in
            let r = flush true w d in
            rw (crowded, append_small)
              (after key value type r _ k
                (buffered r.0 r.1 k.opened key value type short (omega (arith, ap length k.empty))))
        | inr roomy ↦ rw (roomy, append_small) (buffered w d o key value type short (ground arith))
      ]

  step-Appends : Appends w d key value type (
      if ltb buffer_size (total_entry_size key value)
      then append_large key value type w d
      else append_small key value type w d)
  step-Appends = elim (Bool-cases (ltb buffer_size (total_entry_size key value))) [
    | inl big ↦ rw big large-Appends
    | inr little ↦ rw little (small-Appends (ground arith))
  ]

-- `append_entry` puts the entry's bytes at the end of the abstract log of the segment that is
-- active afterwards, changes no other segment, keeps the writer's invariant, and returns a
-- pointer to the entry's type byte, modulo 2^64, with the length of the value. It holds whether or
-- not the call rotates, flushes or writes past the buffer, under the writer's invariant, if the
-- entry is shorter than 2^32 bytes and the number of the next segment fits in a `uint32_t`.
pub append_entry-Appends :
    (w : VLogWriter) (d : Disk) (key value : Bytes) (type : ValueType)
    → IsOpen w d
    → w.current_file_id + 1 < 2 ^ 32
    → IsShort key value
    → Appends w d key value type (append_entry key value type w d)
unfolding append_entry
append_entry-Appends w d key value type o room short =
    elim (Bool-cases
      (ltb max_log_size (w.current_size + length w.buffer + total_entry_size key value))) [
        | inl full ↦
            let (k, id) = rotate-Keeps w d o room in
            let r = rotate w d in
            rw (full, append_entry)
              (after key value type r _ k (step-Appends r.0 r.1 k.opened key value type short))
        | inr roomy ↦ rw (roomy, append_entry) (step-Appends w d o key value type short)
      ]
