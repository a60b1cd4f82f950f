-- ===== src/Vlog/Pointer.antt =====
-- The object representation of `ValuePointer` (src/vlog.h), sixteen bytes with no padding, as
-- the index files and the SSTables hold it.
use vortex_db.Base.{ℕ, ◌<◌, ◌^◌, ◌≡◌, ◌++◌, length, take, drop, arith, length-append}
use vortex_db.Base.Words.{Bytes, le_bytes, le_value, length-le_bytes, le_value-le_bytes}
use vortex_db.Vlog.{ValuePointer}

abbrev pub pointer_size : ℕ
pointer_size = 16

unfoldable pub pointer_bytes : ValuePointer → Bytes
pointer_bytes p = le_bytes 4 p.file_id ++ (le_bytes 4 p.value_size ++ le_bytes 8 p.offset)

-- The pointer that sixteen bytes represent.
unfoldable pub to_pointer : Bytes → ValuePointer
to_pointer bs = record {
  file_id = le_value (take 4 bs);
  value_size = le_value (take 4 (drop 4 bs));
  offset = le_value (drop 8 bs);
}

-- The members are in the range of their types.
pub record IsPointer (p : ValuePointer) : Type 0 where
  pub file_id : p.file_id < 2 ^ 32
  pub value_size : p.value_size < 2 ^ 32
  pub offset : p.offset < 2 ^ 64

pub length-pointer_bytes : (p : ValuePointer) → length (pointer_bytes p) ≡ 16
unfolding pointer_bytes
length-pointer_bytes p = omega (
  arith,
  length-append (le_bytes 4 p.file_id) (le_bytes 4 p.value_size ++ le_bytes 8 p.offset),
  length-append (le_bytes 4 p.value_size) (le_bytes 8 p.offset),
  length-le_bytes 4 p.file_id,
  length-le_bytes 4 p.value_size,
  length-le_bytes 8 p.offset,
)

pub to_pointer-pointer_bytes : (p : ValuePointer) → IsPointer p → to_pointer (pointer_bytes p) ≡ p
unfolding to_pointer pointer_bytes le_bytes le_value
to_pointer-pointer_bytes p r = λ i. record {
  file_id = le_value-le_bytes 4 p.file_id r.file_id i;
  value_size = le_value-le_bytes 4 p.value_size r.value_size i;
  offset = le_value-le_bytes 8 p.offset r.offset i;
}
