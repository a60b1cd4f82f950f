-- ===== src/Vlog.antt =====
-- src/vlog.h: the types of the value log.
pub mod Pointer
pub mod Crc
pub mod Writer
pub mod Log
pub mod Beside
pub mod Append
pub mod Reader
pub mod Points
pub mod Cache
pub mod Durable
pub mod ReadBack
pub mod Next
use vortex_db.Base.{ℕ, Bool, ◌==◌, ◌&&◌, if◌then◌else◌}
use vortex_db.Base.Words.{Bytes}

-- `enum class ValueType : uint8_t`; a cast from a byte that no enumerator has keeps the byte.
pub data ValueType : Type 0 where
  string int double bool json sub_vortex tombstone : ValueType
  other : ℕ → ValueType

-- `static_cast<uint8_t>(type)`
unfoldable pub to_tag : ValueType → ℕ
to_tag string = 0x00
to_tag int = 0x01
to_tag double = 0x02
to_tag bool = 0x03
to_tag json = 0x04
to_tag sub_vortex = 0x05
to_tag tombstone = 0xff
to_tag (other tag) = tag

-- `static_cast<ValueType>(tag)`
unfoldable pub of_tag : ℕ → ValueType
of_tag tag =
    if tag == 0x00
    then string
    else if tag == 0x01
    then int
    else if tag == 0x02
    then double
    else if tag == 0x03
    then bool
    else if tag == 0x04
    then json
    else if tag == 0x05
    then sub_vortex
    else if tag == 0xff
    then tombstone
    else other tag

pub record VortexData : Type 0 where
  pub type : ValueType
  pub value : Bytes

pub record ValuePointer : Type 0 where
  pub file_id : ℕ
  pub value_size : ℕ
  pub offset : ℕ

-- `operator==`: the size is not compared.
unfoldable pub same_place : ValuePointer → ValuePointer → Bool
same_place a b = a.file_id == b.file_id && a.offset == b.offset
