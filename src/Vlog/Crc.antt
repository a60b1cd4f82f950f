-- ===== src/Vlog/Crc.antt =====
-- `calculate_crc32` of src/vlog.cpp.
use vortex_db.Base.{ℕ, zero, suc, ◌-◌, ◌/◌, ◌^◌, bit_and, bit_xor, [], ◌∷◌}
use vortex_db.Base.Words.{Bytes, u8, u32}

-- One round of the inner loop: `-(crc & 1)` is all ones or zero.
unfoldable pub crc_bit : ℕ → ℕ
crc_bit crc =
    let mask : ℕ = u32 (2 ^ 32 - bit_and crc 1) in bit_xor (crc / 2) (bit_and 0xedb88320 mask)

unfoldable pub crc_bits : ℕ → ℕ → ℕ
unfolding crc_bit
crc_bits zero crc = crc
crc_bits (suc j) crc = crc_bits j (crc_bit crc)

unfoldable pub crc_bytes : ℕ → Bytes → ℕ
unfolding crc_bits
crc_bytes crc [] = crc
crc_bytes crc (c ∷ cs) = crc_bytes (crc_bits 8 (bit_xor crc (u8 c))) cs

unfoldable pub calculate_crc32 : Bytes → ℕ
unfolding crc_bytes
calculate_crc32 bs = bit_xor (crc_bytes 0xffffffff bs) 0xffffffff
