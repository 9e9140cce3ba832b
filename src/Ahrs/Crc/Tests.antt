-- ===== src/Ahrs/Crc/Tests.antt =====
-- The checksums of crc_table.cpp on concrete buffers.
use wtbcar_autoware_nav.Prelude.{ℕ, ◌≡◌, ◌≢◌, refl, List, [], ◌∷◌, set, arith}
use wtbcar_autoware_nav.Ahrs.Crc.{
  crc8_table, crc8_loop, crc8_step, crc16_table, crc16_loop, crc16_step, crc32_table,
}
use wtbcar_autoware_nav.Ahrs.Crc.Polynomial.{
  AllBytes, none_left, byte, bitwise_crc8, crc8_table_lem, crc32-crc16,
}
use wtbcar_autoware_nav.Ahrs.Crc.Detection.{crc8_detects}

-- The start of a header of 56 bytes of measurements.
abbrev header : List ℕ
header = 0xFC ∷ 0x40 ∷ 0x38 ∷ 0x01 ∷ []

header-AllBytes : AllBytes header
header-AllBytes =
    byte (omega arith) (byte (omega arith) (byte (omega arith) (byte (omega arith) none_left)))

crc8_header : crc8_table header 4 ≡ 87
unfolding crc8_table crc8_loop crc8_step
crc8_header = refl

-- "123456789", for which the CRC-16 of this polynomial is known to be 0x31C3.
crc16_check :
    crc16_table (0x31 ∷ 0x32 ∷ 0x33 ∷ 0x34 ∷ 0x35 ∷ 0x36 ∷ 0x37 ∷ 0x38 ∷ 0x39 ∷ []) 9 ≡ 0x31C3
unfolding crc16_table crc16_loop crc16_step
crc16_check = refl

crc8_table_lem_example : crc8_table header 4 ≡ bitwise_crc8 0 header
crc8_table_lem_example = crc8_table_lem header 4 header-AllBytes

crc32-crc16_example : crc32_table header 4 ≡ crc16_table header 4
crc32-crc16_example = crc32-crc16 header 4

crc8_detects_example : crc8_table (set header 2 0x30) 4 ≢ crc8_table header 4
crc8_detects_example =
    crc8_detects header 4 2 0x30 header-AllBytes (omega arith) (omega arith) (omega arith)
      (omega arith)
