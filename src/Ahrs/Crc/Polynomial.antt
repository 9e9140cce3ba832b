-- ===== src/Ahrs/Crc/Polynomial.antt =====
-- The tables of crc_table.cpp against the polynomial that they tabulate, one bit at a time.
use wtbcar_autoware_nav.Prelude.{
  ℕ, zero, suc, ◌<◌, bit_xor, ◌≡◌, refl, ap, ◌∙◌, List, [], ◌∷◌, take, arith,
}
use wtbcar_autoware_nav.Bits.{xor-lt}
use wtbcar_autoware_nav.Ahrs.Crc.{
  crc8_step, crc8_loop, crc8_table, crc16_step, crc16_loop, crc16_table, crc32_step, crc32_loop,
  crc32_table,
}
use wtbcar_autoware_nav.Ahrs.Crc.Finite.{shift8, times8, entry8_lem, entry8-lt}

pub data AllBytes : List ℕ → Type 0 where
  none_left : AllBytes []
  byte : {value : ℕ} {values : List ℕ} → value < 256 → AllBytes values → AllBytes (value ∷ values)

-- The register after some bytes: each is added to it, and eight shifts follow.
pub bitwise_crc8 : ℕ → List ℕ → ℕ
bitwise_crc8 register [] = register
bitwise_crc8 register (value ∷ values) =
    bitwise_crc8 (times8 shift8 (bit_xor register value)) values

pub AllBytes-take : (p : List ℕ) (counter : ℕ) → AllBytes p → AllBytes (take counter p)
AllBytes-take p zero h = none_left
AllBytes-take [] (suc n) h = none_left
AllBytes-take (value ∷ values) (suc n) (byte small rest) = byte small (AllBytes-take values n rest)

loop_lem :
    (register : ℕ) (values : List ℕ)
    → register < 256
    → AllBytes values
    → crc8_loop register values ≡ bitwise_crc8 register values
unfolding crc8_loop crc8_step bitwise_crc8
loop_lem register [] h none_left = refl
loop_lem register (value ∷ values) h (byte small rest) =
    let index = xor-lt register value h small in
    loop_lem (crc8_step register value) values (entry8-lt _ index) rest
    ∙ ap (λ c. bitwise_crc8 c values) (entry8_lem _ index)

-- The CRC-8 of bytes by the table is their CRC-8 by the polynomial, bit by bit from a zero register.
pub crc8_table_lem :
    (p : List ℕ) (counter : ℕ) → AllBytes p → crc8_table p counter ≡ bitwise_crc8 0 (take counter p)
unfolding crc8_table
crc8_table_lem p counter h = loop_lem 0 (take counter p) (omega arith) (AllBytes-take p counter h)

loop_same : (c : ℕ) (values : List ℕ) → crc32_loop c values ≡ crc16_loop c values
unfolding crc32_loop crc16_loop crc32_step crc16_step
loop_same c [] = refl
loop_same c (value ∷ values) = loop_same (crc16_step c value) values

-- `CRC32_Table` is no CRC-32: for every buffer it returns what `CRC16_Table` returns.
pub crc32-crc16 : (p : List ℕ) (counter : ℕ) → crc32_table p counter ≡ crc16_table p counter
unfolding crc32_table crc16_table
crc32-crc16 p counter = loop_same 0 (take counter p)
