-- ===== src/Bits/Bytes.antt =====
-- The exclusive or of numbers of several bytes, byte by byte. No code is modelled here.
use wtbcar_autoware_nav.Prelude.{ℕ, ◌+◌, ◌*◌, ◌/◌, ◌%◌, ◌<◌, bit_xor, ◌≡◌, ap₂, ◌∙◌, arith}
use wtbcar_autoware_nav.Bits.Step.{xor_step, zero-xor}
use wtbcar_autoware_nav.Bits.{xor_half, xor-lt, xor_comm}

pub xor-zero : (a : ℕ) → bit_xor a 0 ≡ a
xor-zero a = xor_comm a 0 ∙ zero-xor a

xor-quarter : (a b : ℕ) → bit_xor a b / 4 ≡ bit_xor (a / 4) (b / 4)
xor-quarter a b =
    omega (arith, xor_half a b, xor_half (a / 2) (b / 2), ap₂ bit_xor (halves a) (halves b))
  where
    halves : (n : ℕ) → n / 2 / 2 ≡ n / 4
    halves n = omega arith

xor_nibble_up : (a b : ℕ) → bit_xor a b / 16 ≡ bit_xor (a / 16) (b / 16)
xor_nibble_up a b =
    omega
      (arith, xor-quarter a b, xor-quarter (a / 4) (b / 4), ap₂ bit_xor (quarters a) (quarters b))
  where
    quarters : (n : ℕ) → n / 4 / 4 ≡ n / 16
    quarters n = omega arith

pub xor_byte_up : (a b : ℕ) → bit_xor a b / 256 ≡ bit_xor (a / 256) (b / 256)
xor_byte_up a b =
    omega (
      arith,
      xor_nibble_up a b,
      xor_nibble_up (a / 16) (b / 16),
      ap₂ bit_xor (nibbles a) (nibbles b),
    )
  where
    nibbles : (n : ℕ) → n / 16 / 16 ≡ n / 256
    nibbles n = omega arith

-- The lowest four digits, and nothing above them.
xor_digits :
    (a b : ℕ)
    → bit_xor a b % 16
      ≡ (a / 8 + b / 8) % 2 * 8 + (a / 4 + b / 4) % 2 * 4 + (a / 2 + b / 2) % 2 * 2 + (a + b) % 2
xor_digits a b = omega (
  arith,
  xor_step a b,
  xor_step (a / 2) (b / 2),
  xor_step (a / 4) (b / 4),
  xor_step (a / 8) (b / 8),
  ap₂ bit_xor (halves a) (halves b),
  ap₂ bit_xor (quarters a) (quarters b),
)
  where
    halves : (n : ℕ) → n / 2 / 2 ≡ n / 4
    halves n = omega arith

    quarters : (n : ℕ) → n / 4 / 2 ≡ n / 8
    quarters n = omega arith

xor-small : (a b : ℕ) → a < 16 → b < 16 → bit_xor a b < 16
xor-small a b h k = omega (arith, xor_nibble_up a b, ap₂ bit_xor (none_up a h) (none_up b k))
  where
    none_up : (n : ℕ) → n < 16 → n / 16 ≡ 0
    none_up n l = omega arith

xor_nibble_low : (a b : ℕ) → bit_xor a b % 16 ≡ bit_xor (a % 16) (b % 16)
xor_nibble_low a b = omega (
  arith,
  xor_digits a b,
  xor_digits (a % 16) (b % 16),
  xor-small (a % 16) (b % 16) (omega arith) (omega arith),
)

pub xor_byte_low : (a b : ℕ) → bit_xor a b % 256 ≡ bit_xor (a % 256) (b % 256)
xor_byte_low a b = omega (
  arith,
  xor_nibble_low a b,
  xor_nibble_up a b,
  xor_nibble_low (a / 16) (b / 16),
  xor_nibble_low (a % 256) (b % 256),
  xor_nibble_up (a % 256) (b % 256),
  xor-lt (a % 256) (b % 256) (omega arith) (omega arith),
  ap₂ bit_xor (lows a) (lows b),
  ap₂ bit_xor (highs a) (highs b),
)
  where
    lows : (n : ℕ) → n % 256 % 16 ≡ n % 16
    lows n = omega arith

    highs : (n : ℕ) → n % 256 / 16 ≡ n / 16 % 16
    highs n = omega arith
