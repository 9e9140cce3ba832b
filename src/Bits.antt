-- ===== src/Bits.antt =====
-- Laws of the bit operations on unbounded natural numbers, which the shifts, masks and checksums of
-- the CAN and serial codecs are read through. No code is modelled here.
mod Step
pub mod Bytes
use wtbcar_autoware_nav.Prelude.{
  ℕ, zero, suc, ◌+◌, ◌*◌, ◌/◌, ◌%◌, ◌≤◌, ◌<◌, min, max, bit_and, bit_or, bit_xor, ◌≡◌, refl, ap,
  ap₂, sym, ◌∙◌, arith,
}
use Step.{or_step, and_step, xor_step, zero-or}

quarter : (a : ℕ) → a / 2 / 2 ≡ a / 4
quarter a = omega arith

eighth : (a : ℕ) → a / 2 / 2 / 2 ≡ a / 8
eighth a = omega arith

sixteenth : (a : ℕ) → a / 2 / 2 / 2 / 2 ≡ a / 16
sixteenth a = omega arith

module _ (op : ℕ → ℕ → ℕ) (digit : ℕ → ℕ → ℕ)
    (step : (a b : ℕ) → op a b ≡ op (a / 2) (b / 2) * 2 + digit (a % 2) (b % 2)) where
  -- Four digits at once.
  four_steps :
      (a b : ℕ)
      → op a b
        ≡ op (a / 16) (b / 16) * 16
          + digit (a / 8 % 2) (b / 8 % 2) * 8
          + digit (a / 4 % 2) (b / 4 % 2) * 4
          + digit (a / 2 % 2) (b / 2 % 2) * 2
          + digit (a % 2) (b % 2)
  four_steps a b = omega (
    arith,
    step a b,
    step (a / 2) (b / 2),
    step (a / 2 / 2) (b / 2 / 2),
    step (a / 2 / 2 / 2) (b / 2 / 2 / 2),
    ap₂ op (sixteenth a) (sixteenth b),
    ap₂ (λ x y. digit (x % 2) (y % 2)) (quarter a) (quarter b),
    ap₂ (λ x y. digit (x % 2) (y % 2)) (eighth a) (eighth b),
  )

and_zero_within : (n a : ℕ) → a ≤ n → bit_and a 0 ≡ 0
and_zero_within n zero h = refl
and_zero_within zero (suc a) h = elim h [ ]
and_zero_within (suc n) (suc a) h =
    omega (arith, and_step (suc a) 0, and_zero_within n (suc a / 2) (omega arith))

and-zero : (a : ℕ) → bit_and a 0 ≡ 0
and-zero a = and_zero_within a a (omega arith)

or_zero_within : (n a : ℕ) → a ≤ n → bit_or a 0 ≡ a
or_zero_within n zero h = refl
or_zero_within zero (suc a) h = elim h [ ]
or_zero_within (suc n) (suc a) h =
    omega (arith, or_step (suc a) 0, or_zero_within n (suc a / 2) (omega arith))

or-zero : (a : ℕ) → bit_or a 0 ≡ a
or-zero a = or_zero_within a a (omega arith)

pub xor_half : (a b : ℕ) → bit_xor a b / 2 ≡ bit_xor (a / 2) (b / 2)
xor_half a b = omega (arith, xor_step a b)

xor_cancel_within : (n a b : ℕ) → a + b ≤ n → bit_xor (bit_xor a b) b ≡ a
xor_cancel_within zero zero zero h = refl
xor_cancel_within zero zero (suc b) h = absurd (omega arith)
xor_cancel_within zero (suc a) b h = absurd (omega arith)
xor_cancel_within (suc n) zero zero h = refl
xor_cancel_within (suc n) a b h = omega (
  arith,
  xor_step (bit_xor a b) b,
  xor_step a b,
  ap (λ t. bit_xor t (b / 2)) (xor_half a b),
  xor_cancel_within n (a / 2) (b / 2) (omega arith),
)

xor_cancel : (a b : ℕ) → bit_xor (bit_xor a b) b ≡ a
xor_cancel a b = xor_cancel_within (a + b) a b (omega arith)

xor_comm_within : (n a b : ℕ) → a + b ≤ n → bit_xor a b ≡ bit_xor b a
xor_comm_within zero zero zero h = refl
xor_comm_within zero zero (suc b) h = absurd (omega arith)
xor_comm_within zero (suc a) b h = absurd (omega arith)
xor_comm_within (suc n) zero zero h = refl
xor_comm_within (suc n) a b h =
    omega (arith, xor_step a b, xor_step b a, xor_comm_within n (a / 2) (b / 2) (omega arith))

pub xor_comm : (a b : ℕ) → bit_xor a b ≡ bit_xor b a
xor_comm a b = xor_comm_within (a + b) a b (omega arith)

-- The digits of `a` that a mask of four ones keeps.
pub and_low4 : (a : ℕ) → bit_and a 15 ≡ a % 16
and_low4 a = omega (arith, four_steps bit_and min and_step a 15, and-zero (a / 16))

pub and_low8 : (a : ℕ) → bit_and a 255 ≡ a % 256
and_low8 a = omega (arith, four_steps bit_and min and_step a 255, and_low4 (a / 16))

-- The masks `0xF0`, `0xFF0`, `0xF000` and `0x8000` keep a field in its place.
pub and_high4 : (a : ℕ) → bit_and a 0xF0 ≡ a / 16 % 16 * 16
and_high4 a = omega (arith, four_steps bit_and min and_step a 0xF0, and_low4 (a / 16))

pub and_mid8 : (a : ℕ) → bit_and a 0xFF0 ≡ a / 16 % 256 * 16
and_mid8 a = omega (arith, four_steps bit_and min and_step a 0xFF0, and_low8 (a / 16))

and_nibble_up : (a m : ℕ) → bit_and a (m * 16) ≡ bit_and (a / 16) m * 16
and_nibble_up a m =
    omega (arith, four_steps bit_and min and_step a (m * 16), ap (bit_and (a / 16)) (m_back m))
  where
    m_back : (k : ℕ) → k * 16 / 16 ≡ k
    m_back k = omega arith

pub and_top4 : (a : ℕ) → bit_and a 0xF000 ≡ a / 4096 % 16 * 4096
and_top4 a =
    omega (arith, and_nibble_up a 0xF00, and_nibble_up (a / 16) 0xF0, and_high4 (a / 16 / 16))

pub and_bit15 : (a : ℕ) → bit_and a 0x8000 ≡ a / 32768 % 2 * 32768
and_bit15 a = omega (
  arith,
  and_nibble_up a 0x800,
  and_nibble_up (a / 16) 0x80,
  and_nibble_up (a / 16 / 16) 8,
  four_steps bit_and min and_step (a / 16 / 16 / 16) 8,
  and-zero (a / 16 / 16 / 16 / 16),
)

-- A field and what lies below it do not overlap.
or_nibble : (k l : ℕ) → l < 16 → bit_or (k * 16) l ≡ k * 16 + l
or_nibble k l h =
    omega (arith, four_steps bit_or max or_step (k * 16) l, ap₂ bit_or up low, or-zero k)
  where
    up : k * 16 / 16 ≡ k
    up = omega arith

    low : l / 16 ≡ 0
    low = omega arith

pub nibble_or : (k l : ℕ) → l < 16 → bit_or l (k * 16) ≡ k * 16 + l
nibble_or k l h =
    omega (arith, four_steps bit_or max or_step l (k * 16), ap₂ bit_or low up, zero-or k)
  where
    up : k * 16 / 16 ≡ k
    up = omega arith

    low : l / 16 ≡ 0
    low = omega arith

-- A common shift by four bits.
or_up : (a b : ℕ) → bit_or (a * 16) (b * 16) ≡ bit_or a b * 16
or_up a b =
    omega (arith, four_steps bit_or max or_step (a * 16) (b * 16), ap₂ bit_or (back a) (back b))
  where
    back : (k : ℕ) → k * 16 / 16 ≡ k
    back k = omega arith

or_byte : (h m : ℕ) → m < 256 → bit_or (h * 256) m ≡ h * 256 + m
or_byte h m k = omega (
  arith,
  four_steps bit_or max or_step (h * 256) m,
  ap (λ t. bit_or t (m / 16)) back,
  or_nibble h (m / 16) (omega arith),
)
  where
    back : h * 256 / 16 ≡ h * 16
    back = omega arith

-- Three fields, of any width, of eight bits and of four bits.
pub or_fields :
    (h m l : ℕ) → m < 256 → l < 16 → bit_or (bit_or (h * 4096) (m * 16)) l ≡ h * 4096 + m * 16 + l
or_fields h m l p q = omega (arith, ap (λ t. bit_or t l) upper, or_nibble (h * 256 + m) l q)
  where
    regroup : h * 4096 ≡ h * 256 * 16
    regroup = omega arith

    upper : bit_or (h * 4096) (m * 16) ≡ (h * 256 + m) * 16
    upper = omega (arith, ap (λ t. bit_or t (m * 16)) regroup, or_up (h * 256) m, or_byte h m p)

xor_digits : (a b : ℕ) → bit_xor a b ≡ bit_xor (a / 2) (b / 2) * 2 + (a % 2 + b % 2) % 2
xor_digits a b = omega (arith, xor_step a b)

xor_nibble-lt : (a b : ℕ) → a < 16 → b < 16 → bit_xor a b < 16
xor_nibble-lt a b h k = omega (
  arith,
  four_steps bit_xor (λ x y. (x + y) % 2) xor_digits a b,
  ap₂ bit_xor (gone a h) (gone b k),
)
  where
    gone : (x : ℕ) → x < 16 → x / 16 ≡ 0
    gone x p = omega arith

-- The exclusive or of two bytes is a byte.
pub xor-lt : (a b : ℕ) → a < 256 → b < 256 → bit_xor a b < 256
xor-lt a b h k = omega (
  arith,
  four_steps bit_xor (λ x y. (x + y) % 2) xor_digits a b,
  xor_nibble-lt (a / 16) (b / 16) (omega arith) (omega arith),
)

pub xor_injective_left : (a b c : ℕ) → bit_xor a c ≡ bit_xor b c → a ≡ b
xor_injective_left a b c e = sym (xor_cancel a c) ∙ ap (λ t. bit_xor t c) e ∙ xor_cancel b c

pub xor_injective_right : (a b c : ℕ) → bit_xor c a ≡ bit_xor c b → a ≡ b
xor_injective_right a b c e = xor_injective_left a b c (xor_comm a c ∙ e ∙ xor_comm c b)
