-- ===== src/Bits/Step.antt =====
-- One binary digit of each native bit operation. The operations are defined by a recursion on
-- digits with fuel; here the fuel is dropped.
use Prim.Native.Nat.{digits, bitwise, differ, bit_and-bitwise, bit_or-bitwise, bit_xor-bitwise}
use native.Mathlib.Nat.{le_refl}
use wtbcar_autoware_nav.Prelude.{
  ℕ, zero, suc, ◌+◌, ◌*◌, ◌/◌, ◌%◌, ◌≤◌, ◌<◌, min, max, bit_and, bit_or, bit_xor, ◌≡◌, refl, arith,
}

-- The recursion gives one result under any two amounts of fuel that are enough.
enough_fuel :
    (ends : ℕ → ℕ) (op : ℕ → ℕ → ℕ) (k l x y : ℕ)
    → x ≤ k
    → x ≤ l
    → digits ends op k x y ≡ digits ends op l x y
enough_fuel ends op zero zero x y h h' = refl
enough_fuel ends op zero (suc l) zero y h h' = refl
enough_fuel ends op zero (suc l) (suc x) y h h' = elim h [ ]
enough_fuel ends op (suc k) zero zero y h h' = refl
enough_fuel ends op (suc k) zero (suc x) y h h' = elim h' [ ]
enough_fuel ends op (suc k) (suc l) zero y h h' = refl
enough_fuel ends op (suc k) (suc l) (suc x) y h h' =
    rw (enough_fuel ends op k l (suc x / 2) (y / 2) (omega arith) (omega arith))

lowest_digit :
    (ends : ℕ → ℕ) (op : ℕ → ℕ → ℕ) (x y : ℕ)
    → bitwise ends op (suc x) y ≡ bitwise ends op (suc x / 2) (y / 2) * 2 + op (suc x % 2) (y % 2)
lowest_digit ends op x y =
    omega (arith, enough_fuel ends op x (suc x / 2) (suc x / 2) (y / 2) (omega arith) (le_refl _))

pub and_step : (a b : ℕ) → bit_and a b ≡ bit_and (a / 2) (b / 2) * 2 + min (a % 2) (b % 2)
and_step zero b = simp bit_and-bitwise (omega arith)
and_step (suc a) b = simp bit_and-bitwise (lowest_digit (λ y. 0) min a b)

pub or_step : (a b : ℕ) → bit_or a b ≡ bit_or (a / 2) (b / 2) * 2 + max (a % 2) (b % 2)
or_step zero b = simp bit_or-bitwise (omega arith)
or_step (suc a) b = simp bit_or-bitwise (lowest_digit (λ y. y) max a b)

pub zero-or : (b : ℕ) → bit_or 0 b ≡ b
zero-or b = bit_or-bitwise 0 b

pub zero-xor : (b : ℕ) → bit_xor 0 b ≡ b
zero-xor b = bit_xor-bitwise 0 b

differ-bits : (x y : ℕ) → x < 2 → y < 2 → differ x y ≡ (x + y) % 2
differ-bits zero zero h k = refl
differ-bits zero (suc zero) h k = refl
differ-bits zero (suc (suc y)) h k = absurd (omega arith)
differ-bits (suc zero) zero h k = refl
differ-bits (suc zero) (suc zero) h k = refl
differ-bits (suc zero) (suc (suc y)) h k = absurd (omega arith)
differ-bits (suc (suc x)) y h k = absurd (omega arith)

pub xor_step : (a b : ℕ) → bit_xor a b ≡ bit_xor (a / 2) (b / 2) * 2 + (a + b) % 2
xor_step zero b = simp bit_xor-bitwise (omega arith)
xor_step (suc a) b = simp bit_xor-bitwise (
    omega (
      arith,
      lowest_digit (λ y. y) differ a b,
      differ-bits (suc a % 2) (b % 2) (omega arith) (omega arith),
    ))
