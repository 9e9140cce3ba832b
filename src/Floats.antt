-- ===== src/Floats.antt =====
-- Floating point and durations as the nodes use them. The numbers are IEEE hardware and the C++
-- runtime, not code of the repository: they are a parameter of every definition that computes with
-- them, and a theorem that needs a law of theirs takes it as a hypothesis.

pub mod Thousandths
use wtbcar_autoware_nav.Prelude.{ℕ, ◌≡◌, Bool, false, if◌then◌else◌, arith}
use wtbcar_autoware_nav.Prelude.Int.{ℤ}

-- `double`, `float`, their conversions and the operations of the nodes. `literal m e` is the literal
-- that stands for m / 10 ^ e; the casts to integers cut towards zero; `seconds` is
-- `rclcpp::Duration::seconds` of a count of nanoseconds.
pub record Floats : Type 1 where
  pub F32 : Type 0
  pub F64 : Type 0
  pub widen : F32 → F64
  pub narrow : F64 → F32
  pub literal : ℕ → ℕ → F64
  pub literal32 : ℕ → ℕ → F32
  pub of_int : ℤ → F64
  pub of_int32 : ℤ → F32
  pub to_int : F64 → ℤ
  pub to_unsigned : F32 → ℕ
  pub lt : F64 → F64 → Bool
  pub le : F64 → F64 → Bool
  pub lt32 : F32 → F32 → Bool
  pub eq32 : F32 → F32 → Bool
  pub neg : F64 → F64
  pub neg32 : F32 → F32
  pub add : F64 → F64 → F64
  pub sub : F64 → F64 → F64
  pub mul : F64 → F64 → F64
  pub div : F64 → F64 → F64
  pub mul32 : F32 → F32 → F32
  pub div32 : F32 → F32 → F32
  pub abs : F64 → F64
  pub sin : F64 → F64
  pub cos : F64 → F64
  pub tan : F64 → F64
  pub atan : F64 → F64
  pub pi : F64
  pub seconds : ℤ → F64

-- No number, a NaN included, is less than itself.
abbrev pub LtIrrefl : Floats → Type 0
LtIrrefl f = (x : f.F64) → f.lt x x ≡ false

-- `std::clamp`.
unfoldable pub clamp : (f : Floats) → f.F64 → f.F64 → f.F64 → f.F64
clamp f v lo hi = if f.lt v lo then lo else if f.lt hi v then hi else v

-- What `std::clamp` promises of its result.
abbrev pub Within : (f : Floats) → f.F64 → f.F64 → f.F64 → Type 0
Within f lo hi v = (f.lt v lo ≡ false) × (f.lt hi v ≡ false)

pub clamp-Within :
    (f : Floats)
    → LtIrrefl f
    → (v lo hi : f.F64) → f.lt hi lo ≡ false
    → Within f lo hi (clamp f v lo hi)
unfolding clamp
clamp-Within f irrefl v lo hi h = ground (arith, irrefl lo, irrefl hi)
