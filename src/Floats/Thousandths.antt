-- ===== src/Floats/Thousandths.antt =====
-- A concrete stand-in for floating point: both types count thousandths. The witnesses run on it.
use wtbcar_autoware_nav.Prelude.{ℕ, ◌+◌, ◌*◌, ◌/◌, ◌^◌, ◌≡◌, not, ◌&&◌, false, arith}
use wtbcar_autoware_nav.Floats.{Floats, LtIrrefl}
use wtbcar_autoware_nav.Prelude.Int.{ℤ, pos, negsuc, pos_part, neg_part, ltb_ℤ, ◌+ℤ◌, ◌-ℤ◌, ◌*ℤ◌}

-- Division that cuts towards zero.
abbrev pub quot : ℤ → ℕ → ℤ
quot (pos n) d = pos (n / d)
quot (negsuc n) d = pos 0 -ℤ pos ((n + 1) / d)

abbrev pub magnitude : ℤ → ℤ
magnitude a = pos (pos_part a + neg_part a)

abbrev pub quot_ℤ : ℤ → ℤ → ℤ
quot_ℤ a (pos d) = quot a d
quot_ℤ a (negsuc d) = pos 0 -ℤ quot a (d + 1)

pub ltb_irrefl : (a : ℤ) → ltb_ℤ a a ≡ false
ltb_irrefl a = ground arith

abbrev pub thousandths : Floats
thousandths = record {
  F32 = ℤ;
  F64 = ℤ;
  widen = λ x. x;
  narrow = λ x. x;
  literal = λ m e. pos (m * 1000 / 10 ^ e);
  literal32 = λ m e. pos (m * 1000 / 10 ^ e);
  of_int = λ n. n *ℤ pos 1000;
  of_int32 = λ n. n *ℤ pos 1000;
  to_int = λ x. quot x 1000;
  to_unsigned = λ x. pos_part x / 1000;
  lt = ltb_ℤ;
  le = λ x y. not (ltb_ℤ y x);
  lt32 = ltb_ℤ;
  eq32 = λ x y. not (ltb_ℤ x y) && not (ltb_ℤ y x);
  neg = λ x. pos 0 -ℤ x;
  neg32 = λ x. pos 0 -ℤ x;
  add = ◌+ℤ◌;
  sub = ◌-ℤ◌;
  mul = λ x y. quot (x *ℤ y) 1000;
  div = λ x y. quot_ℤ (x *ℤ pos 1000) y;
  mul32 = λ x y. quot (x *ℤ y) 1000;
  div32 = λ x y. quot_ℤ (x *ℤ pos 1000) y;
  abs = magnitude;
  sin = λ x. x;
  cos = λ x. pos 1000;
  tan = λ x. x;
  atan = λ x. x;
  pi = pos 3142;
  seconds = λ ns. quot ns 1000000;
}

pub thousandths-LtIrrefl : LtIrrefl thousandths
thousandths-LtIrrefl a = ltb_irrefl a
