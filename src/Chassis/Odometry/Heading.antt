-- ===== src/Chassis/Odometry/Heading.antt =====
-- The heading of wtb_car.cpp: the loops of `normalizeAngle`.
use wtbcar_autoware_nav.Prelude.{
  ℕ, zero, suc, ◌≡◌, ◌⊎◌, inl, inr, refl, true, false, Bool-cases, some,
}
use wtbcar_autoware_nav.Floats.{Floats, Within}
use wtbcar_autoware_nav.Chassis.Odometry.{full_turn, turn_down, turn_up, normalize_angle}

module _ (f : Floats) where
  abbrev pub down : f.F64 → f.F64
  down a = f.sub a (full_turn f)

  abbrev pub up : f.F64 → f.F64
  up a = f.add a (full_turn f)

  abbrev pub turned : (f.F64 → f.F64) → ℕ → f.F64 → f.F64
  turned turn zero a = a
  turned turn (suc k) a = turned turn k (turn a)

  -- What rounding keeps of a turn: from beyond a half turn it never goes beyond the other one.
  pub record Turns : Type 0 where
    pub down_stays : (a : f.F64) → f.lt f.pi a ≡ true → f.lt (down a) (f.neg f.pi) ≡ false
    pub up_stays : (a : f.F64) → f.lt a (f.neg f.pi) ≡ true → f.lt f.pi (up a) ≡ false

  -- So many turns are enough for an angle, in either direction.
  pub record Suffices (k : ℕ) (a : f.F64) : Type 0 where
    pub downwards : f.lt f.pi (turned down k a) ≡ false
    pub upwards : f.lt (turned up k a) (f.neg f.pi) ≡ false

  record Lowered (k : ℕ) (a r : f.F64) : Type 0 where
    result : turn_down f (suc k) a ≡ some r
    below : f.lt f.pi r ≡ false
    either : (r ≡ a) ⊎ (f.lt r (f.neg f.pi) ≡ false)

  record Raised (k : ℕ) (a r : f.F64) : Type 0 where
    result : turn_up f (suc k) a ≡ some r
    above : f.lt r (f.neg f.pi) ≡ false
    below : f.lt f.pi r ≡ false

  no_turn_down : (k : ℕ) (a : f.F64) → f.lt f.pi a ≡ false → Lowered k a a
  unfolding turn_down
  no_turn_down k a e = record { result = rw e; below = e; either = inl refl }

  one_turn_down :
      (k : ℕ) (a r : f.F64)
      → Turns
      → f.lt f.pi a ≡ true
      → Lowered k (down a) r
      → Lowered (suc k) a r
  unfolding turn_down
  one_turn_down k a r turns e l = record {
    result = rw e l.result;
    below = l.below;
    either = inr (end l.either);
  }
    where
      end : (r ≡ down a) ⊎ (f.lt r (f.neg f.pi) ≡ false) → f.lt r (f.neg f.pi) ≡ false
      end (inl same) = rw same (turns.down_stays a e)
      end (inr h) = h

  turn_down_lem :
      (k : ℕ) (a : f.F64)
      → Turns
      → f.lt f.pi (turned down k a) ≡ false
      → (r : f.F64) × Lowered k a r
  turn_down_lem zero a turns h = (a, no_turn_down zero a h)
  turn_down_lem (suc k) a turns h = elim (Bool-cases (f.lt f.pi a)) [
    | inl e ↦ (let (r, l) = turn_down_lem k (down a) turns h in (r, one_turn_down k a r turns e l))
    | inr e ↦ (a, no_turn_down (suc k) a e)
  ]

  no_turn_up :
      (k : ℕ) (a : f.F64) → f.lt a (f.neg f.pi) ≡ false → f.lt f.pi a ≡ false → Raised k a a
  unfolding turn_up
  no_turn_up k a e h = record { result = rw e; above = e; below = h }

  one_turn_up :
      (k : ℕ) (a r : f.F64) → f.lt a (f.neg f.pi) ≡ true → Raised k (up a) r → Raised (suc k) a r
  unfolding turn_up
  one_turn_up k a r e l = record { result = rw e l.result; above = l.above; below = l.below }

  turn_up_lem :
      (k : ℕ) (a : f.F64)
      → Turns
      → f.lt (turned up k a) (f.neg f.pi) ≡ false
      → f.lt f.pi a ≡ false
      → (r : f.F64) × Raised k a r
  turn_up_lem zero a turns h l = (a, no_turn_up zero a h l)
  turn_up_lem (suc k) a turns h l = elim (Bool-cases (f.lt a (f.neg f.pi))) [
    | inl e ↦
        (let (r, more) = turn_up_lem k (up a) turns h (turns.up_stays a e) in
          (r, one_turn_up k a r e more))
    | inr e ↦ (a, no_turn_up (suc k) a e l)
  ]

  raise : (k : ℕ) (a m : f.F64) → Turns → Suffices k a → Lowered k a m → (r : f.F64) × Raised k m r
  raise k a m turns enough l = go l.either
    where
      go : (m ≡ a) ⊎ (f.lt m (f.neg f.pi) ≡ false) → (r : f.F64) × Raised k m r
      go (inl same) = turn_up_lem k m turns (rw same enough.upwards) l.below
      go (inr above) = (m, no_turn_up k m above l.below)

  normalize_result :
      (fuel : ℕ) (a m r : f.F64)
      → turn_down f fuel a ≡ some m
      → turn_up f fuel m ≡ some r
      → normalize_angle f fuel a ≡ some r
  unfolding normalize_angle
  normalize_result fuel a m r e h = rw (e, normalize_angle) h

  -- The two loops end for every angle that some number of turns brings back, on one unit of fuel more
  -- than that number, and the result is neither above a half turn nor below minus a half turn.
  pub normalize_angle_lem :
      (k : ℕ) (a : f.F64)
      → Turns
      → Suffices k a
      → (r : f.F64) × ((normalize_angle f (suc k) a ≡ some r) × Within f (f.neg f.pi) f.pi r)
  normalize_angle_lem k a turns enough =
      let (m, l) = turn_down_lem k a turns enough.downwards in
      let (r, h) = raise k a m turns enough l in
      (r, (normalize_result (suc k) a m r l.result h.result, (h.above, h.below)))
