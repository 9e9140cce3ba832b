-- ===== src/Chassis/Odometry/Update.antt =====
-- One update of the odometry of wtb_car.cpp: what is stored and what is published.
use wtbcar_autoware_nav.Prelude.{
  ℕ, suc, ◌≡◌, refl, true, false, Bool-cases, List, [], ◌∷◌, some, inl, inr,
}
use wtbcar_autoware_nav.Prelude.Int.{sub_ℕ}
use wtbcar_autoware_nav.Floats.{Floats, Within}
use wtbcar_autoware_nav.Chassis.Odometry.{
  Calibration, Pose, Odom, publish_odom, limit_dt, settle_speed, yaw_rate, normalize_angle, advance,
  calculate_and_published,
}
use wtbcar_autoware_nav.Chassis.Odometry.Heading.{Turns, Suffices, normalize_angle_lem}

module _ (f : Floats) where
  abbrev pub elapsed : Pose f → (ℕ → ℕ) → f.F64
  elapsed p clock = f.seconds (sub_ℕ (clock 0) p.last_time)

  -- The heading that an update reaches before it is normalised.
  abbrev pub raw_heading : Calibration f → Pose f → (ℕ → ℕ) → f.F64 → f.F64 → f.F64
  raw_heading k p clock velocity angle = f.add p.theta (
      f.mul
        (yaw_rate f k (settle_speed f (f.mul velocity k.vel_scale)) (f.sub angle k.steer_offset))
        (limit_dt f (elapsed p clock)))

  -- Nothing, if no time has passed; else one message, which agrees with the new pose, whose heading
  -- is within a half turn and whose time is the present one.
  pub data Updated (p : Pose f) (clock : ℕ → ℕ) : Pose f × List (Odom f) → Type 0 where
    kept : f.le (elapsed p clock) (f.literal 0 0) ≡ true → Updated p clock (p, [])
    moved :
        {p' : Pose f} {o : Odom f}
        → f.le (elapsed p clock) (f.literal 0 0) ≡ false
        → o.position_x ≡ p'.x
        → o.position_y ≡ p'.y
        → o.orientation_z ≡ f.sin (f.div p'.theta (f.literal 2 0))
        → o.orientation_w ≡ f.cos (f.div p'.theta (f.literal 2 0))
        → Within f (f.neg f.pi) f.pi p'.theta
        → p'.last_time ≡ clock 0
        → Updated p clock (p', o ∷ [])

  pub idle :
      (fuel : ℕ) (k : Calibration f) (p : Pose f) (clock : ℕ → ℕ) (velocity angle : f.F64)
      → f.le (elapsed p clock) (f.literal 0 0) ≡ true
      → calculate_and_published f fuel k p clock velocity angle ≡ some (p, [])
  unfolding calculate_and_published
  idle fuel k p clock velocity angle e = rw e

  abbrev pub new_pose : Calibration f → Pose f → (ℕ → ℕ) → f.F64 → f.F64 → Pose f
  new_pose k p clock velocity theta =
      let v = settle_speed f (f.mul velocity k.vel_scale) in
      let dt = limit_dt f (elapsed p clock) in
      record {
        x = f.add p.x (f.mul (f.mul v (f.cos p.theta)) dt);
        y = f.add p.y (f.mul (f.mul v (f.sin p.theta)) dt);
        theta = theta;
        last_time = clock 0;
      }

  abbrev pub new_odom : Calibration f → Pose f → (ℕ → ℕ) → f.F64 → f.F64 → f.F64 → Odom f
  new_odom k p clock velocity angle theta =
      let v = settle_speed f (f.mul velocity k.vel_scale) in
      let q = new_pose k p clock velocity theta in
      publish_odom f k (clock 1) q.x q.y theta v (yaw_rate f k v (f.sub angle k.steer_offset))

  pub driven :
      (fuel : ℕ) (k : Calibration f) (p : Pose f) (clock : ℕ → ℕ) (velocity angle theta : f.F64)
      → f.le (elapsed p clock) (f.literal 0 0) ≡ false
      → normalize_angle f fuel (raw_heading k p clock velocity angle) ≡ some theta
      → calculate_and_published f fuel k p clock velocity angle
        ≡ some (new_pose k p clock velocity theta, new_odom k p clock velocity angle theta ∷ [])
  unfolding calculate_and_published advance
  driven fuel k p clock velocity angle theta e h = simp (e, h, calculate_and_published, advance)

  -- Every update gives a result, on one unit of fuel more than the turns that bring the new heading
  -- back: it keeps the pose and publishes nothing if no time has passed, and else it publishes one
  -- message that agrees with the new pose, whose heading is within a half turn.
  pub calculate_and_published_lem :
      (turns : ℕ) (k : Calibration f) (p : Pose f) (clock : ℕ → ℕ) (velocity angle : f.F64)
      → Turns f
      → Suffices f turns (raw_heading k p clock velocity angle)
      → (r : Pose f × List (Odom f)) × ((calculate_and_published f
              (suc turns)
              k
              p
              clock
              velocity
              angle
            ≡ some r)
          × Updated p clock r)
  unfolding publish_odom
  calculate_and_published_lem turns k p clock velocity angle laws enough =
      elim (Bool-cases (f.le (elapsed p clock) (f.literal 0 0))) [
        | inl e ↦ ((p, []), (idle (suc turns) k p clock velocity angle e, kept e))
        | inr e ↦
            (let (theta, (result, within)) =
                normalize_angle_lem f turns (raw_heading k p clock velocity angle) laws enough in
              (
                (new_pose k p clock velocity theta, new_odom k p clock velocity angle theta ∷ []),
                (
                  driven (suc turns) k p clock velocity angle theta e result,
                  moved e refl refl refl refl within refl,
                ),
              ))
      ]
