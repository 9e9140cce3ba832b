-- ===== src/CarOnly/Agreement.antt =====
-- Where wtb_car_only.cpp and wtb_car.cpp do the same, and the bound that only the former keeps.
use wtbcar_autoware_nav.Prelude.{
  ℕ, zero, suc, ◌≡◌, refl, ap, true, false, Bool-cases, inl, inr, ◌⊎◌, List, [], ◌∷◌, map, Option,
  none, some, arith, String,
}
use wtbcar_autoware_nav.Prelude.Int.{sub_ℕ}
use wtbcar_autoware_nav.Floats.{Floats, Within, LtIrrefl}
use wtbcar_autoware_nav.Chassis
use wtbcar_autoware_nav.Chassis.{Frame, command_frame, gear_command}
use wtbcar_autoware_nav.Chassis.Codec.{build_ctrl_cmd_data}
use wtbcar_autoware_nav.Chassis.Odometry
use wtbcar_autoware_nav.Chassis.Odometry.{
  Calibration, Pose, yaw_rate, limit_dt, settle_speed, normalize_angle,
}
use wtbcar_autoware_nav.Chassis.Odometry.Heading.{Turns, Suffices, normalize_angle_lem}
use wtbcar_autoware_nav.CarOnly.{
  Car, Odom, Output, can, odom, send_frames, send_speed_to_akm, cmd_vel_callback, publish_odom,
  max_delta, limit_steering, advance, calculate_and_published,
}

Option-cases {ℓ} : {A : Type ℓ} (r : Option A) → (r ≡ none) ⊎ ((a : A) × (r ≡ some a))
Option-cases none = inl refl
Option-cases (some a) = inr (a, refl)

module _ (f : Floats) where
  -- An odometry message of wtb_car.cpp, without its covariances.
  abbrev pub without_covariance : Odometry.Odom f → Odom f
  without_covariance o = record {
    stamp = o.stamp;
    frame_id = o.frame_id;
    child_frame_id = o.child_frame_id;
    position_x = o.position_x;
    position_y = o.position_y;
    orientation_z = o.orientation_z;
    orientation_w = o.orientation_w;
    linear_x = o.linear_x;
    angular_z = o.angular_z;
  }

  -- An update of wtb_car.cpp, as one of wtb_car_only.cpp.
  abbrev pub as_only : Option (Pose f × List (Odometry.Odom f)) → Option (Pose f × List (Odom f))
  as_only none = none
  as_only (some (p, odoms)) = some (p, map without_covariance odoms)

  -- The steering angle within the limit of thirty degrees to both sides.
  abbrev pub Steerable : f.F64 → Type 0
  Steerable = Within f (f.neg (max_delta f)) (max_delta f)

  limit-Steerable : (s : f.F64) → Steerable s → limit_steering f s ≡ s
  unfolding limit_steering
  limit-Steerable s (low, high) = rw (high, low) refl

  -- One step of the integration is the same.
  advance_lem :
      (fuel : ℕ) (k : Calibration f) (p : Pose f) (clock : ℕ → ℕ) (dt v rate : f.F64)
      → (elim (advance f fuel k p clock dt v rate) [
        | none ↦ none
        | some (p', out) ↦ some (p', out ∷ [])
      ])
        ≡ as_only (elim (Odometry.advance f fuel k p clock dt v rate) [
          | none ↦ none
          | some (p', out) ↦ some (p', out ∷ [])
        ])
  unfolding advance Odometry.advance publish_odom Odometry.publish_odom
  advance_lem fuel k p clock dt v rate =
      elim (Option-cases (normalize_angle f fuel (f.add p.theta (f.mul rate dt)))) [
        | inl e ↦ simp (e, advance, Odometry.advance)
        | inr (theta, e) ↦ simp (e, advance, Odometry.advance)
      ]

  -- With a steering angle within thirty degrees of its offset, an update is that of wtb_car.cpp: the
  -- same pose and the same message but for its covariances, and the same use of the fuel.
  pub calculate_and_published-agree :
      (fuel : ℕ) (k : Calibration f) (p : Pose f) (clock : ℕ → ℕ) (velocity angle : f.F64)
      → Steerable (f.sub angle k.steer_offset)
      → calculate_and_published f fuel k p clock velocity angle
        ≡ as_only (Odometry.calculate_and_published f fuel k p clock velocity angle)
  unfolding calculate_and_published Odometry.calculate_and_published
  calculate_and_published-agree fuel k p clock velocity angle within =
      elim (Bool-cases (f.le (f.seconds (sub_ℕ (clock 0) p.last_time)) (f.literal 0 0))) [
        | inl e ↦ rw e refl
        | inr e ↦
            rw (e, limit-Steerable (f.sub angle k.steer_offset) within)
              (advance_lem fuel k p clock _ _ _)
      ]

  -- The steering angle that the limit leaves lies within thirty degrees to both sides.
  limit-within :
      LtIrrefl f
      → f.lt (max_delta f) (f.neg (max_delta f)) ≡ false
      → (s : f.F64) → Steerable (limit_steering f s)
  unfolding limit_steering
  limit-within irrefl order s = ground (arith, irrefl (max_delta f), irrefl (f.neg (max_delta f)))

  -- The heading that an update reaches before it is normalised.
  abbrev pub raw_heading : Calibration f → Pose f → (ℕ → ℕ) → f.F64 → f.F64 → f.F64
  raw_heading k p clock velocity angle = f.add p.theta (
      f.mul
        (yaw_rate f k (settle_speed f (f.mul velocity k.vel_scale))
          (limit_steering f (f.sub angle k.steer_offset)))
        (limit_dt f (f.seconds (sub_ℕ (clock 0) p.last_time))))

  -- Messages whose yaw rate is, at their speed, that of a steering angle within thirty degrees.
  abbrev pub AllSteerable : Calibration f → List (Odom f) → Type 0
  AllSteerable k [] = Unit
  AllSteerable k (o ∷ out) =
      ((s : f.F64) × (Steerable s × (o.angular_z ≡ yaw_rate f k o.linear_x s))) × AllSteerable k out

  -- Every update gives a result, on one unit of fuel more than the turns that bring the new heading
  -- back. Whatever angle the drive reports, a message that it publishes has the yaw rate, at its speed,
  -- of a steering angle within thirty degrees.
  pub calculate_and_published-AllSteerable :
      (turns : ℕ) (k : Calibration f) (p : Pose f) (clock : ℕ → ℕ) (velocity angle : f.F64)
      → LtIrrefl f
      → f.lt (max_delta f) (f.neg (max_delta f)) ≡ false
      → Turns f
      → Suffices f turns (raw_heading k p clock velocity angle)
      → (r : Pose f × List (Odom f)) × ((calculate_and_published f
              (suc turns)
              k
              p
              clock
              velocity
              angle
            ≡ some r)
          × AllSteerable k r.1)
  unfolding calculate_and_published advance publish_odom
  calculate_and_published-AllSteerable turns k p clock velocity angle irrefl order laws enough =
      elim (Bool-cases (f.le (f.seconds (sub_ℕ (clock 0) p.last_time)) (f.literal 0 0))) [
        | inl e ↦ ((p, []), (rw e refl, tt))
        | inr e ↦
            (let (theta, (normal, within)) =
                normalize_angle_lem f turns (raw_heading k p clock velocity angle) laws enough in
              let s = limit_steering f (f.sub angle k.steer_offset) in
              let v = settle_speed f (f.mul velocity k.vel_scale) in
              let dt = limit_dt f (f.seconds (sub_ℕ (clock 0) p.last_time)) in
              let x = f.add p.x (f.mul (f.mul v (f.cos p.theta)) dt) in
              let y = f.add p.y (f.mul (f.mul v (f.sin p.theta)) dt) in
              (
                (
                  record { x = x; y = y; theta = theta; last_time = clock 0 },
                  publish_odom f k (clock 1) x y theta v (yaw_rate f k v s) ∷ [],
                ),
                (
                  simp (e, normal, calculate_and_published, advance),
                  ((s, (limit-within irrefl order (f.sub angle k.steer_offset), refl)), tt),
                ),
              ))
      ]

  -- The frames among what the drivers publish.
  abbrev pub frames : List (Output f) → List Frame
  frames [] = []
  frames (can frame ∷ out) = frame ∷ frames out
  frames (odom o ∷ out) = frames out

  abbrev pub full_frames : List (Chassis.Output f) → List Frame
  full_frames [] = []
  full_frames (Chassis.can frame ∷ out) = frame ∷ full_frames out
  full_frames (Chassis.odom o ∷ out) = full_frames out
  full_frames (Chassis.car m ∷ out) = full_frames out

  send_frames_lem :
      (rounds : ℕ) (msg : Frame) (gear : String) (speed angle : f.F32) (counter : ℕ)
      → let only = send_frames f rounds msg gear speed angle counter in
        let full = Chassis.send_frames f rounds msg gear speed angle counter in
        (frames only.1 ≡ full_frames full.1) × (only.0 ≡ full.0)
  unfolding send_frames Chassis.send_frames
  send_frames_lem zero msg gear speed angle counter = (refl, refl)
  send_frames_lem (suc rounds) msg gear speed angle counter =
      let (payload, next) = build_ctrl_cmd_data f gear speed angle counter in
      let (e, k) = send_frames_lem rounds msg gear speed angle next in
      (ap (λ l. record msg { payload = payload } ∷ l) e, k)

  -- A driver of wtb_car.cpp that runs, on a speed that it does not limit, and this one send the same
  -- frames for a velocity and go on with the same counter.
  pub cmd_vel_callback-agree :
      (c : Car f) (full : Chassis.Car f) (clock full_clock : ℕ → ℕ) (linear_x angular_z : f.F64)
      → full.alive_counter ≡ c.alive_counter
      → full_clock 1 ≡ clock 0
      → full.enable_run ≡ true
      → f.lt full.max_speed linear_x ≡ false
      → let only = cmd_vel_callback f c clock linear_x angular_z in
        let both = Chassis.cmd_vel_callback f full full_clock linear_x angular_z in
        (frames only.1 ≡ full_frames both.1) × (only.0.alive_counter ≡ both.0.alive_counter)
  unfolding cmd_vel_callback Chassis.cmd_vel_callback send_speed_to_akm Chassis.send_speed_to_akm
      Chassis.limit_speed
  cmd_vel_callback-agree c full clock full_clock linear_x angular_z counter time running slow =
      rw (running, slow, counter, time, Chassis.cmd_vel_callback, Chassis.limit_speed)
        (send_frames_lem 3 (command_frame (clock 0)) _ _ _ c.alive_counter)
