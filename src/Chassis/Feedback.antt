-- ===== src/Chassis/Feedback.antt =====
-- What wtb_car.cpp does with the frames that come from the chassis: can_tx_callback.
use wtbcar_autoware_nav.Prelude.{
  ℕ, suc, ◌≡◌, ◌≢◌, refl, false, ◌==◌, Bool-cases, inl, inr, List, [], ◌∷◌, ◌++◌, map, some, arith,
  if◌then◌else◌,
}
use wtbcar_autoware_nav.Floats.{Floats}
use wtbcar_autoware_nav.Chassis.{
  Car, Frame, Output, odom, car, read_feedback, on_feedback, can_tx_callback,
}
use wtbcar_autoware_nav.Chassis.Odometry.{Pose, Odom}
use wtbcar_autoware_nav.Chassis.Codec.{Payload}
use wtbcar_autoware_nav.Chassis.Odometry.Heading.{Turns, Suffices, normalize_angle_lem}
use wtbcar_autoware_nav.Chassis.Odometry.Update.{
  Updated, raw_heading, elapsed, new_pose, new_odom, idle, driven, calculate_and_published_lem,
}

module _ (f : Floats) where
  -- What feedback of the drive leaves: the odometry's update, and one message of the car after it, with
  -- the speed and the angle that are stored, and the battery as it was.
  pub record Drove (c : Car f) (clock : ℕ → ℕ) (msg : Frame) (c' : Car f) (out : List (Output f))
      : Type 0 where
    pub odoms : List (Odom f)
    pub updated : Updated f c.pose clock (c'.pose, odoms)
    pub published : out ≡ map odom odoms ++ (car c'.car_msg ∷ [])
    pub speed : c'.latest_linear_velocity ≡ (read_feedback f msg.payload).0
    pub angle : c'.latest_steering_angle ≡ (read_feedback f msg.payload).1
    pub told_speed : c'.car_msg.speed ≡ c'.latest_linear_velocity
    pub told_angle : c'.car_msg.angle ≡ c'.latest_steering_angle
    pub battery : c'.car_msg.battery ≡ c.car_msg.battery
    pub stamp : c'.latest_stamp ≡ msg.stamp

  -- The outcome, by the identifier of the frame.
  pub data Fed (c : Car f) (clock : ℕ → ℕ) (msg : Frame) : Car f × List (Output f) → Type 0 where
    drive :
        {c' : Car f} {out : List (Output f)}
        → msg.id ≡ 0x18C4D2EF
        → Drove c clock msg c' out
        → Fed c clock msg (c', out)
    battery :
        msg.id ≡ 0x18C4E2EF
        → Fed c clock msg
            (record c { car_msg = record (c.car_msg) { battery = msg.payload.b0 } }, [])
    other : msg.id ≢ 0x18C4D2EF → msg.id ≢ 0x18C4E2EF → Fed c clock msg (c, [])

  -- The switch, the heartbeat and the parameters, which feedback leaves alone.
  pub record Untouched (c c' : Car f) : Type 0 where
    pub counter : c'.alive_counter ≡ c.alive_counter
    pub enabled : c'.enable_run ≡ c.enable_run
    pub stopped : c'.enable_last_time ≡ c.enable_last_time
    pub config : c'.config ≡ c.config

  on_feedback-Drove :
      (c : Car f) (clock : ℕ → ℕ) (msg : Frame) (r : Pose f × List (Odom f))
      → Updated f c.pose clock r
      → let (speed, angle) = read_feedback f msg.payload in
        let (c', out) = on_feedback f c clock msg.stamp speed angle r in Drove c clock msg c' out
  unfolding on_feedback
  on_feedback-Drove c clock msg (pose, odoms) h = record {
    odoms = odoms;
    updated = h;
    published = refl;
    speed = refl;
    angle = refl;
    told_speed = refl;
    told_angle = refl;
    battery = refl;
    stamp = refl;
  }

  on_feedback-Untouched :
      (c : Car f) (clock : ℕ → ℕ) (msg : Frame) (r : Pose f × List (Odom f))
      → let (speed, angle) = read_feedback f msg.payload in
        Untouched c (on_feedback f c clock msg.stamp speed angle r).0
  unfolding on_feedback
  on_feedback-Untouched c clock msg (pose, odoms) = record {
    counter = refl;
    enabled = refl;
    stopped = refl;
    config = refl;
  }

  differs : {a b : ℕ} → a ≡ b → (a == b) ≡ false → ⊥
  differs {a} {b} e h = ground arith

  -- Every frame gives a result, on one unit of fuel more than the turns that bring the heading back.
  -- Feedback of the drive updates the odometry and publishes one message of the car after what the
  -- update publishes; a battery frame stores its first byte for later messages; any other frame
  -- changes nothing. None touches the run switch, the heartbeat or the parameters.
  pub can_tx_callback-Fed :
      (turns : ℕ) (c : Car f) (clock : ℕ → ℕ) (msg : Frame)
      → Turns f
      → (let (speed, angle) = read_feedback f msg.payload in
          Suffices f turns (raw_heading f c.calibration c.pose clock speed angle))
      → (r : Car f × List (Output f)) × ((can_tx_callback f (suc turns) c clock msg ≡ some r)
          × (Fed c clock msg r × Untouched c r.0))
  unfolding can_tx_callback
  can_tx_callback-Fed turns c clock msg laws enough = elim (Bool-cases (msg.id == 0x18C4D2EF)) [
    | inl e ↦
        (let (speed, angle) = read_feedback f msg.payload in
          let (r, (result, updated)) =
            calculate_and_published_lem f turns c.calibration c.pose clock speed angle laws
              enough in
          (
            on_feedback f c clock msg.stamp speed angle r,
            (
              rw (e, result, can_tx_callback) refl,
              (
                drive (ground arith) (on_feedback-Drove c clock msg r updated),
                on_feedback-Untouched c clock msg r,
              ),
            ),
          ))
    | inr e ↦ elim (Bool-cases (msg.id == 0x18C4E2EF)) [
      | inl b ↦ (
        (record c { car_msg = record (c.car_msg) { battery = msg.payload.b0 } }, []),
        (
          rw (e, b) refl,
          (
            battery (ground arith),
            record { counter = refl; enabled = refl; stopped = refl; config = refl },
          ),
        ),
      )
      | inr b ↦ (
        (c, []),
        (
          rw (e, b) refl,
          (
            other (λ k. absurd (differs k e)) (λ k. absurd (differs k b)),
            record { counter = refl; enabled = refl; stopped = refl; config = refl },
          ),
        ),
      )
    ]
  ]

  -- The update of the odometry at the speed and the angle that a payload names, where the heading
  -- comes out as `theta`.
  abbrev pub reckoned : Car f → (ℕ → ℕ) → Payload → f.F64 → Pose f × List (Odom f)
  reckoned c clock payload theta =
      let (speed, angle) = read_feedback f payload in
      if f.le (elapsed f c.pose clock) (f.literal 0 0) then (c.pose, []) else (
        new_pose f c.calibration c.pose clock speed theta,
        new_odom f c.calibration c.pose clock speed angle theta ∷ [],
      )

  -- Feedback of the drive, with the whole update written out.
  pub can_tx_callback-drive :
      (turns : ℕ) (c : Car f) (clock : ℕ → ℕ) (msg : Frame)
      → msg.id ≡ 0x18C4D2EF
      → Turns f
      → (let (speed, angle) = read_feedback f msg.payload in
          Suffices f turns (raw_heading f c.calibration c.pose clock speed angle))
      → (theta : f.F64) × (let (speed, angle) = read_feedback f msg.payload in
          can_tx_callback f (suc turns) c clock msg
          ≡ some (on_feedback f c clock msg.stamp speed angle (reckoned c clock msg.payload theta)))
  unfolding can_tx_callback
  can_tx_callback-drive turns c clock msg e laws enough =
      let (speed, angle) = read_feedback f msg.payload in
      let (theta, (result, within)) =
        normalize_angle_lem f turns (raw_heading f c.calibration c.pose clock speed angle) laws
          enough in
      (
        theta,
        elim (Bool-cases (f.le (elapsed f c.pose clock) (f.literal 0 0))) [
          | inl still ↦
              rw
                (
                  e,
                  still,
                  idle f (suc turns) c.calibration c.pose clock speed angle still,
                  can_tx_callback,
                )
                refl
          | inr later ↦
              rw
                (
                  e,
                  later,
                  driven f (suc turns) c.calibration c.pose clock speed angle theta later result,
                  can_tx_callback,
                )
                refl
        ],
      )
