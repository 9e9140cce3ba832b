-- ===== src/Chassis/Bounded.antt =====
-- What all frames of wtb_car.cpp command, when the speed commands that it gets satisfy a condition.
use wtbcar_autoware_nav.Prelude.{
  ℕ, zero, suc, ◌≡◌, refl, sym, ap, ◌∙◌, subst, String, str_eq, true, false, if◌then◌else◌,
  if_cases, List, [], ◌∷◌, ◌++◌,
}
use wtbcar_autoware_nav.Floats.{Floats}
use wtbcar_autoware_nav.Chassis.Codec.{Payload, build_ctrl_cmd_data}
use wtbcar_autoware_nav.Chassis.Heartbeat.{payloads}
use wtbcar_autoware_nav.Chassis.{
  Car, Config, Frame, Output, Event, can, odom, car, cmd_vel, twist_cmd, run_static, gear_command,
  send_frames, command_frame, send_speed_to_akm, limit_speed, cmd_vel_callback, may_resume,
  twist_cmd_vel_callback, run_static_callback, stop, step, run,
}

module _ (f : Floats) where
  -- The speed and the angle of a command, as the node packs them: the speed cut to `max_speed`.
  abbrev pub packed : Config f → f.F64 → f.F64 → ℕ → Payload
  packed config speed steer counter =
      let (gear, v, degrees) =
        gear_command f (f.narrow (if f.lt config.max_speed speed then config.max_speed else speed))
          (f.narrow steer) in
      (build_ctrl_cmd_data f gear v (f.of_int32 degrees) counter).0

  -- A payload that is packed for a command with this property.
  pub record IsSent {ℓ} (config : Config f) (P : f.F64 → f.F64 → Type ℓ) (p : Payload)
      : Type ℓ where
    pub speed : f.F64
    pub steer : f.F64
    pub allowed : P speed steer
    pub counter : ℕ
    pub made : p ≡ packed config speed steer counter

  abbrev pub AllSent {ℓ} : Config f → (f.F64 → f.F64 → Type ℓ) → List Payload → Type ℓ
  AllSent config P [] = Unit
  AllSent config P (p ∷ ps) = IsSent config P p × AllSent config P ps

  -- All speed commands among the events have the property; run commands are free.
  abbrev pub EachDrive {ℓ} : (f.F64 → f.F64 → Type ℓ) → List ((ℕ → ℕ) × Event f) → Type ℓ
  EachDrive P [] = Unit
  EachDrive P ((clock, cmd_vel speed steer) ∷ es) = P speed steer × EachDrive P es
  EachDrive P ((clock, twist_cmd speed steer) ∷ es) = P speed steer × EachDrive P es
  EachDrive P ((clock, run_static command) ∷ es) = EachDrive P es

module _ {ℓ} (f : Floats) (config : Config f) (P : f.F64 → f.F64 → Type ℓ) where
  abbrev Sends : List (Output f) → Type ℓ
  Sends os = AllSent f config P (payloads os)

  Sends-append : (os ps : List (Output f)) → Sends os → Sends ps → Sends (os ++ ps)
  Sends-append [] ps h k = k
  Sends-append (can frame ∷ os) ps h k = (h.0, Sends-append os ps h.1 k)
  Sends-append (odom o ∷ os) ps h k = Sends-append os ps h k
  Sends-append (car m ∷ os) ps h k = Sends-append os ps h k

  frames-Sends :
      (rounds : ℕ) (msg : Frame) (speed steer : f.F64) (counter : ℕ)
      → P speed steer
      → let (gear, v, degrees) =
          gear_command f
            (f.narrow (if f.lt config.max_speed speed then config.max_speed else speed))
            (f.narrow steer) in
        Sends (send_frames f rounds msg gear v (f.of_int32 degrees) counter).1
  unfolding send_frames
  frames-Sends zero msg speed steer counter h = tt
  frames-Sends (suc rounds) msg speed steer counter h =
      let (gear, v, degrees) =
        gear_command f (f.narrow (if f.lt config.max_speed speed then config.max_speed else speed))
          (f.narrow steer) in
      (
        record { speed = speed; steer = steer; allowed = h; counter = counter; made = refl },
        frames-Sends rounds msg speed steer
            (build_ctrl_cmd_data f gear v (f.of_int32 degrees) counter).1 h,
      )

  -- What an operation leaves: the parameters, and frames for commands with the property.
  abbrev Outcome : Car f × List (Output f) → Type ℓ
  Outcome r = (r.0.config ≡ config) × Sends r.1

  command_sent :
      (c : Car f) (now : ℕ) (speed steer : f.F64)
      → c.config ≡ config
      → P speed steer
      → Outcome (send_speed_to_akm f c now (f.narrow (limit_speed f c speed)) (f.narrow steer))
  unfolding send_speed_to_akm limit_speed
  command_sent c now speed steer e h = (
    e,
    subst
        (λ (k : Config f).
          Sends
            (send_speed_to_akm f c now
              (f.narrow (if f.lt k.max_speed speed then k.max_speed else speed))
              (f.narrow steer)).1)
        (sym e) (frames-Sends 3 (command_frame now) speed steer c.alive_counter h),
  )

  cmd_vel_sent :
      (c : Car f) (clock : ℕ → ℕ) (speed steer : f.F64)
      → c.config ≡ config
      → P speed steer
      → Outcome (cmd_vel_callback f c clock speed steer)
  unfolding cmd_vel_callback
  cmd_vel_sent c clock speed steer e h =
      let v = f.narrow (limit_speed f c speed) in
      let d : Car f = record c { enable_run = true } in
      if_cases Outcome c.enable_run {x = send_speed_to_akm f c (clock 1) v (f.narrow steer)}
        {y = if may_resume f c (clock 0)
          then send_speed_to_akm f d (clock 1) v (f.narrow steer)
          else (c, [])}
        (λ _. command_sent c (clock 1) speed steer e h)
        (λ _.
          if_cases Outcome (may_resume f c (clock 0))
            {x = send_speed_to_akm f d (clock 1) v (f.narrow steer)} {y = (c, [])}
            (λ _. unfold limit_speed in command_sent d (clock 1) speed steer e h) (λ _. (e, tt)))

  module _ (rest : P (f.literal 0 0) (f.literal 0 0))
      (forwards : f.lt config.max_speed (f.literal 0 0) ≡ false) where
    stop_sent : (c : Car f) (now : ℕ) → c.config ≡ config → Outcome (stop f c now)
    unfolding stop limit_speed
    stop_sent c now e =
        subst
          (λ (v : f.F64).
            Outcome (send_speed_to_akm f c now (f.narrow v) (f.narrow (f.literal 0 0))))
          (ap
              (λ (k : Config f).
                if f.lt k.max_speed (f.literal 0 0) then k.max_speed else f.literal 0 0)
              e
            ∙ (rw forwards refl))
          (command_sent c now (f.literal 0 0) (f.literal 0 0) e rest)

    run_static_sent :
        (c : Car f) (clock : ℕ → ℕ) (command : String)
        → c.config ≡ config
        → Outcome (run_static_callback f c clock command)
    unfolding run_static_callback
    run_static_sent c clock command e =
        if_cases Outcome (str_eq command c.last_run_static_command) (λ _. (e, tt))
          (λ _.
            if_cases Outcome (str_eq command "start") (λ _. (e, tt))
              (λ _.
                if_cases Outcome (str_eq command "stop")
                  (λ _. if_cases Outcome c.enable_run (λ _. stop_sent _ (clock 1) e) (λ _. (e, tt)))
                  (λ _. (e, tt))))

    -- Whatever run commands come between, every frame of a run is packed for a speed command with the
    -- property, or for a stop, which has it too.
    pub run-AllSent :
        (c : Car f) (es : List ((ℕ → ℕ) × Event f))
        → c.config ≡ config
        → EachDrive f P es
        → Outcome (run f c es)
    unfolding run step twist_cmd_vel_callback
    run-AllSent c [] e h = (e, tt)
    run-AllSent c ((clock, cmd_vel speed steer) ∷ es) e h =
        let now = cmd_vel_sent c clock speed steer e h.0 in
        let first = cmd_vel_callback f c clock speed steer in
        let later = run-AllSent first.0 es now.0 h.1 in
        (later.0, Sends-append first.1 (run f first.0 es).1 now.1 later.1)
    run-AllSent c ((clock, twist_cmd speed steer) ∷ es) e h =
        let now = command_sent c (clock 0) speed steer e h.0 in
        let first = twist_cmd_vel_callback f c clock speed steer in
        let later = run-AllSent first.0 es now.0 h.1 in
        (later.0, Sends-append first.1 (run f first.0 es).1 now.1 later.1)
    run-AllSent c ((clock, run_static command) ∷ es) e h =
        let now = run_static_sent c clock command e in
        let first = run_static_callback f c clock command in
        let later = run-AllSent first.0 es now.0 h in
        (later.0, Sends-append first.1 (run f first.0 es).1 now.1 later.1)
