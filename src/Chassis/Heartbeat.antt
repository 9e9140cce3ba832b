-- ===== src/Chassis/Heartbeat.antt =====
-- What the chassis sees of wtb_car.cpp over time: the heartbeat and the checksum of every frame.
use wtbcar_autoware_nav.Prelude.{
  ℕ, zero, suc, ◌+◌, ◌/◌, ◌%◌, ◌<◌, ◌≡◌, refl, sym, ap, subst, String, str_eq, true, false,
  if_cases, List, [], ◌∷◌, ◌++◌, arith,
}
use wtbcar_autoware_nav.Floats.{Floats}
use wtbcar_autoware_nav.Chassis.Codec.{Payload, build_ctrl_cmd_data}
use wtbcar_autoware_nav.Chassis.Codec.Checksum.{Passes, IsBytes, build_ctrl_cmd_data_lem}
use wtbcar_autoware_nav.Chassis.{
  Car, Frame, Output, Event, can, odom, car, cmd_vel, twist_cmd, run_static, send_frames,
  command_frame, send_speed_to_akm, cmd_vel_callback, twist_cmd_vel_callback, run_static_callback,
  stop, step, run, may_resume, gear_command,
}

-- The payloads of the CAN frames among the messages, in order.
abbrev pub payloads : {f : Floats} → List (Output f) → List Payload
payloads [] = []
payloads (can frame ∷ os) = frame.payload ∷ payloads os
payloads (odom o ∷ os) = payloads os
payloads (car m ∷ os) = payloads os

pub payloads-append :
    {f : Floats} (os ps : List (Output f)) → payloads (os ++ ps) ≡ payloads os ++ payloads ps
payloads-append [] ps = refl
payloads-append (can frame ∷ os) ps = ap (λ l. frame.payload ∷ l) (payloads-append os ps)
payloads-append (odom o ∷ os) ps = payloads-append os ps
payloads-append (car m ∷ os) ps = payloads-append os ps

-- Payloads of bytes that pass the checksum and number themselves from `counter` on, modulo 16, up to
-- the value `next` for the payload to come.
pub data Beats : ℕ → List Payload → ℕ → Type 0 where
  still : {counter : ℕ} → Beats counter [] counter
  beat :
      {counter following next : ℕ} {p : Payload} {ps : List Payload}
      → IsBytes p
      → Passes p
      → p.b6 / 16 ≡ counter
      → following ≡ (counter + 1) % 16
      → Beats following ps next
      → Beats counter (p ∷ ps) next

Beats-append :
    {a b c : ℕ} {ps qs : List Payload} → Beats a ps b → Beats b qs c → Beats a (ps ++ qs) c
Beats-append still k = k
Beats-append (beat bytes ok number up rest) k = beat bytes ok number up (Beats-append rest k)

-- What one callback does to the heartbeat.
pub record Keeps {f : Floats} (c : Car f) (r : Car f × List (Output f)) : Type 0 where
  pub small : r.0.alive_counter < 16
  pub beats : Beats c.alive_counter (payloads r.1) r.0.alive_counter

module _ (f : Floats) where
  send_frames-Beats :
      (rounds : ℕ) (msg : Frame) (gear : String) (speed angle : f.F32) (counter : ℕ)
      → counter < 16
      → let (last, out) = send_frames f rounds msg gear speed angle counter in
        (last < 16) × Beats counter (payloads out) last
  unfolding send_frames
  send_frames-Beats zero msg gear speed angle counter h = (h, still)
  send_frames-Beats (suc rounds) msg gear speed angle counter h =
      let (payload, next) = build_ctrl_cmd_data f gear speed angle counter in
      let l = build_ctrl_cmd_data_lem f gear speed angle counter h in
      let rest = send_frames-Beats rounds msg gear speed angle next (omega (arith, l.3)) in
      (rest.0, beat l.0 l.1 l.2 l.3 rest.1)

  send_speed_to_akm-Keeps :
      (c : Car f) (now : ℕ) (speed angle : f.F32)
      → c.alive_counter < 16
      → Keeps c (send_speed_to_akm f c now speed angle)
  unfolding send_speed_to_akm
  send_speed_to_akm-Keeps c now speed angle h =
      let (gear, size, degrees) = gear_command f speed angle in
      let l =
        send_frames-Beats 3 (command_frame now) gear size (f.of_int32 degrees) c.alive_counter h in
      record { small = l.0; beats = l.1 }

  quiet-Keeps :
      (c d : Car f) → d.alive_counter ≡ c.alive_counter → c.alive_counter < 16 → Keeps c (d, [])
  quiet-Keeps c d e h = record {
    small = rw e h;
    beats = subst (Beats c.alive_counter []) (sym e) still;
  }

  step-Keeps : (c : Car f) (e : (ℕ → ℕ) × Event f) → c.alive_counter < 16 → Keeps c (step f c e)
  unfolding step cmd_vel_callback twist_cmd_vel_callback run_static_callback stop
  step-Keeps c (clock, cmd_vel x z) h =
      if_cases (Keeps c) c.enable_run (λ _. send_speed_to_akm-Keeps c _ _ _ h)
        (λ _.
          if_cases (Keeps c) (may_resume f c (clock 0))
            (λ _. resent (send_speed_to_akm-Keeps (record c { enable_run = true }) _ _ _ h))
            (λ _. quiet-Keeps c c refl h))
    where
      resent : {r : Car f × List (Output f)} → Keeps (record c { enable_run = true }) r → Keeps c r
      resent k = record { small = k.small; beats = k.beats }
  step-Keeps c (clock, twist_cmd x z) h = send_speed_to_akm-Keeps c _ _ _ h
  step-Keeps c (clock, run_static command) h =
      if_cases (Keeps c) (str_eq command c.last_run_static_command) (λ _. quiet-Keeps c c refl h)
        (λ _.
          if_cases (Keeps c) (str_eq command "start") (λ _. quiet-Keeps c _ refl h)
            (λ _.
              if_cases (Keeps c) (str_eq command "stop")
                (λ _.
                  if_cases (Keeps c) c.enable_run
                    (λ _. stopped (send_speed_to_akm-Keeps _ (clock 1) _ _ h))
                    (λ _. quiet-Keeps c _ refl h))
                (λ _. quiet-Keeps c _ refl h)))
    where
      stopped :
          {r : Car f × List (Output f)}
          → Keeps
              (record c {
                last_run_static_command = command;
                enable_last_time = clock 0;
                enable_run = false;
              })
              r
          → Keeps c r
      stopped k = record { small = k.small; beats = k.beats }

  -- Over any sequence of speed commands, twist commands and run commands, the CAN frames that the
  -- driver sends consist of bytes, pass the chassis's checksum, and carry heartbeat numbers that count
  -- on by one modulo 16 without a gap, from the counter's first value to its last.
  pub run-Keeps :
      (c : Car f) (es : List ((ℕ → ℕ) × Event f)) → c.alive_counter < 16 → Keeps c (run f c es)
  unfolding run
  run-Keeps c [] h = quiet-Keeps c c refl h
  run-Keeps c (e ∷ es) h =
      let first = step-Keeps c e h in
      let rest = run-Keeps (step f c e).0 es first.small in
      record {
        small = rest.small;
        beats =
            subst (λ l. Beats c.alive_counter l (run f (step f c e).0 es).0.alive_counter)
              (sym (payloads-append (step f c e).1 _)) (Beats-append first.beats rest.beats);
      }
