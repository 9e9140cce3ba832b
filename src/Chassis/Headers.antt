-- ===== src/Chassis/Headers.antt =====
-- The headers of the CAN frames that wtb_car.cpp sends.
use wtbcar_autoware_nav.Prelude.{
  ℕ, zero, suc, ◌≡◌, refl, String, str_eq, true, false, if_cases, List, [], ◌∷◌, ◌++◌,
}
use wtbcar_autoware_nav.Floats.{Floats}
use wtbcar_autoware_nav.Chassis.Codec.{build_ctrl_cmd_data}
use wtbcar_autoware_nav.Chassis.{
  Car, Frame, Output, Event, can, odom, car, cmd_vel, twist_cmd, run_static, send_frames,
  command_frame, send_speed_to_akm, cmd_vel_callback, twist_cmd_vel_callback, run_static_callback,
  stop, step, run, may_resume,
}

-- The header of a command: an extended data frame of eight bytes for the chassis.
pub record IsCommand (frame : Frame) : Type 0 where
  pub chassis : frame.id ≡ 0x18C4D2D0
  pub extended : frame.is_extended ≡ true
  pub no_rtr : frame.is_rtr ≡ false
  pub no_error : frame.is_error ≡ false
  pub eight : frame.dlc ≡ 8

-- All frames among the messages have it.
abbrev pub AllCommands : {f : Floats} → List (Output f) → Type 0
AllCommands [] = Unit
AllCommands (can frame ∷ os) = IsCommand frame × AllCommands os
AllCommands (odom o ∷ os) = AllCommands os
AllCommands (car m ∷ os) = AllCommands os

AllCommands-append :
    {f : Floats} (os ps : List (Output f))
    → AllCommands os
    → AllCommands ps
    → AllCommands (os ++ ps)
AllCommands-append [] ps h k = k
AllCommands-append (can frame ∷ os) ps h k = (h.0, AllCommands-append os ps h.1 k)
AllCommands-append (odom o ∷ os) ps h k = AllCommands-append os ps h k
AllCommands-append (car m ∷ os) ps h k = AllCommands-append os ps h k

module _ (f : Floats) where
  send_frames-AllCommands :
      (rounds : ℕ) (msg : Frame) (gear : String) (speed angle : f.F32) (counter : ℕ)
      → IsCommand msg
      → AllCommands (send_frames f rounds msg gear speed angle counter).1
  unfolding send_frames
  send_frames-AllCommands zero msg gear speed angle counter h = tt
  send_frames-AllCommands (suc rounds) msg gear speed angle counter h =
      let (payload, next) = build_ctrl_cmd_data f gear speed angle counter in
      (
        record {
          chassis = h.chassis;
          extended = h.extended;
          no_rtr = h.no_rtr;
          no_error = h.no_error;
          eight = h.eight;
        },
        send_frames-AllCommands rounds msg gear speed angle next h,
      )

  send_speed_to_akm-AllCommands :
      (c : Car f) (now : ℕ) (speed angle : f.F32)
      → AllCommands (send_speed_to_akm f c now speed angle).1
  unfolding send_speed_to_akm
  send_speed_to_akm-AllCommands c now speed angle =
      send_frames-AllCommands 3 (command_frame now) _ _ _ c.alive_counter
        (record { chassis = refl; extended = refl; no_rtr = refl; no_error = refl; eight = refl })

  abbrev Sends : Car f × List (Output f) → Type 0
  Sends r = AllCommands r.1

  step-AllCommands : (c : Car f) (e : (ℕ → ℕ) × Event f) → Sends (step f c e)
  unfolding step cmd_vel_callback twist_cmd_vel_callback run_static_callback stop
  step-AllCommands c (clock, cmd_vel x z) =
      if_cases Sends c.enable_run (λ _. send_speed_to_akm-AllCommands c _ _ _)
        (λ _.
          if_cases Sends (may_resume f c (clock 0))
            (λ _. send_speed_to_akm-AllCommands (record c { enable_run = true }) _ _ _) (λ _. tt))
  step-AllCommands c (clock, twist_cmd x z) = send_speed_to_akm-AllCommands c _ _ _
  step-AllCommands c (clock, run_static command) =
      if_cases Sends (str_eq command c.last_run_static_command) (λ _. tt)
        (λ _.
          if_cases Sends (str_eq command "start") (λ _. tt)
            (λ _.
              if_cases Sends (str_eq command "stop")
                (λ _.
                  if_cases Sends c.enable_run (λ _. send_speed_to_akm-AllCommands _ (clock 1) _ _)
                    (λ _. tt))
                (λ _. tt)))

  pub run-AllCommands : (c : Car f) (es : List ((ℕ → ℕ) × Event f)) → Sends (run f c es)
  unfolding run
  run-AllCommands c [] = tt
  run-AllCommands c (e ∷ es) =
      AllCommands-append (step f c e).1 (run f (step f c e).0 es).1 (step-AllCommands c e)
        (run-AllCommands (step f c e).0 es)
