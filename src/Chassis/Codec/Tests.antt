-- ===== src/Chassis/Codec/Tests.antt =====
-- The codec of wtb_car.cpp on concrete payloads.
use wtbcar_autoware_nav.Prelude.{◌≡◌, refl, inr, arith}
use wtbcar_autoware_nav.Prelude.Int.{negsuc}
use wtbcar_autoware_nav.Chassis.Codec.{
  Payload, check_bcc, gear_mapping, pack_fields, build_frame, parse_gear, parse_speed, parse_angle,
}
use wtbcar_autoware_nav.Chassis.Codec.Layout.{parse-build_frame}
use wtbcar_autoware_nav.Chassis.Codec.Checksum.{Passes, byte_at, replace_byte, corruption_detected}

-- Gear D at 2.222 m/s and 5 degrees to the right, with heartbeat 7.
abbrev sample : Payload
sample = record {
  b0 = 0xE4;
  b1 = 0x8A;
  b2 = 0xC0;
  b3 = 0xE0;
  b4 = 0x0F;
  b5 = 0;
  b6 = 0x70;
  b7 = 0x31;
}

build_frame-sample : build_frame "D" 2222 (negsuc 499) 7 ≡ (sample, 8)
unfolding build_frame pack_fields check_bcc gear_mapping
build_frame-sample = refl

parse-build_frame_example :
    let p = (build_frame "D" 2222 (negsuc 499) 7).0 in
    (parse_gear p ≡ "D") × (parse_speed p ≡ 2222) × (parse_angle p ≡ negsuc 499)
parse-build_frame_example =
    parse-build_frame "D" 2222 (negsuc 499) 7 (inr (inr (inr (inr refl)))) (omega arith)
      (omega arith)

sample-Passes : Passes sample
unfolding check_bcc
sample-Passes = refl

corruption_detected_example : ¬ Passes (replace_byte 3 0xE1 sample)
unfolding byte_at
corruption_detected_example =
    corruption_detected 3 0xE1 sample (omega arith) (omega arith) sample-Passes
