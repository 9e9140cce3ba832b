-- ===== src/Chassis/Codec/Layout.antt =====
-- The layout of the payloads of wtb_car.cpp, as arithmetic, and the round trip through them.
use wtbcar_autoware_nav.Prelude.{
  ℕ, ◌+◌, ◌-◌, ◌*◌, ◌/◌, ◌%◌, ◌^◌, ◌<◌, bit_and, bit_or, String, ◌≡◌, refl, ◌⊎◌, inl, inr, arith,
  ap, ◌∙◌,
}
use wtbcar_autoware_nav.Prelude.Int.{ℤ, pos, negsuc, ◌≤ℤ◌}
use wtbcar_autoware_nav.Bits.{
  and_low4, and_high4, and_mid8, and_top4, and_bit15, nibble_or, or_fields,
}
use wtbcar_autoware_nav.Floats.{Floats}
use wtbcar_autoware_nav.Chassis.Codec.{
  build_ctrl_cmd_data, speed_int, steer_angle_int, shl, shr, byte, word, gear_mapping, Payload,
  pack_fields, build_frame, gear_map, parse_gear, parse_speed, parse_angle, to_signed,
}

pub gear_mapping-lt : (g : String) → gear_mapping g < 16
unfolding gear_mapping
gear_mapping-lt g = ground arith

-- The bytes of a payload as sums.
pub record Laid (g : String) (speed : ℕ) (angle : ℤ) (counter : ℕ) (p : Payload) : Type 0 where
  pub at0 : p.b0 ≡ speed % 16 * 16 + gear_mapping g
  pub at1 : p.b1 ≡ speed / 16 % 256
  pub at2 : p.b2 ≡ word angle % 16 * 16 + speed / 4096 % 16
  pub at3 : p.b3 ≡ word angle / 16 % 256
  pub at4 : p.b4 ≡ word angle / 4096 % 16
  pub at5 : p.b5 ≡ 0
  pub at6 : p.b6 ≡ counter % 16 * 16

byte0 :
    (gear speed : ℕ)
    → gear < 16
    → byte (bit_or (bit_and gear 0xF) (shl (bit_and speed 0x0F) 4)) ≡ speed % 16 * 16 + gear
byte0 gear speed h =
    rw (and_low4 gear, and_low4 speed)
      (omega (arith, nibble_or (speed % 16) (gear % 16) (omega arith)))

byte2 :
    (speed angle : ℕ)
    → byte (bit_or (byte (shr (bit_and speed 0xF000) 12)) (shl (bit_and angle 0x0F) 4))
      ≡ angle % 16 * 16 + speed / 4096 % 16
byte2 speed angle =
    rw (and_top4, and_low4)
      (omega (arith, nibble_or (angle % 16) (speed / 4096 % 16 * 4096 / 4096 % 256) (omega arith)))

byte1 : (speed : ℕ) → byte (shr (bit_and speed 0x0FF0) 4) ≡ speed / 16 % 256
byte1 speed = rw and_mid8 (omega arith)

byte4 : (angle : ℕ) → byte (shr (bit_and angle 0xF000) 12) ≡ angle / 4096 % 16
byte4 angle = rw and_top4 (omega arith)

byte6 : (counter : ℕ) → byte (bit_and (shl counter 4) 0xF0) ≡ counter % 16 * 16
byte6 counter = rw and_high4 (omega arith)

pub build_frame-Laid :
    (g : String) (speed : ℕ) (angle : ℤ) (counter : ℕ)
    → Laid g speed angle counter (build_frame g speed angle counter).0
unfolding build_frame pack_fields
build_frame-Laid g speed angle counter = record {
  at0 = byte0 (gear_mapping g) speed (gear_mapping-lt g);
  at1 = byte1 speed;
  at2 = byte2 speed (word angle);
  at3 = byte1 (word angle);
  at4 = byte4 (word angle);
  at5 = refl;
  at6 = byte6 counter;
}

-- The names that both maps hold.
abbrev pub IsGear : String → Type 0
IsGear g = (g ≡ "disable") ⊎ ((g ≡ "P") ⊎ ((g ≡ "R") ⊎ ((g ≡ "N") ⊎ (g ≡ "D"))))

gear_map-gear_mapping : (g : String) → IsGear g → gear_map (gear_mapping g) ≡ g
unfolding gear_map gear_mapping
gear_map-gear_mapping g (inl e) = rw e
gear_map-gear_mapping g (inr (inl e)) = rw e
gear_map-gear_mapping g (inr (inr (inl e))) = rw e
gear_map-gear_mapping g (inr (inr (inr (inl e)))) = rw e
gear_map-gear_mapping g (inr (inr (inr (inr e)))) = rw e

pub to_signed-word : (a : ℤ) → negsuc 32767 ≤ℤ a → a ≤ℤ pos 32767 → to_signed (word a % 65536) ≡ a
unfolding to_signed
to_signed-word (pos n) lo hi = ground (arith, and_bit15 (n % 2 ^ 32 % 65536))
to_signed-word (negsuc n) lo hi = ground (arith, and_bit15 ((2 ^ 32 - 1 - n % 2 ^ 32) % 65536))

module _ {g : String} {speed : ℕ} {angle : ℤ} {counter : ℕ} {p : Payload}
    (l : Laid g speed angle counter p) where
  parse_gear-Laid : parse_gear p ≡ gear_map (gear_mapping g)
  unfolding parse_gear
  parse_gear-Laid = ap gear_map (and_low4 p.b0 ∙ omega (arith, l.at0, gear_mapping-lt g))

  parse_speed-Laid : parse_speed p ≡ speed % 65536
  unfolding parse_speed
  parse_speed-Laid = rw and_low4 (
      omega (
        arith,
        or_fields (p.b2 % 16) p.b1 (p.b0 / 16) (omega (arith, l.at1))
            (omega (arith, l.at0, gear_mapping-lt g)),
        l.at0,
        l.at1,
        l.at2,
        gear_mapping-lt g,
      ))

  parse_angle-Laid : parse_angle p ≡ to_signed (word angle % 65536)
  unfolding parse_angle
  parse_angle-Laid = ap to_signed (rw and_low4 sum)
    where
      sum : bit_or (bit_or (shl (p.b4 % 16) 12) (shl p.b3 4)) (shr p.b2 4) ≡ word angle % 65536
      sum = omega (
        arith,
        or_fields (p.b4 % 16) p.b3 (p.b2 / 16) (omega (arith, l.at3)) (omega (arith, l.at2)),
        l.at2,
        l.at3,
        l.at4,
      )

-- What the driver packs, the parser for the chassis's feedback (which has the same layout) reads
-- back: the gear's name, the speed modulo 2 ^ 16, and the angle, if it fits a signed number of 16
-- bits.
pub parse-build_frame :
    (g : String) (speed : ℕ) (angle : ℤ) (counter : ℕ)
    → IsGear g
    → negsuc 32767 ≤ℤ angle
    → angle ≤ℤ pos 32767
    → let p = (build_frame g speed angle counter).0 in
      (parse_gear p ≡ g) × (parse_speed p ≡ speed % 65536) × (parse_angle p ≡ angle)
parse-build_frame g speed angle counter known lo hi =
    let l = build_frame-Laid g speed angle counter in
    (
      parse_gear-Laid l ∙ gear_map-gear_mapping g known,
      parse_speed-Laid l,
      parse_angle-Laid l ∙ to_signed-word angle lo hi,
    )

module _ (f : Floats) where
  pub parse-build_ctrl_cmd_data :
      (g : String) (speed angle : f.F32) (counter : ℕ)
      → IsGear g
      → negsuc 32767 ≤ℤ steer_angle_int f angle
      → steer_angle_int f angle ≤ℤ pos 32767
      → let p = (build_ctrl_cmd_data f g speed angle counter).0 in
        (parse_gear p ≡ g)
        × (parse_speed p ≡ speed_int f speed % 65536)
        × (parse_angle p ≡ steer_angle_int f angle)
  unfolding build_ctrl_cmd_data
  parse-build_ctrl_cmd_data g speed angle counter =
      parse-build_frame g (speed_int f speed) (steer_angle_int f angle) counter
