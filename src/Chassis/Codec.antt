-- ===== src/Chassis/Codec.antt =====
-- The CAN payloads of wtb_car.cpp: `BuildCtrlCmdData` and `ParseCtrlFb`. A byte is a number below
-- 256; an `int` is its two's complement pattern where it is masked.
pub mod Layout
pub mod Checksum
mod Tests
use wtbcar_autoware_nav.Prelude.{
  ℕ, ◌+◌, ◌-◌, ◌*◌, ◌/◌, ◌%◌, ◌^◌, bit_and, bit_or, bit_xor, String, str_eq, Bool, not, ◌==◌, ltb,
  if◌then◌else◌, List, [], ◌∷◌, get_or,
}
use wtbcar_autoware_nav.Prelude.Int.{ℤ, pos, negsuc}
use wtbcar_autoware_nav.Floats.{Floats}
use Prim.Native.String.{◌++◌}

-- `x << k` and `x >> k` where nothing is shifted out.
abbrev pub shl : ℕ → ℕ → ℕ
shl x k = x * 2 ^ k

abbrev pub shr : ℕ → ℕ → ℕ
shr x k = x / 2 ^ k

-- The store of an `int` or `unsigned` into an `unsigned char`.
abbrev pub byte : ℕ → ℕ
byte x = x % 256

-- The bits of an `int`.
abbrev pub word : ℤ → ℕ
word (pos n) = n % 2 ^ 32
word (negsuc n) = 2 ^ 32 - 1 - n % 2 ^ 32

-- The map from gear names to codes; `operator[]` gives 0 for a name that is missing.
pub gear_mapping : String → ℕ
gear_mapping gear =
    if str_eq gear "disable"
    then 0
    else if str_eq gear "P"
    then 1
    else if str_eq gear "R"
    then 2
    else if str_eq gear "N"
    then 3
    else if str_eq gear "D"
    then 4
    else 0

-- The eight bytes of a payload.
pub record Payload : Type 0 where
  pub b0 : ℕ
  pub b1 : ℕ
  pub b2 : ℕ
  pub b3 : ℕ
  pub b4 : ℕ
  pub b5 : ℕ
  pub b6 : ℕ
  pub b7 : ℕ

-- The exclusive or of the first seven bytes.
pub check_bcc : Payload → ℕ
check_bcc p =
    bit_xor (bit_xor (bit_xor (bit_xor (bit_xor (bit_xor p.b0 p.b1) p.b2) p.b3) p.b4) p.b5) p.b6

-- The bytes before the checksum, for a gear, a speed in 0.001 m/s, an angle in 0.01 degrees and the
-- heartbeat counter.
pub pack_fields : String → ℕ → ℤ → ℕ → Payload
pack_fields target_gear speed_int steer_angle_int alive_counter =
    let gear_value = gear_mapping target_gear in
    let angle = word steer_angle_int in
    record {
      b0 = byte (bit_or (bit_and gear_value 0xF) (shl (bit_and speed_int 0x0F) 4));
      b1 = byte (shr (bit_and speed_int 0x0FF0) 4);
      b2 = byte (bit_or (byte (shr (bit_and speed_int 0xF000) 12)) (shl (bit_and angle 0x0F) 4));
      b3 = byte (shr (bit_and angle 0x0FF0) 4);
      b4 = byte (shr (bit_and angle 0xF000) 12);
      b5 = 0;
      b6 = byte (bit_and (shl alive_counter 4) 0xF0);
      b7 = 0;
    }

-- `BuildCtrlCmdData` once the speed and the angle are whole numbers: the payload and the next value
-- of the counter.
pub build_frame : String → ℕ → ℤ → ℕ → Payload × ℕ
build_frame target_gear speed_int steer_angle_int alive_counter =
    let p : Payload = pack_fields target_gear speed_int steer_angle_int alive_counter in
    (record p { b7 = byte (check_bcc p) }, (alive_counter + 1) % 16)

-- `std::to_string`, of a number below 100.
abbrev pub to_string : ℕ → String
to_string n = if ltb n 10 then digit n else digit (n / 10) ++ digit (n % 10)
  where
    digit : ℕ → String
    digit d = get_or ("0" ∷ "1" ∷ "2" ∷ "3" ∷ "4" ∷ "5" ∷ "6" ∷ "7" ∷ "8" ∷ "9" ∷ []) d ""

unfoldable pub gear_map : ℕ → String
gear_map raw =
    if raw == 0
    then "disable"
    else if raw == 1
    then "P"
    else if raw == 2
    then "R"
    else if raw == 3
    then "N"
    else if raw == 4
    then "D"
    else "未知(" ++ (to_string raw ++ ")")

unfoldable pub parse_gear : Payload → String
parse_gear p = gear_map (bit_and p.b0 0x0F)

unfoldable pub parse_speed : Payload → ℕ
parse_speed p =
    let speed_low = shr p.b0 4 in
    let speed_mid = p.b1 in
    let speed_high = bit_and p.b2 0x0F in
    bit_or (bit_or (shl speed_high 12) (shl speed_mid 4)) speed_low

-- A number of 16 bits with its sign, as the code computes it.
unfoldable pub to_signed : ℕ → ℤ
to_signed raw = if not (bit_and raw 0x8000 == 0) then negsuc (0x10000 - raw - 1) else pos raw

unfoldable pub parse_angle : Payload → ℤ
parse_angle p =
    let angle_low = shr p.b2 4 in
    let angle_mid = p.b3 in
    let angle_high = bit_and p.b4 0x0F in
    to_signed (bit_or (bit_or (shl angle_high 12) (shl angle_mid 4)) angle_low)

module _ (f : Floats) where
  -- `TargetSpeed * 1000` and `TargetSteerAngle / 0.01`, cut to whole numbers.
  unfoldable pub speed_int : f.F32 → ℕ
  speed_int target_speed = f.to_unsigned (f.mul32 target_speed (f.literal32 1000 0))

  unfoldable pub steer_angle_int : f.F32 → ℤ
  steer_angle_int target = f.to_int (f.div (f.widen target) (f.literal 1 2))

  pub build_ctrl_cmd_data : String → f.F32 → f.F32 → ℕ → Payload × ℕ
  build_ctrl_cmd_data target_gear target_speed target_steer_angle alive_counter =
      build_frame target_gear (speed_int target_speed) (steer_angle_int target_steer_angle)
        alive_counter

  -- The gear, the speed in m/s and the angle in degrees.
  unfoldable pub parse_ctrl_fb : Payload → String × f.F64 × f.F64
  parse_ctrl_fb p = (
    parse_gear p,
    f.mul (f.of_int (pos (parse_speed p))) (f.literal 1 3),
    f.mul (f.of_int (parse_angle p)) (f.literal 1 2),
  )
