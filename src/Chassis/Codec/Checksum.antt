-- ===== src/Chassis/Codec/Checksum.antt =====
-- The checksum and the heartbeat of the payloads of wtb_car.cpp.
use wtbcar_autoware_nav.Prelude.{
  ℕ, zero, suc, ◌+◌, ◌/◌, ◌%◌, ◌<◌, bit_xor, String, ◌≡◌, ◌≢◌, refl, arith, sym, subst, ◌∙◌,
}
use wtbcar_autoware_nav.Prelude.Int.{ℤ}
use native.Mathlib.Decide.{dec_lt}
use wtbcar_autoware_nav.Bits.{xor-lt, xor_injective_left, xor_injective_right}
use wtbcar_autoware_nav.Floats.{Floats}
use wtbcar_autoware_nav.Chassis.Codec.{
  build_ctrl_cmd_data, speed_int, steer_angle_int, Payload, build_frame, check_bcc, byte,
  gear_mapping,
}
use wtbcar_autoware_nav.Chassis.Codec.Layout.{gear_mapping-lt, build_frame-Laid}

-- A receiver's test of a payload: the checksum byte is that of the others.
abbrev pub Passes : Payload → Type 0
Passes p = p.b7 ≡ check_bcc p

-- Every entry is a byte.
pub record IsBytes (p : Payload) : Type 0 where
  pub byte0 : p.b0 < 256
  pub byte1 : p.b1 < 256
  pub byte2 : p.b2 < 256
  pub byte3 : p.b3 < 256
  pub byte4 : p.b4 < 256
  pub byte5 : p.b5 < 256
  pub byte6 : p.b6 < 256
  pub byte7 : p.b7 < 256

unfoldable pub byte_at : ℕ → Payload → ℕ
byte_at zero p = p.b0
byte_at (suc zero) p = p.b1
byte_at (suc (suc zero)) p = p.b2
byte_at (suc (suc (suc zero))) p = p.b3
byte_at (suc (suc (suc (suc zero)))) p = p.b4
byte_at (suc (suc (suc (suc (suc zero))))) p = p.b5
byte_at (suc (suc (suc (suc (suc (suc zero)))))) p = p.b6
byte_at _ p = p.b7

-- A payload with one byte replaced; from index 7 on that is the checksum.
pub replace_byte : ℕ → ℕ → Payload → Payload
replace_byte zero v p = record p { b0 = v }
replace_byte (suc zero) v p = record p { b1 = v }
replace_byte (suc (suc zero)) v p = record p { b2 = v }
replace_byte (suc (suc (suc zero))) v p = record p { b3 = v }
replace_byte (suc (suc (suc (suc zero)))) v p = record p { b4 = v }
replace_byte (suc (suc (suc (suc (suc zero))))) v p = record p { b5 = v }
replace_byte (suc (suc (suc (suc (suc (suc zero)))))) v p = record p { b6 = v }
replace_byte _ v p = record p { b7 = v }

-- Bytes that two sums have in common at the end can be taken off.
strip_two : (a b c d : ℕ) → bit_xor (bit_xor a c) d ≡ bit_xor (bit_xor b c) d → a ≡ b
strip_two a b c d e = xor_injective_left a b c (xor_injective_left (bit_xor a c) (bit_xor b c) d e)

strip_four :
    (a b c d x y : ℕ)
    → bit_xor (bit_xor (bit_xor (bit_xor a c) d) x) y
      ≡ bit_xor (bit_xor (bit_xor (bit_xor b c) d) x) y
    → a ≡ b
strip_four a b c d x y e = strip_two a b c d (strip_two _ _ x y e)

-- A replaced byte leaves the checksum of the seven alone only if it is the byte that was there.
same_bcc :
    (i v : ℕ) (p : Payload) → i < 7 → check_bcc (replace_byte i v p) ≡ check_bcc p → v ≡ byte_at i p
unfolding check_bcc replace_byte byte_at
same_bcc zero v p h e = strip_two v p.b0 p.b1 p.b2 (strip_four _ _ p.b3 p.b4 p.b5 p.b6 e)
same_bcc (suc zero) v p h e =
    xor_injective_right v p.b1 p.b0
      (xor_injective_left _ _ p.b2 (strip_four _ _ p.b3 p.b4 p.b5 p.b6 e))
same_bcc (suc (suc zero)) v p h e =
    xor_injective_right v p.b2 _ (strip_four _ _ p.b3 p.b4 p.b5 p.b6 e)
same_bcc (suc (suc (suc zero))) v p h e =
    xor_injective_right v p.b3 _ (xor_injective_left _ _ p.b4 (strip_two _ _ p.b5 p.b6 e))
same_bcc (suc (suc (suc (suc zero)))) v p h e =
    xor_injective_right v p.b4 _ (strip_two _ _ p.b5 p.b6 e)
same_bcc (suc (suc (suc (suc (suc zero))))) v p h e =
    xor_injective_right v p.b5 _ (xor_injective_left _ _ p.b6 e)
same_bcc (suc (suc (suc (suc (suc (suc zero)))))) v p h e = xor_injective_right v p.b6 _ e
same_bcc (suc (suc (suc (suc (suc (suc (suc i))))))) v p h e = absurd (omega arith)

-- Every byte but the last leaves byte 7 alone.
b7-replace_byte : (i v : ℕ) (p : Payload) → i < 7 → (replace_byte i v p).b7 ≡ p.b7
unfolding replace_byte
b7-replace_byte zero v p h = refl
b7-replace_byte (suc zero) v p h = refl
b7-replace_byte (suc (suc zero)) v p h = refl
b7-replace_byte (suc (suc (suc zero))) v p h = refl
b7-replace_byte (suc (suc (suc (suc zero)))) v p h = refl
b7-replace_byte (suc (suc (suc (suc (suc zero))))) v p h = refl
b7-replace_byte (suc (suc (suc (suc (suc (suc zero)))))) v p h = refl
b7-replace_byte (suc (suc (suc (suc (suc (suc (suc i))))))) v p h = absurd (omega arith)

last_byte_at : (v : ℕ) (p : Payload) → v ≢ byte_at 7 p → Passes p → Passes (replace_byte 7 v p) → ⊥
unfolding replace_byte byte_at check_bcc
last_byte_at v p ne ok bad = ne (bad ∙ sym ok)

last_byte :
    (i v : ℕ) (p : Payload) → i ≡ 7 → v ≢ byte_at i p → Passes p → Passes (replace_byte i v p) → ⊥
last_byte i v p e =
    subst (λ k. v ≢ byte_at k p → Passes p → Passes (replace_byte k v p) → ⊥) (sym e)
      (last_byte_at v p)

-- No payload that passes the test still passes it with one of its bytes changed.
pub corruption_detected :
    (i v : ℕ) (p : Payload) → i < 8 → v ≢ byte_at i p → Passes p → ¬ Passes (replace_byte i v p)
corruption_detected i v p h ne ok bad = elim (dec_lt i 7) [
  | yes k ↦ ne (same_bcc i v p k (sym bad ∙ b7-replace_byte i v p k ∙ ok))
  | no k ↦ last_byte i v p (omega arith) ne ok bad
]

check_bcc-lt :
    (p : Payload)
    → p.b0 < 256
    → p.b1 < 256
    → p.b2 < 256
    → p.b3 < 256
    → p.b4 < 256
    → p.b5 < 256
    → p.b6 < 256
    → check_bcc p < 256
unfolding check_bcc
check_bcc-lt p h0 h1 h2 h3 h4 h5 h6 =
    xor-lt _ _ (xor-lt _ _ (xor-lt _ _ (xor-lt _ _ (xor-lt _ _ (xor-lt _ _ h0 h1) h2) h3) h4) h5) h6

module _ (g : String) (speed : ℕ) (angle : ℤ) (counter : ℕ) where
  abbrev built : Payload
  built = (build_frame g speed angle counter).0

  bcc-built : check_bcc built < 256
  bcc-built =
      let l = build_frame-Laid g speed angle counter in
      check_bcc-lt built (omega (arith, l.at0, gear_mapping-lt g)) (omega (arith, l.at1))
        (omega (arith, l.at2)) (omega (arith, l.at3)) (omega (arith, l.at4)) (omega (arith, l.at5))
        (omega (arith, l.at6))

  built-Passes : Passes built
  built-Passes = reduce bcc-built
    where
      stored : built.b7 ≡ byte (check_bcc built)
      stored = unfold build_frame check_bcc in refl

      reduce : check_bcc built < 256 → Passes built
      reduce h = stored ∙ omega arith

  built-IsBytes : IsBytes built
  built-IsBytes =
      let l = build_frame-Laid g speed angle counter in
      record {
        byte0 = omega (arith, l.at0, gear_mapping-lt g);
        byte1 = omega (arith, l.at1);
        byte2 = omega (arith, l.at2);
        byte3 = omega (arith, l.at3);
        byte4 = omega (arith, l.at4);
        byte5 = omega (arith, l.at5);
        byte6 = omega (arith, l.at6);
        byte7 = omega (arith, built-Passes, bcc-built);
      }

-- Every payload that the driver builds consists of bytes, passes the receiver's test, and carries the
-- heartbeat counter in the upper half of byte 6 and the gear's code in the lower half of byte 0; the
-- counter moves on modulo 16.
pub build_frame_lem :
    (g : String) (speed : ℕ) (angle : ℤ) (counter : ℕ)
    → counter < 16
    → let (p, next) = build_frame g speed angle counter in
      IsBytes p
      × Passes p
      × (p.b6 / 16 ≡ counter)
      × (p.b0 % 16 ≡ gear_mapping g)
      × (next ≡ (counter + 1) % 16)
unfolding build_frame
build_frame_lem g speed angle counter h =
    let l = build_frame-Laid g speed angle counter in
    (
      built-IsBytes g speed angle counter,
      built-Passes g speed angle counter,
      omega (arith, l.at6),
      omega (arith, l.at0, gear_mapping-lt g),
      refl,
    )

module _ (f : Floats) where
  pub build_ctrl_cmd_data_lem :
      (gear : String) (speed angle : f.F32) (counter : ℕ)
      → counter < 16
      → let (p, next) = build_ctrl_cmd_data f gear speed angle counter in
        IsBytes p × Passes p × (p.b6 / 16 ≡ counter) × (next ≡ (counter + 1) % 16)
  unfolding build_ctrl_cmd_data
  build_ctrl_cmd_data_lem gear speed angle counter h =
      let l = build_frame_lem gear (speed_int f speed) (steer_angle_int f angle) counter h in
      (l.0, l.1, l.2, l.4)
