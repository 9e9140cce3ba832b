-- ===== src/Ahrs/Messages/Packets.antt =====
-- The packets of ahrs_driver.cpp as a sensor with the same memory layout writes them, and the messages
-- that come of them.
use wtbcar_autoware_nav.Prelude.{
  take-append, drop-append, append-nil, append_assoc, ℕ, zero, suc, ◌*◌, ◌<◌, ◌≡◌, refl, sym, ap,
  ◌∙◌, List, [], ◌∷◌, ◌++◌, length, length-append, take, drop, get_or, arith,
}
use wtbcar_autoware_nav.Floats.{Floats}
use wtbcar_autoware_nav.Ahrs.Frame.{imu, ahrs, data_len}
use wtbcar_autoware_nav.Ahrs.Packet.{
  Memory, ImuPacket, AhrsPacket, float_at, imu_packet, ahrs_packet,
}

-- The bytes that a number is stored as.
pub record Stores (f : Floats) (memory : Memory f) : Type 0 where
  pub float_bytes : f.F32 → List ℕ
  pub length_float : (v : f.F32) → length (float_bytes v) ≡ 4
  pub reads_back : (v : f.F32) → memory.float_of (float_bytes v) ≡ v

module _ (f : Floats) (memory : Memory f) (stores : Stores f memory) where
  abbrev floats_bytes : List (f.F32) → List ℕ
  floats_bytes [] = []
  floats_bytes (v ∷ vs) = stores.float_bytes v ++ floats_bytes vs

  length-floats_bytes : (vs : List (f.F32)) → length (floats_bytes vs) ≡ 4 * length vs
  length-floats_bytes [] = omega arith
  length-floats_bytes (v ∷ vs) = omega (
    arith,
    length-append (stores.float_bytes v) (floats_bytes vs),
    stores.length_float v,
    length-floats_bytes vs,
  )

  float_at-floats_bytes :
      (vs : List (f.F32)) (rest : List ℕ) (k : ℕ) (other : f.F32)
      → k < length vs
      → float_at f memory (floats_bytes vs ++ rest) k ≡ get_or vs k other
  unfolding float_at
  float_at-floats_bytes [] rest k other h = absurd (omega arith)
  float_at-floats_bytes (v ∷ vs) rest zero other h =
      ap (λ l. memory.float_of (take 4 l))
        (append_assoc (stores.float_bytes v) (floats_bytes vs) rest)
      ∙ (ap memory.float_of
            (take-append (stores.float_bytes v) (floats_bytes vs ++ rest) 4 (stores.length_float v))
          ∙ stores.reads_back v)
  float_at-floats_bytes (v ∷ vs) rest (suc k) other h =
      ap (λ l. memory.float_of (take 4 (drop (4 * suc k) l)))
        (append_assoc (stores.float_bytes v) (floats_bytes vs) rest)
      ∙ (ap (λ l. memory.float_of (take 4 l))
            (drop-append (stores.float_bytes v) (floats_bytes vs ++ rest) (4 * suc k) (4 * k)
              (omega (arith, stores.length_float v)))
          ∙ float_at-floats_bytes vs rest k other (omega arith))

  abbrev imu_floats : ImuPacket f → List (f.F32)
  imu_floats p =
      p.gyroscope_x ∷ p.gyroscope_y ∷ p.gyroscope_z ∷ p.accelerometer_x ∷ p.accelerometer_y
      ∷ p.accelerometer_z ∷ p.magnetometer_x ∷ p.magnetometer_y ∷ p.magnetometer_z
      ∷ p.imu_temperature ∷ p.pressure ∷ p.pressure_temperature ∷ []

  abbrev ahrs_floats : AhrsPacket f → List (f.F32)
  ahrs_floats p =
      p.roll_speed ∷ p.pitch_speed ∷ p.heading_speed ∷ p.roll ∷ p.pitch ∷ p.heading ∷ p.qw ∷ p.qx
      ∷ p.qy ∷ p.qz ∷ []

  -- The packets as they are stored.
  abbrev pub imu_bytes : ImuPacket f → List ℕ
  imu_bytes p = floats_bytes (imu_floats p) ++ p.timestamp

  abbrev pub ahrs_bytes : AhrsPacket f → List ℕ
  ahrs_bytes p = floats_bytes (ahrs_floats p) ++ p.timestamp

  stamp_lem :
      (vs : List (f.F32)) (stamp : List ℕ) (n : ℕ)
      → length stamp ≡ 8
      → 4 * length vs ≡ n
      → take 8 (drop n (floats_bytes vs ++ stamp)) ≡ stamp
  stamp_lem vs stamp n h g =
      ap (take 8) (drop-append (floats_bytes vs) stamp n 0 (omega (arith, length-floats_bytes vs)))
      ∙ (ap (take 8) (sym (append-nil stamp)) ∙ take-append stamp [] 8 h)

  pub imu_packet-imu_bytes :
      (p : ImuPacket f) → length p.timestamp ≡ 8 → imu_packet f memory (imu_bytes p) ≡ p
  unfolding imu_packet
  imu_packet-imu_bytes p h =
      rw
        (
          at 0 (omega arith),
          at 1 (omega arith),
          at 2 (omega arith),
          at 3 (omega arith),
          at 4 (omega arith),
          at 5 (omega arith),
          at 6 (omega arith),
          at 7 (omega arith),
          at 8 (omega arith),
          at 9 (omega arith),
          at 10 (omega arith),
          at 11 (omega arith),
          stamp_lem (imu_floats p) p.timestamp 48 h (omega arith),
        )
        refl
    where
      at :
          (k : ℕ)
          → k < 12
          → float_at f memory (imu_bytes p) k ≡ get_or (imu_floats p) k p.gyroscope_x
      at k inside = float_at-floats_bytes (imu_floats p) p.timestamp k p.gyroscope_x inside

  pub ahrs_packet-ahrs_bytes :
      (p : AhrsPacket f) → length p.timestamp ≡ 8 → ahrs_packet f memory (ahrs_bytes p) ≡ p
  unfolding ahrs_packet
  ahrs_packet-ahrs_bytes p h =
      rw
        (
          at 0 (omega arith),
          at 1 (omega arith),
          at 2 (omega arith),
          at 3 (omega arith),
          at 4 (omega arith),
          at 5 (omega arith),
          at 6 (omega arith),
          at 7 (omega arith),
          at 8 (omega arith),
          at 9 (omega arith),
          stamp_lem (ahrs_floats p) p.timestamp 40 h (omega arith),
        )
        refl
    where
      at :
          (k : ℕ)
          → k < 10
          → float_at f memory (ahrs_bytes p) k ≡ get_or (ahrs_floats p) k p.roll_speed
      at k inside = float_at-floats_bytes (ahrs_floats p) p.timestamp k p.roll_speed inside

  pub length-imu_bytes :
      (p : ImuPacket f) → length p.timestamp ≡ 8 → length (imu_bytes p) ≡ data_len imu
  unfolding data_len
  length-imu_bytes p h = omega (
    arith,
    length-append (floats_bytes (imu_floats p)) p.timestamp,
    length-floats_bytes (imu_floats p),
  )

  pub length-ahrs_bytes :
      (p : AhrsPacket f) → length p.timestamp ≡ 8 → length (ahrs_bytes p) ≡ data_len ahrs
  unfolding data_len
  length-ahrs_bytes p h = omega (
    arith,
    length-append (floats_bytes (ahrs_floats p)) p.timestamp,
    length-floats_bytes (ahrs_floats p),
  )
