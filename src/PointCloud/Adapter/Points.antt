-- ===== src/PointCloud/Adapter/Points.antt =====
-- The points that pointcloud_xyzirt_to_xyzirc_node.cpp writes, one by one and in the loop.
use wtbcar_autoware_nav.Prelude.{
  ℕ, ◌+◌, ◌*◌, ◌≤◌, ◌≡◌, refl, ap, ◌∙◌, ltb, Bool-cases, inl, inr, if◌then◌else◌, List, ◌∷◌, ◌++◌,
  length, length-append, replicate, some, arith,
}
use wtbcar_autoware_nav.Prelude.Int.{ℤ, pos, negsuc}
use wtbcar_autoware_nav.Floats.{Floats}
use wtbcar_autoware_nav.PointCloud.{Cloud}
use wtbcar_autoware_nav.PointCloud.Bytes.{slice_lem}
use wtbcar_autoware_nav.PointCloud.{is_negative}
use wtbcar_autoware_nav.PointCloud.Adapter.{
  FloatBytes, Offsets, read_float32, read_uint16, intensity_to_uint8, convert_point,
}

-- All points that the header announces are in the data.
pub record Fits (input : Cloud) : Type 0 where
  pub enough : input.width * input.height * input.point_step ≤ length input.payload

-- The point at this place is in the data.
abbrev pub Holds : Cloud → ℕ → Type 0
Holds input point = point + input.point_step ≤ length input.payload

-- What a converted point is made of.
pub record IsPoint (f : Floats) (bytes : FloatBytes f) (input : Cloud) (o : Offsets) (i : ℕ)
    (p : List ℕ) : Type 0 where
  pub x : List ℕ
  pub y : List ℕ
  pub z : List ℕ
  pub intensity : List ℕ
  pub channel : List ℕ
  pub reads_x : read_float32 input (i * input.point_step) o.x_offset ≡ some x
  pub reads_y : read_float32 input (i * input.point_step) o.y_offset ≡ some y
  pub reads_z : read_float32 input (i * input.point_step) o.z_offset ≡ some z
  pub reads_intensity :
      read_float32 input (i * input.point_step) o.intensity_offset ≡ some intensity
  pub reads_channel :
      read_uint16 input
        (i * input.point_step)
        (if is_negative o.ring_offset then o.channel_offset else o.ring_offset)
      ≡ some channel
  pub length_x : length x ≡ 4
  pub length_y : length y ≡ 4
  pub length_z : length z ≡ 4
  pub length_channel : length channel ≡ 2
  pub layout :
      p ≡ x ++ (y ++ (z ++ (intensity_to_uint8 f bytes (bytes.of_bytes intensity) ∷ 1 ∷ channel)))

read_float32_lem :
    (cloud : Cloud) (point : ℕ) (offset : ℤ)
    → Holds cloud point
    → (part : List ℕ) × ((read_float32 cloud point offset ≡ some part) × (length part ≡ 4))
unfolding read_float32
read_float32_lem cloud point (negsuc n) h = (replicate 4 0, (refl, refl))
read_float32_lem cloud point (pos offset) h =
    elim (Bool-cases (ltb cloud.point_step (offset + 4))) [
      | inl e ↦ (replicate 4 0, (rw e, refl))
      | inr e ↦
          (let (part, (found, size)) = slice_lem cloud.payload (point + offset) 4 (ground arith) in
            (part, (rw e found, size)))
    ]

read_uint16_lem :
    (cloud : Cloud) (point : ℕ) (offset : ℤ)
    → Holds cloud point
    → (part : List ℕ) × ((read_uint16 cloud point offset ≡ some part) × (length part ≡ 2))
unfolding read_uint16
read_uint16_lem cloud point (negsuc n) h = (replicate 2 0, (refl, refl))
read_uint16_lem cloud point (pos offset) h = elim (Bool-cases (ltb cloud.point_step (offset + 2))) [
  | inl e ↦ (replicate 2 0, (rw e, refl))
  | inr e ↦
      (let (part, (found, size)) = slice_lem cloud.payload (point + offset) 2 (ground arith) in
        (part, (rw e found, size)))
]

module _ (f : Floats) (bytes : FloatBytes f) (input : Cloud) (o : Offsets) where
  -- A point in the data is converted.
  pub convert_point_lem :
      (i : ℕ)
      → Holds input (i * input.point_step)
      → (p : List ℕ) × ((convert_point f bytes input o i ≡ some p) × IsPoint f bytes input o i p)
  unfolding convert_point
  convert_point_lem i h =
      let (x, (rx, lx)) = read_float32_lem input (i * input.point_step) o.x_offset h in
      let (y, (ry, ly)) = read_float32_lem input (i * input.point_step) o.y_offset h in
      let (z, (rz, lz)) = read_float32_lem input (i * input.point_step) o.z_offset h in
      let (v, (rv, lv)) = read_float32_lem input (i * input.point_step) o.intensity_offset h in
      let (c, (rc, lc)) =
        read_uint16_lem input (i * input.point_step)
          (if is_negative o.ring_offset then o.channel_offset else o.ring_offset) h in
      let p = x ++ (y ++ (z ++ (intensity_to_uint8 f bytes (bytes.of_bytes v) ∷ 1 ∷ c))) in
      (
        p,
        (
          rw (rx, ry, rz, rv, rc) refl,
          record {
            x = x;
            y = y;
            z = z;
            intensity = v;
            channel = c;
            reads_x = rx;
            reads_y = ry;
            reads_z = rz;
            reads_intensity = rv;
            reads_channel = rc;
            length_x = lx;
            length_y = ly;
            length_z = lz;
            length_channel = lc;
            layout = refl;
          },
        ),
      )

  pub length-IsPoint : (i : ℕ) (p : List ℕ) → IsPoint f bytes input o i p → length p ≡ 16
  length-IsPoint i p q =
      ap length q.layout
      ∙ omega (
        arith,
        length-append q.x (q.y ++ (q.z ++ tail)),
        length-append q.y (q.z ++ tail),
        length-append q.z tail,
        q.length_x,
        q.length_y,
        q.length_z,
        q.length_channel,
      )
    where
      tail : List ℕ
      tail = intensity_to_uint8 f bytes (bytes.of_bytes q.intensity) ∷ 1 ∷ q.channel
