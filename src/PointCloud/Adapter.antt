-- ===== src/PointCloud/Adapter.antt =====
-- common_sensor_launch/src/pointcloud_xyzirt_to_xyzirc_node.cpp: clouds of any layout with x, y, z and
-- intensity, as clouds of the layout x, y, z, intensity, return_type, channel.
pub mod Points
pub mod Buffer
pub mod Intensity
pub mod Fields
pub mod Startup
pub mod Place
pub mod Output
pub mod Reader
pub mod Tests
use wtbcar_autoware_nav.Prelude.{
  ◌>>=◌, ℕ, zero, suc, ◌+◌, ◌-◌, ◌*◌, ◌%◌, ◌^◌, String, Bool, ltb, leb, not, ◌||◌, ◌&&◌,
  if◌then◌else◌, List, [], ◌∷◌, ◌++◌, take, drop, length, replicate, Option, none, some,
}
use wtbcar_autoware_nav.Prelude.Int.{ℤ, pos, negsuc}
use wtbcar_autoware_nav.Floats.{Floats}
use wtbcar_autoware_nav.PointCloud.{PointField, Cloud, field_offset, is_negative, slice}

-- The rest of floating point that the node uses: the `float` of four bytes, `std::isfinite` and
-- `std::lround`.
pub record FloatBytes (f : Floats) : Type 0 where
  pub of_bytes : List ℕ → f.F32
  pub is_finite : f.F32 → Bool
  pub lround : f.F32 → ℤ

-- The constants of sensor_msgs/PointField, which another package declares.
pub record Datatypes : Type 0 where
  pub float32 : ℕ
  pub uint8 : ℕ
  pub uint16 : ℕ

-- The bytes of a `float` in the point at `point`, and those of 0.0F where the field is not in it.
pub read_float32 : Cloud → ℕ → ℤ → Option (List ℕ)
read_float32 cloud point (negsuc n) = some (replicate 4 0)
read_float32 cloud point (pos offset) =
    if ltb cloud.point_step (offset + 4)
    then some (replicate 4 0)
    else slice cloud.payload (point + offset) 4

pub read_uint16 : Cloud → ℕ → ℤ → Option (List ℕ)
read_uint16 cloud point (negsuc n) = some (replicate 2 0)
read_uint16 cloud point (pos offset) =
    if ltb cloud.point_step (offset + 2)
    then some (replicate 2 0)
    else slice cloud.payload (point + offset) 2

-- `static_cast<uint8_t>` of an integer.
pub to_uint8 : ℤ → ℕ
to_uint8 (pos n) = n % 256
to_uint8 (negsuc n) = 255 - n % 256

-- `std::clamp` of a `float`.
pub clamp32 : (f : Floats) → f.F32 → f.F32 → f.F32 → f.F32
clamp32 f v lo hi = if f.lt32 v lo then lo else if f.lt32 hi v then hi else v

module _ (f : Floats) (bytes : FloatBytes f) where
  pub intensity_to_uint8 : f.F32 → ℕ
  intensity_to_uint8 intensity =
      if not (bytes.is_finite intensity)
      then 0
      else to_uint8 (bytes.lround (clamp32 f intensity (f.literal32 0 0) (f.literal32 255 0)))

abbrev pub make_field : String → ℕ → ℕ → PointField
make_field name offset datatype = record {
  name = name;
  offset = offset;
  datatype = datatype;
  count = 1;
}

pub output_fields : Datatypes → List PointField
output_fields types =
    make_field "x" 0 types.float32
    ∷ make_field "y" 4 types.float32
    ∷ make_field "z" 8 types.float32
    ∷ make_field "intensity" 12 types.uint8
    ∷ make_field "return_type" 13 types.uint8
    ∷ make_field "channel" 14 types.uint16
    ∷ []

-- Where the node looks for its values.
pub record Offsets : Type 0 where
  pub x_offset : ℤ
  pub y_offset : ℤ
  pub z_offset : ℤ
  pub intensity_offset : ℤ
  pub ring_offset : ℤ
  pub channel_offset : ℤ

pub offsets_of : Cloud → Offsets
offsets_of input = record {
  x_offset = field_offset input.fields "x";
  y_offset = field_offset input.fields "y";
  z_offset = field_offset input.fields "z";
  intensity_offset = field_offset input.fields "intensity";
  ring_offset = field_offset input.fields "ring";
  channel_offset = field_offset input.fields "channel";
}

-- The six copies to one point of the output, which lie side by side.
pub write_at : List ℕ → ℕ → List ℕ → Option (List ℕ)
write_at buffer offset bytes =
    if leb (offset + length bytes) (length buffer)
    then some (take offset buffer ++ (bytes ++ drop (offset + length bytes) buffer))
    else none

module _ (f : Floats) (bytes : FloatBytes f) where
  -- The sixteen bytes of the i-th point of the output.
  pub convert_point : Cloud → Offsets → ℕ → Option (List ℕ)
  convert_point input o i = do
    let in_point = i * input.point_step
    x ← read_float32 input in_point o.x_offset
    y ← read_float32 input in_point o.y_offset
    z ← read_float32 input in_point o.z_offset
    intensity ← read_float32 input in_point o.intensity_offset
    channel ←
        read_uint16 input in_point
          (if is_negative o.ring_offset then o.channel_offset else o.ring_offset)
    some (x ++ (y ++ (z ++ (intensity_to_uint8 f bytes (bytes.of_bytes intensity) ∷ 1 ∷ channel))))

  -- The loop over the points, from the i-th on with so many left.
  pub convert_points : Cloud → Offsets → ℕ → ℕ → List ℕ → Option (List ℕ)
  convert_points input o zero i out = some out
  convert_points input o (suc left) i out = do
    point ← convert_point input o i
    out' ← write_at out (i * 16) point
    convert_points input o left (suc i) out'

  -- The clouds that the callback publishes.
  pub on_pointcloud : Datatypes → ℕ → Cloud → Option (List Cloud)
  on_pointcloud types now input =
      let o = offsets_of input in
      let row_step = 16 * input.width % 2 ^ 32 in
      if is_negative o.x_offset
        || (is_negative o.y_offset || (is_negative o.z_offset || is_negative o.intensity_offset))
      then some []
      else convert_points input o (input.width * input.height) 0
          (replicate (input.height * row_step) 0)
        >>= λ payload. some (
            record {
              stamp = now;
              frame_id = "base_link";
              height = input.height;
              width = input.width;
              fields = output_fields types;
              is_bigendian = input.is_bigendian;
              point_step = 16;
              row_step = row_step;
              payload = payload;
              is_dense = input.is_dense;
            }
            ∷ [])
