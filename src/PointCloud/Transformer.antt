-- ===== src/PointCloud/Transformer.antt =====
-- common_sensor_launch/src/point_cloud_transformer.cpp: every cloud of the lidar, moved to base_link, as
-- one cloud for Autoware and one for LIO-SAM. `pcl::fromROSMsg`, Eigen's product and the memory layout
-- of numbers are parameters; a published cloud is the PCL cloud that `pcl::toROSMsg` encodes.
mod Fields
mod Clouds
mod Layout
mod Startup
mod Runs
mod Tests
use wtbcar_autoware_nav.Prelude.{
  ◌>>=◌, ℕ, suc, ◌+◌, ◌-◌, ◌*◌, ◌%◌, ◌^◌, String, str_eq, Bool, ◌==◌, ◌||◌, if◌then◌else◌, List, [],
  ◌∷◌, length, ◌++◌, replicate, Option, none, some,
}
use wtbcar_autoware_nav.Prelude.Int.{ℤ, pos, negsuc}
use wtbcar_autoware_nav.Floats.{Floats}
use wtbcar_autoware_nav.PointCloud.{PointField, Cloud, to_int, field_offset, slice}
use wtbcar_autoware_nav.PointCloud.{is_negative}

-- The datatypes of sensor_msgs/PointField that the time can have.
pub record TimeTypes : Type 0 where
  pub uint32 : ℕ
  pub float32 : ℕ
  pub float64 : ℕ

-- pcl::PointXYZI and pcl::PointCloud, as the node uses them.
pub record PointXyzi (f : Floats) : Type 0 where
  pub x : f.F32
  pub y : f.F32
  pub z : f.F32
  pub intensity : f.F32

pub record PclCloud (P : Type 0) : Type 0 where
  pub points : List P
  pub width : ℕ
  pub height : ℕ
  pub is_dense : Bool

-- autoware::point_types::PointXYZIRC.
pub record PointXyzirc (f : Floats) : Type 0 where
  pub x : f.F32
  pub y : f.F32
  pub z : f.F32
  pub intensity : ℕ
  pub return_type : ℕ
  pub channel : List ℕ

-- The node's own point for LIO-SAM.
pub record PointXyzirt (f : Floats) : Type 0 where
  pub x : f.F32
  pub y : f.F32
  pub z : f.F32
  pub intensity : f.F32
  pub ring : List ℕ
  pub time : f.F32

-- What the node uses of other packages: the numbers of its bytes, PCL's reader (`none` where it
-- throws), the point under the transform, and the constant SINGLE_STRONGEST.
pub record Outside (f : Floats) : Type 0 where
  pub types : TimeTypes
  pub float32_of : List ℕ → f.F32
  pub float64_of : List ℕ → f.F64
  pub uint32_of : List ℕ → ℕ
  pub from_ros : Cloud → Option (PclCloud (PointXyzi f))
  pub transform : PointXyzi f → PointXyzi f
  pub single_strongest : ℕ

pub record Node (f : Floats) : Type 0 where
  pub min_height_threshold : f.F64
  pub max_height_threshold : f.F64
  pub use_height_filter : Bool
  pub ring_offset : ℤ
  pub time_offset : ℤ
  pub time_datatype : ℤ

-- The node as the constructor leaves it, with its three parameters.
abbrev pub init : {f : Floats} → f.F64 → f.F64 → Bool → Node f
init min_height_threshold max_height_threshold use_height_filter = record {
  min_height_threshold = min_height_threshold;
  max_height_threshold = max_height_threshold;
  use_height_filter = use_height_filter;
  ring_offset = negsuc 0;
  time_offset = negsuc 0;
  time_datatype = negsuc 0;
}

-- The clouds that go out, with their header.
pub record Published (f : Floats) : Type 0 where
  pub stamp : ℕ
  pub frame_id : String
  pub autoware : PclCloud (PointXyzirc f)
  pub liosam : PclCloud (PointXyzirt f)

-- `field_datatype`, on the fields that are left of the loop.
unfoldable pub field_datatype : List PointField → String → ℤ
field_datatype [] name = negsuc 0
field_datatype (field ∷ fields) name =
    if str_eq field.name name then to_int field.datatype else field_datatype fields name

-- `read_uint16`, which does not compare with the size of a point.
pub read_uint16 : List ℕ → ℕ → ℤ → Option (List ℕ)
read_uint16 raw_data point (negsuc n) = some (replicate 2 0)
read_uint16 raw_data point (pos offset) = slice raw_data (point + offset) 2

-- `i * point_step`, in `size_t`, of an `int`.
pub point_at : Cloud → ℕ → ℕ
point_at msg i = elim (to_int msg.point_step) [
  | pos n ↦ i * n % 2 ^ 64
  | negsuc n ↦ i * (2 ^ 64 - 1 - n) % 2 ^ 64
]

-- The channel's field of a cloud, under either name.
pub ring_field : List PointField → ℤ
ring_field fields =
    let ring = field_offset fields "ring" in
    if is_negative ring then field_offset fields "channel" else ring

-- Offset and type of the time, under the first of its names that the cloud has.
pub time_field : List PointField → ℤ × ℤ
time_field fields =
    if is_negative (field_offset fields "timestamp")
    then if is_negative (field_offset fields "time")
      then (field_offset fields "t", field_datatype fields "t")
      else (field_offset fields "time", field_datatype fields "time")
    else (field_offset fields "timestamp", field_datatype fields "timestamp")

module _ (f : Floats) where
  -- What a message teaches the node of the layout.
  pub resolve : Node f → Cloud → Node f
  resolve n msg =
      let ring = if is_negative n.ring_offset then ring_field msg.fields else n.ring_offset in
      let time =
        if is_negative n.time_offset
        then time_field msg.fields
        else (n.time_offset, n.time_datatype) in
      record n { ring_offset = ring; time_offset = time.0; time_datatype = time.1 }

  -- Whether the height filter drops a point.
  pub dropped : Node f → PointXyzi f → Bool
  dropped n p =
      if n.use_height_filter
      then f.lt (f.widen p.z) n.min_height_threshold || f.lt n.max_height_threshold (f.widen p.z)
      else Bool.false

  -- `static_cast<std::uint8_t>(std::min(255.0f, std::max(0.0f, intensity)))`.
  pub intensity_byte : f.F32 → ℕ
  intensity_byte intensity =
      let above = if f.lt32 (f.literal32 0 0) intensity then intensity else f.literal32 0 0 in
      f.to_unsigned (if f.lt32 above (f.literal32 255 0) then above else f.literal32 255 0) % 256

pub is_datatype : ℤ → ℕ → Bool
is_datatype (pos n) type = n == type
is_datatype (negsuc n) type = Bool.false

module _ (f : Floats) (o : Outside f) where
  -- `abs_time`, from the time's field at this place.
  pub abs_time : ℤ → List ℕ → ℕ → Option (f.F64)
  abs_time datatype raw_data at =
      if is_datatype datatype o.types.float64
      then (slice raw_data at 8 >>= λ b. some (o.float64_of b))
      else if is_datatype datatype o.types.float32
      then (slice raw_data at 4 >>= λ b. some (f.widen (o.float32_of b)))
      else if is_datatype datatype o.types.uint32
      then (slice raw_data at 4 >>= λ b.
          some (f.mul (f.of_int (pos (o.uint32_of b))) (f.literal 1 9)))
      else some (f.literal 0 0)

  -- The time of the point at `point`, from the stamp of the message on.
  pub point_time : ℤ → ℤ → Cloud → ℕ → Option (f.F32)
  point_time (negsuc k) datatype msg point = some (f.literal32 0 0)
  point_time (pos offset) datatype msg point =
      abs_time datatype msg.payload (point + offset) >>= λ t.
      some (f.narrow (f.sub t (f.seconds (pos msg.stamp))))

  pub autoware_point : PointXyzi f → f.F32 → List ℕ → PointXyzirc f
  autoware_point p intensity ring = record {
    x = p.x;
    y = p.y;
    z = p.z;
    intensity = intensity_byte f intensity;
    return_type = o.single_strongest % 256;
    channel = ring;
  }

  pub liosam_point : PointXyzi f → f.F32 → List ℕ → f.F32 → PointXyzirt f
  liosam_point p intensity ring time = record {
    x = p.x;
    y = p.y;
    z = p.z;
    intensity = intensity;
    ring = ring;
    time = time;
  }

  -- The loop over the points, from the i-th on.
  pub convert :
      Node f → Cloud → ℕ → List (PointXyzi f) → Option (List (PointXyzirc f) × List (PointXyzirt f))
  convert n msg i [] = some ([], [])
  convert n msg i (p_in ∷ points) =
      let rest = convert n msg (suc i) points in
      let p = o.transform p_in in
      if dropped f n p then rest else (do
        ring ← read_uint16 msg.payload (point_at msg i) n.ring_offset
        time ← point_time n.time_offset n.time_datatype msg (point_at msg i)
        (autoware, liosam) ← rest
        some (
          autoware_point p p_in.intensity ring ∷ autoware,
          liosam_point p p_in.intensity ring time ∷ liosam,
        ))

  -- The callback, on what PCL's reader makes of the message.
  pub answer :
      Node f → Cloud → Option (PclCloud (PointXyzi f)) → Option (Node f × List (Published f))
  answer n msg none = some (n, [])
  answer n msg (some cloud_in) = do
    (autoware, liosam) ← convert n msg 0 cloud_in.points
    some (
      n,
      record {
        stamp = msg.stamp;
        frame_id = "base_link";
        autoware = record {
          points = autoware;
          width = length autoware % 2 ^ 32;
          height = 1;
          is_dense = cloud_in.is_dense;
        };
        liosam = record {
          points = liosam;
          width = length liosam % 2 ^ 32;
          height = 1;
          is_dense = cloud_in.is_dense;
        };
      }
          ∷ [],
    )

  -- The node after a message, and what it publishes.
  pub point_cloud_callback : Node f → Cloud → Option (Node f × List (Published f))
  point_cloud_callback n msg = answer (resolve f n msg) msg (o.from_ros msg)

  -- The messages of a run, one after the other.
  pub run : Node f → List Cloud → Option (Node f × List (Published f))
  run n [] = some (n, [])
  run n (msg ∷ msgs) = do
    (n', out) ← point_cloud_callback n msg
    (n'', outs) ← run n' msgs
    some (n'', out ++ outs)
