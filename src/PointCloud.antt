-- ===== src/PointCloud.antt =====
-- The point clouds of wtb_sensor_kit_launch/common_sensor_launch: sensor_msgs/PointCloud2 and the
-- functions on its fields that both nodes of src/ share. A value in a cloud is the list of its bytes;
-- `none` is a read or a write outside a buffer, which C++ leaves undefined.
pub mod Adapter
pub mod Bytes
pub mod Transformer
use wtbcar_autoware_nav.Prelude.{
  ℕ, ◌+◌, ◌-◌, ◌^◌, String, str_eq, Bool, ltb, leb, if◌then◌else◌, List, [], ◌∷◌, ◌++◌, take, drop,
  length, Option, none, some,
}
use wtbcar_autoware_nav.Prelude.Int.{ℤ, pos, negsuc}

-- sensor_msgs/PointField.
pub record PointField : Type 0 where
  pub name : String
  pub offset : ℕ
  pub datatype : ℕ
  pub count : ℕ

-- sensor_msgs/PointCloud2; `payload` is its `data`.
pub record Cloud : Type 0 where
  pub stamp : ℕ
  pub frame_id : String
  pub height : ℕ
  pub width : ℕ
  pub fields : List PointField
  pub is_bigendian : Bool
  pub point_step : ℕ
  pub row_step : ℕ
  pub payload : List ℕ
  pub is_dense : Bool

-- `static_cast<int>` of a `uint32_t`.
unfoldable pub to_int : ℕ → ℤ
to_int n = if ltb n (2 ^ 31) then pos n else negsuc (2 ^ 32 - 1 - n)

unfoldable pub is_negative : ℤ → Bool
is_negative (pos n) = Bool.false
is_negative (negsuc n) = Bool.true

-- `field_offset`, on the fields that are left of the loop.
unfoldable pub field_offset : List PointField → String → ℤ
field_offset [] name = negsuc 0
field_offset (field ∷ fields) name =
    if str_eq field.name name then to_int field.offset else field_offset fields name

-- `memcpy` of so many bytes from an offset.
unfoldable pub slice : List ℕ → ℕ → ℕ → Option (List ℕ)
slice bytes offset n =
    if leb (offset + n) (length bytes) then some (take n (drop offset bytes)) else none
