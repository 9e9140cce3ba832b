-- ===== src/PointCloud/Adapter/Tests.antt =====
-- The adapter on a cloud of two points, and on one without its ring.
use wtbcar_autoware_nav.Prelude.{
  ℕ, ◌/◌, ◌*◌, ◌<◌, ◌≡◌, ◌↔◌, refl, true, false, get_or, [], ◌∷◌, some, arith,
}
use wtbcar_autoware_nav.Prelude.Int.{ℤ, pos, negsuc, ltb_ℤ}
use wtbcar_autoware_nav.Floats.Thousandths.{quot, thousandths}
use wtbcar_autoware_nav.PointCloud.{Cloud, field_offset, to_int, slice}
use wtbcar_autoware_nav.PointCloud.{is_negative}
use wtbcar_autoware_nav.PointCloud.Adapter.{
  FloatBytes, Datatypes, make_field, offsets_of, on_pointcloud, convert_points, convert_point,
  read_float32, read_uint16, intensity_to_uint8, clamp32, to_uint8, write_at, output_fields,
}
use wtbcar_autoware_nav.PointCloud.Adapter.Points.{Fits}
use wtbcar_autoware_nav.PointCloud.Adapter.Fields.{Named, apart, here, later}
use wtbcar_autoware_nav.PointCloud.Adapter.Intensity.{RoundLaws}
use wtbcar_autoware_nav.PointCloud.Adapter.Output.{output, on_pointcloud-skips}
use wtbcar_autoware_nav.PointCloud.Adapter.Reader.{
  Placed, by_ring, IsXyzirc, SamePoint, on_pointcloud-view,
}

-- A `float` is read as its first byte.
abbrev first_byte : FloatBytes thousandths
first_byte = record {
  of_bytes = λ b. pos (get_or b 0 0 * 1000);
  is_finite = λ x. true;
  lround = λ x. quot x 1000;
}

abbrev types : Datatypes
types = record { float32 = 7; uint8 = 2; uint16 = 4 }

abbrev pub lidar : Cloud
lidar = record {
  stamp = 5;
  frame_id = "laser";
  height = 1;
  width = 2;
  fields =
      make_field "x" 0 7
      ∷ make_field "y" 4 7
      ∷ make_field "z" 8 7
      ∷ make_field "intensity" 12 7
      ∷ make_field "ring" 16 4
      ∷ [];
  is_bigendian = false;
  point_step = 18;
  row_step = 36;
  payload =
      1 ∷ 2 ∷ 3 ∷ 4 ∷ 5 ∷ 6 ∷ 7 ∷ 8 ∷ 9 ∷ 10 ∷ 11 ∷ 12 ∷ 90 ∷ 0 ∷ 0 ∷ 0 ∷ 3 ∷ 0 ∷ 21 ∷ 22 ∷ 23 ∷ 24
      ∷ 25 ∷ 26 ∷ 27 ∷ 28 ∷ 29 ∷ 30 ∷ 31 ∷ 32 ∷ 80 ∷ 0 ∷ 0 ∷ 0 ∷ 4 ∷ 0 ∷ [];
  is_dense = true;
}

lidar-Fits : Fits lidar
lidar-Fits = record { enough = omega arith }

lidar-Placed : Placed thousandths first_byte types lidar 0 4 8 12 (some 16)
lidar-Placed = record {
  x_at = record {
    field = make_field "x" 0 7;
    first = here refl;
    typed = refl;
    placed = refl;
    inside = omega arith;
    small = omega arith;
  };
  y_at = record {
    field = make_field "y" 4 7;
    first = later (apart "x" "y" refl) (here refl);
    typed = refl;
    placed = refl;
    inside = omega arith;
    small = omega arith;
  };
  z_at = record {
    field = make_field "z" 8 7;
    first = later (apart "x" "z" refl) (later (apart "y" "z" refl) (here refl));
    typed = refl;
    placed = refl;
    inside = omega arith;
    small = omega arith;
  };
  intensity_at = record {
    field = make_field "intensity" 12 7;
    first =
        later (apart "x" "intensity" refl)
          (later (apart "y" "intensity" refl) (later (apart "z" "intensity" refl) (here refl)));
    typed = refl;
    placed = refl;
    inside = omega arith;
    small = omega arith;
  };
  channel_at = by_ring (record {
    field = make_field "ring" 16 4;
    first = later (apart "x" "ring" refl) (
        later (apart "y" "ring" refl)
          (later (apart "z" "ring" refl) (later (apart "intensity" "ring" refl) (here refl))));
    typed = refl;
    placed = refl;
    inside = omega arith;
    small = omega arith;
  });
}

first_byte-RoundLaws : RoundLaws thousandths first_byte
first_byte-RoundLaws = record { low = refl; high = refl; between = between }
  where
    between :
        (v : ℤ)
        → first_byte.is_finite v ≡ true
        → ltb_ℤ v (pos 0) ≡ false
        → ltb_ℤ (pos 255000) v ≡ false
        → (m : ℕ) × ((quot v 1000 ≡ pos m) × (m < 256))
    between (pos n) e l g = (n / 1000, (refl, ground arith))
    between (negsuc n) e l g = absurd (ground arith)

on_pointcloud-view_example :
    (out : Cloud) × ((on_pointcloud thousandths first_byte types 9 lidar ≡ some (out ∷ []))
      × (IsXyzirc thousandths first_byte types lidar out
          × ((i : ℕ)
              → i < 2 * 1
              → SamePoint thousandths first_byte types lidar out 0 4 8 12 (some 16) i)))
on_pointcloud-view_example =
    on_pointcloud-view thousandths first_byte types 9 first_byte-RoundLaws lidar 0 4 8 12 (some 16)
      lidar-Placed lidar-Fits (omega arith)

-- The same cloud without the field for the intensity.
abbrev dark : Cloud
dark = record lidar { fields = make_field "x" 0 7 ∷ make_field "y" 4 7 ∷ make_field "z" 8 7 ∷ [] }

on_pointcloud-skips_example :
    (on_pointcloud thousandths first_byte types 9 dark ≡ some [])
    ↔ (¬ (Named dark "x" × Named dark "y" × Named dark "z" × Named dark "intensity"))
on_pointcloud-skips_example =
    on_pointcloud-skips thousandths first_byte types 9 dark (record { enough = omega arith })
      (omega arith)

-- A run: the two points, with their channels 3 and 4.
run :
    on_pointcloud thousandths first_byte types 9 lidar
    ≡ some (
        output thousandths first_byte types 9 lidar (
          1 ∷ 2 ∷ 3 ∷ 4 ∷ 5 ∷ 6 ∷ 7 ∷ 8 ∷ 9 ∷ 10 ∷ 11 ∷ 12 ∷ 90 ∷ 1 ∷ 3 ∷ 0 ∷ 21 ∷ 22 ∷ 23 ∷ 24 ∷ 25
          ∷ 26 ∷ 27 ∷ 28 ∷ 29 ∷ 30 ∷ 31 ∷ 32 ∷ 80 ∷ 1 ∷ 4 ∷ 0 ∷ [])
        ∷ [])
unfolding on_pointcloud convert_points convert_point offsets_of field_offset to_int is_negative
    read_float32 read_uint16 intensity_to_uint8 clamp32 to_uint8 write_at output_fields slice
run = refl
