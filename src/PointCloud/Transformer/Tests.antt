-- ===== src/PointCloud/Transformer/Tests.antt =====
-- The transformer on the lidar's cloud of the adapter's tests, with a filter that drops its second point.
use wtbcar_autoware_nav.Prelude.{
  ℕ, Bool, ◌==◌, false, inl, ◌<◌, ◌≡◌, ◌*◌, refl, List, true, [], ◌∷◌, get_or, some, none, arith,
}
use wtbcar_autoware_nav.Prelude.Int.{pos, negsuc, ◌+ℤ◌, ◌-ℤ◌, ◌*ℤ◌}
use wtbcar_autoware_nav.Floats.Thousandths.{thousandths}
use wtbcar_autoware_nav.PointCloud.{Cloud, field_offset, to_int, slice}
use wtbcar_autoware_nav.PointCloud.{is_negative}
use wtbcar_autoware_nav.PointCloud.Adapter.Tests.{lidar}
use wtbcar_autoware_nav.PointCloud.Transformer.{
  Outside, PointXyzi, PclCloud, Node, init, Published, resolve, ring_field, time_field,
  field_datatype, point_cloud_callback, run, answer, convert, dropped, point_time, abs_time,
  point_at, is_datatype, read_uint16, autoware_point, liosam_point, intensity_byte,
}
use wtbcar_autoware_nav.PointCloud.Transformer.Clouds.{
  Readable, IsPair, point_cloud_callback-IsPair,
}
use wtbcar_autoware_nav.Ros.Tests.{unset, unset-Unset}
use wtbcar_autoware_nav.PointCloud.Transformer.Startup.{
  Listener, Ends, names, point_cloud_callback as on_cloud, construct, construct_lem,
}
use wtbcar_autoware_nav.PointCloud.Transformer.Runs.{AllAnswerable, IsRun, run-IsRun}

abbrev low : PointXyzi thousandths
low = record { x = pos 1000; y = pos 0; z = pos 500; intensity = pos 90000 }

abbrev high : PointXyzi thousandths
high = record { x = pos 1000; y = pos 0; z = pos 1500; intensity = pos 300000 }

abbrev pcl : PclCloud (PointXyzi thousandths)
pcl = record { points = low ∷ high ∷ []; width = 2; height = 1; is_dense = true }

-- The reader throws on a cloud without data.
abbrev outside : Outside thousandths
outside = record {
  types = record { uint32 = 6; float32 = 7; float64 = 8 };
  float32_of = λ b. pos (get_or b 0 0 * 1000);
  float64_of = λ b. pos (get_or b 0 0 * 1000);
  uint32_of = λ b. get_or b 0 0;
  from_ros = λ msg. elim msg.payload [ [] ↦ none | b ∷ bs ↦ some pcl ];
  transform = λ p. p;
  single_strongest = 1;
}

abbrev fresh : Node thousandths
fresh = init (negsuc 999) (pos 1000) true

lidar-Readable : Readable thousandths outside (resolve thousandths fresh lidar) lidar
unfolding resolve ring_field time_field field_offset field_datatype to_int is_negative
lidar-Readable = record {
  ring_inside = omega arith;
  time_inside = tt;
  fits = record { enough = omega arith };
  small_step = omega arith;
  small_data = omega arith;
}

point_cloud_callback-IsPair_example :
    (out : Published thousandths) × ((point_cloud_callback thousandths outside fresh lidar
        ≡ some (resolve thousandths fresh lidar, out ∷ []))
      × IsPair thousandths outside (resolve thousandths fresh lidar) lidar pcl out)
point_cloud_callback-IsPair_example =
    point_cloud_callback-IsPair thousandths outside fresh lidar pcl lidar-Readable refl refl

-- A node that knows both places, two clouds without fields and one without data.
abbrev knowing : Node thousandths
knowing = record fresh { ring_offset = pos 16; time_offset = pos 4; time_datatype = pos 7 }

abbrev bare : Cloud
bare = record lidar { fields = []; stamp = 6 }

abbrev broken : Cloud
broken = record lidar { payload = []; stamp = 7 }

abbrev low_pair : ℕ → Published thousandths
low_pair stamp = record {
  stamp = stamp;
  frame_id = "base_link";
  autoware = record {
    points =
        record {
          x = pos 1000;
          y = pos 0;
          z = pos 500;
          intensity = 90;
          return_type = 1;
          channel = 3 ∷ 0 ∷ [];
        }
        ∷ [];
    width = 1;
    height = 1;
    is_dense = true;
  };
  liosam = record {
    points =
        record {
          x = pos 1000;
          y = pos 0;
          z = pos 500;
          intensity = pos 90000;
          ring = 3 ∷ 0 ∷ [];
          time = pos 5000;
        }
        ∷ [];
    width = 1;
    height = 1;
    is_dense = true;
  };
}

knowing_runs :
    run thousandths outside knowing (lidar ∷ broken ∷ bare ∷ [])
    ≡ some (knowing, low_pair 5 ∷ low_pair 6 ∷ [])
unfolding run point_cloud_callback answer convert resolve dropped point_time abs_time point_at
    is_datatype read_uint16 slice autoware_point liosam_point intensity_byte is_negative to_int ◌+ℤ◌
    ◌-ℤ◌ ◌*ℤ◌
knowing_runs = refl

all-Answerable : AllAnswerable thousandths outside knowing (lidar ∷ broken ∷ bare ∷ [])
unfolding resolve is_negative is_datatype
all-Answerable = (
  (
    record {
      ring_inside = omega arith;
      time_inside = omega arith;
      fits = record { enough = omega arith };
      small_step = omega arith;
      small_data = omega arith;
    },
    refl,
  ),
  (
    tt,
    (
      (
        record {
          ring_inside = omega arith;
          time_inside = omega arith;
          fits = record { enough = omega arith };
          small_step = omega arith;
          small_data = omega arith;
        },
        refl,
      ),
      tt,
    ),
  ),
)

run-IsRun_example :
    (r : Node thousandths × List (Published thousandths)) × ((run thousandths outside knowing
          (lidar ∷ broken ∷ bare ∷ [])
        ≡ some r)
      × IsRun thousandths outside knowing (lidar ∷ broken ∷ bare ∷ []) r.0 r.1)
run-IsRun_example =
    run-IsRun thousandths outside knowing (lidar ∷ broken ∷ bare ∷ []) all-Answerable

-- The transform comes at the third poll.
abbrev third : Listener ℕ
third = record { can_transform = λ i. i == 2; ok = λ i. true; lookup = some 7 }

third-Ends : Ends thousandths unset third 2
third-Ends = record { before = early; here = inl refl }
  where
    early : (i : ℕ) → i < 2 → ((i == 2) ≡ false) × (◌≡◌ {A = Bool} true true)
    early i h = (ground arith, refl)

construct_lem_example :
    construct thousandths unset third 3
    ≡ some (record {
      node = init (negsuc 999) (pos 1000) false;
      transform = some 7;
      topics = record {
        subscriptions = ("/sensing/lidar/pointcloud_raw", on_cloud) ∷ [];
        topic_of = names;
      };
    })
unfolding ◌-ℤ◌
construct_lem_example = construct_lem thousandths unset third 2 unset-Unset third-Ends
