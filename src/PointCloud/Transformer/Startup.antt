-- ===== src/PointCloud/Transformer/Startup.antt =====
-- The constructor of point_cloud_transformer.cpp: its parameters, its topics, and the wait for the transform
-- from the lidar to the car.
use wtbcar_autoware_nav.Prelude.{
  ◌>>=◌, ℕ, zero, suc, ◌+◌, ◌<◌, ◌≡◌, refl, ap, ◌∙◌, ◌⊎◌, inl, inr, String, Bool, true, false,
  if◌then◌else◌, [], ◌∷◌, Option, none, some, arith,
}
use wtbcar_autoware_nav.Floats.{Floats}
use wtbcar_autoware_nav.Ros.{Parameters, Unset, Topics}
use wtbcar_autoware_nav.PointCloud.Transformer.{Node, init}

pub data Callback : Type 0 where
  point_cloud_callback : Callback

pub data Publisher : Type 0 where
  point_cloud_pub : Publisher
  point_cloud_pub_xyzirt : Publisher

-- The topics of the publishers.
abbrev pub names : Publisher → String
names point_cloud_pub = "/sensing/lidar/concatenated/pointcloud"
names point_cloud_pub_xyzirt = "/sensing/lidar/concatenated/pointcloud_xyzirt"

-- What tf2 and rclcpp answer: whether the transform is there at the i-th poll, whether ROS runs then, and
-- the transform itself, where `none` is an exception.
pub record Listener (Transform : Type 0) : Type 0 where
  pub can_transform : ℕ → Bool
  pub ok : ℕ → Bool
  pub lookup : Option Transform

-- The node with the transform that it stores; without one the member keeps its default.
pub record Started (f : Floats) (Transform : Type 0) : Type 0 where
  pub node : Node f
  pub transform : Option Transform
  pub topics : Topics Callback Publisher

module _ {Transform : Type 0} (tf : Listener Transform) where
  -- The polls from the i-th on: whether the transform came. `none`: the fuel ran out.
  pub wait : ℕ → ℕ → Option Bool
  wait zero i = none
  wait (suc fuel) i =
      let rest = wait fuel (suc i) in
      if tf.can_transform i then some true else if tf.ok i then rest else some false

module _ (f : Floats) {Transform : Type 0} (params : Parameters f) (tf : Listener Transform) where
  pub construct : ℕ → Option (Started f Transform)
  construct fuel = do
    min_height_threshold ← params.number "min_height_threshold" (f.neg (f.literal 1 0))
    max_height_threshold ← params.number "max_height_threshold" (f.literal 1 0)
    use_height_filter ← params.truth "use_height_filter" false
    found ← wait tf fuel 0
    some (record {
      node = init min_height_threshold max_height_threshold use_height_filter;
      transform = if found then tf.lookup else none;
      topics = record {
        subscriptions = ("/sensing/lidar/pointcloud_raw", point_cloud_callback) ∷ [];
        topic_of = names;
      };
    })

  -- The polls before this one find no transform while ROS runs, and this one finds it or ROS down.
  pub record Ends (n : ℕ) : Type 0 where
    pub before : (i : ℕ) → i < n → (tf.can_transform i ≡ false) × (tf.ok i ≡ true)
    pub here : (tf.can_transform n ≡ true) ⊎ (tf.ok n ≡ false)

  wait_here :
      (n : ℕ)
      → (tf.can_transform n ≡ true) ⊎ (tf.ok n ≡ false)
      → wait tf 1 n ≡ some (tf.can_transform n)
  unfolding wait
  wait_here n (inl there) = rw there refl
  wait_here n (inr down) = ground arith

  wait_lem :
      (left i n : ℕ) → left + i ≡ n → Ends n → wait tf (suc left) i ≡ some (tf.can_transform n)
  unfolding wait
  wait_lem zero i n e h = ap (wait tf 1) (omega arith) ∙ (wait_here n h.here ∙ refl)
  wait_lem (suc left) i n e h =
      let (waits, runs) = h.before i (omega arith) in
      rw (waits, runs) (wait_lem left (suc i) n (omega arith) h)

  -- Where the launch sets no parameter, the constructor ends at the first poll at which the transform is
  -- there or ROS is down, on one unit of fuel more than the polls before it, with the height filter off;
  -- it stores the transform only if it was there and the lookup does not throw.
  pub construct_lem :
      (n : ℕ)
      → Unset f params
      → Ends n
      → construct (suc n)
        ≡ some (record {
          node = init (f.neg (f.literal 1 0)) (f.literal 1 0) false;
          transform = if tf.can_transform n then tf.lookup else none;
          topics = record {
            subscriptions = ("/sensing/lidar/pointcloud_raw", point_cloud_callback) ∷ [];
            topic_of = names;
          };
        })
  unfolding construct
  construct_lem n unset h = simp (unset.number, unset.truth, wait_lem n 0 n (omega arith) h)
