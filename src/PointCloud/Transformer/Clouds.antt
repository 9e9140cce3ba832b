-- ===== src/PointCloud/Transformer/Clouds.antt =====
-- The two clouds that point_cloud_transformer.cpp publishes for a message: their points, one by one.
use wtbcar_autoware_nav.Prelude.{
  ◌||◌, false, ℕ, suc, ◌+◌, ◌*◌, ◌%◌, ◌^◌, ◌≤◌, ◌<◌, ◌≡◌, refl, ap₂, true, Bool, Bool-cases, inl,
  inr, ltb, if◌then◌else◌, List, [], ◌∷◌, length, map, some, arith,
}
use native.Mathlib.Nat.{mul-le-mul_right}
use wtbcar_autoware_nav.Floats.{Floats}
use wtbcar_autoware_nav.PointCloud.{Cloud, to_int}
use wtbcar_autoware_nav.PointCloud.Adapter.Points.{Fits}
use wtbcar_autoware_nav.PointCloud.Transformer.{
  Outside, Node, PointXyzi, PointXyzirc, PointXyzirt, PclCloud, Published, point_at, dropped,
  intensity_byte, autoware_point, liosam_point, resolve, convert, answer, point_cloud_callback,
}
use wtbcar_autoware_nav.PointCloud.Transformer.Fields.{
  Inside, time_size, read_uint16_lem, point_time_lem,
}

-- The points in which a Boolean test fails.
abbrev pub reject {ℓ} : {A : Type ℓ} → (A → Bool) → List A → List A
reject p [] = []
reject p (x ∷ xs) = if p x then reject p xs else x ∷ reject p xs

module _ (f : Floats) (o : Outside f) where
  -- A point of the Autoware cloud, from the one of the LIO-SAM cloud.
  abbrev pub of_liosam : PointXyzirt f → PointXyzirc f
  of_liosam p = record {
    x = p.x;
    y = p.y;
    z = p.z;
    intensity = intensity_byte f p.intensity;
    return_type = o.single_strongest % 256;
    channel = p.ring;
  }

  -- What a point of the LIO-SAM cloud keeps of the point that came in.
  abbrev pub place : PointXyzirt f → PointXyzi f
  place p = record { x = p.x; y = p.y; z = p.z; intensity = p.intensity }

  -- A point that came in, moved to base_link.
  abbrev pub moved : PointXyzi f → PointXyzi f
  moved p = record (o.transform p) { intensity = p.intensity }

  moved-dropped :
      (n : Node f) (p : PointXyzi f) → dropped f n (moved p) ≡ dropped f n (o.transform p)
  unfolding dropped
  moved-dropped n p = refl

  point_agrees :
      (p : PointXyzi f) (intensity : f.F32) (ring : List ℕ) (time : f.F32)
      → autoware_point f o p intensity ring ≡ of_liosam (liosam_point f o p intensity ring time)
  unfolding autoware_point liosam_point
  point_agrees p intensity ring time = refl

  point_place :
      (p : PointXyzi f) (ring : List ℕ) (time : f.F32)
      → place (liosam_point f o (o.transform p) p.intensity ring time) ≡ moved p
  unfolding liosam_point
  point_place p ring time = refl

  -- The loop's result, on points in the data.
  record IsClouds (n : Node f) (msg : Cloud) (i : ℕ) (points : List (PointXyzi f)) : Type 0 where
    autoware : List (PointXyzirc f)
    liosam : List (PointXyzirt f)
    result : convert f o n msg i points ≡ some (autoware, liosam)
    agree : autoware ≡ map of_liosam liosam
    kept : map place liosam ≡ reject (dropped f n) (map moved points)

  convert_lem :
      (n : Node f) (msg : Cloud) (count i : ℕ) (points : List (PointXyzi f))
      → Inside n.ring_offset 2 msg.point_step
      → Inside n.time_offset (time_size o.types n.time_datatype) msg.point_step
      → ((j : ℕ) → j < count → point_at msg j + msg.point_step ≤ length msg.payload)
      → i + length points ≤ count
      → IsClouds n msg i points
  unfolding convert
  convert_lem n msg count i [] ring time holds within = record {
    autoware = [];
    liosam = [];
    result = refl;
    agree = refl;
    kept = refl;
  }
  convert_lem n msg count i (p ∷ points) ring time holds within =
      let rest = convert_lem n msg count (suc i) points ring time holds (omega arith) in
      let (r, read_r) =
        read_uint16_lem msg.payload (point_at msg i) msg.point_step n.ring_offset ring
          (holds i (omega arith)) in
      let (t, read_t) =
        point_time_lem f o n.time_offset n.time_datatype msg (point_at msg i) time
          (holds i (omega arith)) in
      elim (Bool-cases (dropped f n (o.transform p))) [
        | inl e ↦ record {
          autoware = rest.autoware;
          liosam = rest.liosam;
          result = rw e rest.result;
          agree = rest.agree;
          kept = rw (moved-dropped n p, e) rest.kept;
        }
        | inr e ↦ record {
          autoware = autoware_point f o (o.transform p) p.intensity r ∷ rest.autoware;
          liosam = liosam_point f o (o.transform p) p.intensity r t ∷ rest.liosam;
          result = rw (e, read_r, read_t, rest.result) refl;
          agree = ap₂ (λ a l. a ∷ l) (point_agrees (o.transform p) p.intensity r t) rest.agree;
          kept = rw (moved-dropped n p, e) (ap₂ (λ q l. q ∷ l) (point_place p r t) rest.kept);
        }
      ]

  -- A message whose layout this node reads inside the data: what it needs of the message.
  pub record Readable (n : Node f) (msg : Cloud) : Type 0 where
    pub ring_inside : Inside n.ring_offset 2 msg.point_step
    pub time_inside : Inside n.time_offset (time_size o.types n.time_datatype) msg.point_step
    pub fits : Fits msg
    pub small_step : msg.point_step < 2 ^ 31
    pub small_data : length msg.payload < 2 ^ 64

  point_at_lem :
      (msg : Cloud) (i : ℕ)
      → msg.point_step < 2 ^ 31
      → i * msg.point_step < 2 ^ 64
      → point_at msg i ≡ i * msg.point_step
  unfolding point_at to_int
  point_at_lem msg i small h = rw (test, point_at, to_int) (omega arith)
    where
      test : ltb msg.point_step (2 ^ 31) ≡ true
      test = ground arith

  Readable-holds :
      (n : Node f) (msg : Cloud)
      → Readable n msg
      → (j : ℕ) → j < msg.width * msg.height
      → point_at msg j + msg.point_step ≤ length msg.payload
  Readable-holds n msg r j h =
      rw (point_at_lem msg j r.small_step (omega (arith, inside, r.small_data))) inside
    where
      inside : j * msg.point_step + msg.point_step ≤ length msg.payload
      inside = omega (arith, r.fits.enough, mul-le-mul_right msg.point_step h)

  -- Whether a height lies outside the thresholds of the filter, if that is used.
  abbrev pub outside : Node f → PointXyzi f → Bool
  outside n p =
      if n.use_height_filter
      then f.lt (f.widen p.z) n.min_height_threshold || f.lt n.max_height_threshold (f.widen p.z)
      else false

  -- What a published pair of clouds is, for the points that came in.
  pub record IsPair (n : Node f) (msg : Cloud) (cloud_in : PclCloud (PointXyzi f))
      (out : Published f) : Type 0 where
    pub same_stamp : out.stamp ≡ msg.stamp
    pub agree : out.autoware.points ≡ map of_liosam out.liosam.points
    pub kept : map place out.liosam.points ≡ reject (outside n) (map moved cloud_in.points)

  -- With points of less than 2 GiB in less than 2 ^ 64 bytes of data, the callback reads inside the data
  -- and publishes one pair of clouds: LIO-SAM's has, in order, the moved points whose height lies within
  -- the thresholds, or all if the filter is not used, and Autoware's the same points with the same
  -- channels.
  pub point_cloud_callback-IsPair :
      (n : Node f) (msg : Cloud) (cloud_in : PclCloud (PointXyzi f))
      → Readable (resolve f n msg) msg
      → o.from_ros msg ≡ some cloud_in
      → length cloud_in.points ≡ msg.width * msg.height
      → (out : Published f) × ((point_cloud_callback f o n msg ≡ some (resolve f n msg, out ∷ []))
          × IsPair (resolve f n msg) msg cloud_in out)
  unfolding point_cloud_callback answer dropped
  point_cloud_callback-IsPair n msg cloud_in r read size =
      let n' = resolve f n msg in
      let c =
        convert_lem n' msg (msg.width * msg.height) 0 cloud_in.points r.ring_inside r.time_inside
          (Readable-holds n' msg r) (omega arith) in
      (
        record {
          stamp = msg.stamp;
          frame_id = "base_link";
          autoware = record {
            points = c.autoware;
            width = length c.autoware % 2 ^ 32;
            height = 1;
            is_dense = cloud_in.is_dense;
          };
          liosam = record {
            points = c.liosam;
            width = length c.liosam % 2 ^ 32;
            height = 1;
            is_dense = cloud_in.is_dense;
          };
        },
        (
          rw (read, c.result, answer) refl,
          record { same_stamp = refl; agree = c.agree; kept = c.kept },
        ),
      )
