-- ===== src/PointCloud/Transformer/Runs.antt =====
-- Runs of point_cloud_transformer.cpp over messages that can be answered.
use wtbcar_autoware_nav.Prelude.{
  ◌⊎◌, ◌*◌, length, ◌≡◌, refl, inl, inr, List, [], ◌∷◌, ◌++◌, map, Option, some, none,
}
use wtbcar_autoware_nav.Floats.{Floats}
use wtbcar_autoware_nav.PointCloud.{Cloud}
use wtbcar_autoware_nav.PointCloud.{is_negative}
use wtbcar_autoware_nav.PointCloud.Transformer.Clouds.{Readable, point_cloud_callback-IsPair}
use wtbcar_autoware_nav.PointCloud.Transformer.{
  Outside, Node, PointXyzi, PclCloud, Published, ring_field, time_field, resolve, answer,
  point_cloud_callback, run,
}
use wtbcar_autoware_nav.PointCloud.Transformer.Layout.{
  answered, first_known, time_of, run-layout, run-stamps,
}

Option-cases {ℓ} : {A : Type ℓ} (r : Option A) → (r ≡ none) ⊎ ((a : A) × (r ≡ some a))
Option-cases none = inl refl
Option-cases (some a) = inr (a, refl)

module _ (f : Floats) (o : Outside f) where
  -- What a run leaves and publishes.
  pub record IsRun (n : Node f) (msgs : List Cloud) (last : Node f) (outs : List (Published f))
      : Type 0 where
    pub stamps : map (λ p. p.stamp) outs ≡ map (λ m. m.stamp) (answered f o msgs)
    pub ring :
        last.ring_offset
        ≡ first_known is_negative n.ring_offset (map (λ m. ring_field m.fields) msgs)
    pub time :
        time_of f last
        ≡ first_known (λ t. is_negative t.0) (time_of f n) (map (λ m. time_field m.fields) msgs)

  -- A message that can be answered: PCL's reader throws, or takes as many points as the header
  -- announces and the fields that the node then knows lie inside.
  abbrev pub Answerable : Node f → Cloud → Option (PclCloud (PointXyzi f)) → Type 0
  Answerable n msg none = Unit
  Answerable n msg (some cloud_in) =
      Readable f o (resolve f n msg) msg × (length cloud_in.points ≡ msg.width * msg.height)

  abbrev pub AllAnswerable : Node f → List Cloud → Type 0
  AllAnswerable n [] = Unit
  AllAnswerable n (msg ∷ msgs) =
      Answerable n msg (o.from_ros msg) × AllAnswerable (resolve f n msg) msgs

  callback_total :
      (n : Node f) (msg : Cloud)
      → Answerable n msg (o.from_ros msg)
      → (out : List (Published f)) × (point_cloud_callback f o n msg ≡ some (resolve f n msg, out))
  callback_total n msg h = elim (Option-cases (o.from_ros msg)) [
    | inl e ↦ ([], unfold point_cloud_callback answer in rw e refl)
    | inr (cloud_in, e) ↦
        (let (r, size) = rw e at h in
          let (out, (result, pair)) = point_cloud_callback-IsPair f o n msg cloud_in r e size in
          (out ∷ [], result))
  ]

  run_total :
      (n : Node f) (msgs : List Cloud)
      → AllAnswerable n msgs
      → (r : Node f × List (Published f)) × (run f o n msgs ≡ some r)
  unfolding run
  run_total n [] h = ((n, []), refl)
  run_total n (msg ∷ msgs) h =
      let (out, called) = callback_total n msg h.0 in
      let ((last, rest), went_on) = run_total (resolve f n msg) msgs h.1 in
      ((last, out ++ rest), rw (called, went_on) refl)

  -- A run over messages that can be answered stays inside their data and publishes one pair of clouds
  -- for each message that PCL's reader takes, in their order and with their stamps, and none for the
  -- others. The offset of the channel, and the offset and type of the time, are afterwards the first
  -- that were known: those from before the run, or those of the first message that has the field (of
  -- the last message if none has it).
  pub run-IsRun :
      (n : Node f) (msgs : List Cloud)
      → AllAnswerable n msgs
      → (r : Node f × List (Published f)) × ((run f o n msgs ≡ some r) × IsRun n msgs r.0 r.1)
  run-IsRun n msgs h =
      let ((last, outs), result) = run_total n msgs h in
      let (ring, time) = run-layout f o n msgs last outs result in
      (
        (last, outs),
        (
          result,
          record { stamps = run-stamps f o n msgs last outs result; ring = ring; time = time },
        ),
      )
