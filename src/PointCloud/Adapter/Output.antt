-- ===== src/PointCloud/Adapter/Output.antt =====
-- What a reader finds in the cloud that pointcloud_xyzirt_to_xyzirc_node.cpp publishes.
use wtbcar_autoware_nav.Prelude.{
  length-replicate, ◌↔◌, Bool, ℕ, ◌*◌, ◌%◌, ◌^◌, ◌<◌, ◌≡◌, refl, ap, ◌∙◌, true, false, List, [],
  ◌∷◌, length, replicate, ◌||◌, some, arith,
}
use wtbcar_autoware_nav.Floats.{Floats}
use wtbcar_autoware_nav.PointCloud.{Cloud, slice}
use wtbcar_autoware_nav.PointCloud.{is_negative}
use wtbcar_autoware_nav.PointCloud.Adapter.{
  FloatBytes, Datatypes, Offsets, offsets_of, convert_points, on_pointcloud, output_fields,
}
use wtbcar_autoware_nav.PointCloud.Adapter.Points.{Fits, IsPoint, convert_point_lem}
use wtbcar_autoware_nav.PointCloud.Adapter.Buffer.{convert_points-Filled, Fits-AllHold}
use wtbcar_autoware_nav.PointCloud.Adapter.Fields.{Named, there-Named}

-- The fields without which the node publishes nothing.
pub record HasFields (o : Offsets) : Type 0 where
  pub x_there : is_negative o.x_offset ≡ false
  pub y_there : is_negative o.y_offset ≡ false
  pub z_there : is_negative o.z_offset ≡ false
  pub intensity_there : is_negative o.intensity_offset ≡ false

one_true :
    (a b c d : Bool)
    → ((a ≡ false) → (b ≡ false) → (c ≡ false) → ¬ (d ≡ false))
    → (a || (b || (c || d))) ≡ true
one_true true b c d h = refl
one_true false true c d h = refl
one_true false false true d h = refl
one_true false false false true h = refl
one_true false false false false h = absurd (h refl refl refl refl)

module _ (f : Floats) (bytes : FloatBytes f) (types : Datatypes) (now : ℕ) where
  -- The published cloud, around its data.
  abbrev pub output : Cloud → List ℕ → Cloud
  output input payload = record {
    stamp = now;
    frame_id = "base_link";
    height = input.height;
    width = input.width;
    fields = output_fields types;
    is_bigendian = input.is_bigendian;
    point_step = 16;
    row_step = 16 * input.width % 2 ^ 32;
    payload = payload;
    is_dense = input.is_dense;
  }

  -- A cloud with its fields is published as one cloud of converted points.
  pub on_pointcloud-points :
      (input : Cloud)
      → HasFields (offsets_of input)
      → Fits input
      → 16 * input.width < 2 ^ 32
      → (payload : List ℕ) × ((on_pointcloud f bytes types now input
            ≡ some (output input payload ∷ []))
          × ((length payload ≡ 16 * (input.width * input.height))
              × ((i : ℕ)
                  → i < input.width * input.height
                  → (p : List ℕ) × (IsPoint f bytes input (offsets_of input) i p
                      × (slice payload (i * 16) 16 ≡ some p)))))
  on_pointcloud-points input has fits small =
      let (payload, filled) =
        convert_points-Filled f bytes input (offsets_of input) count 0 count zeros
          (Fits-AllHold f bytes input (offsets_of input) fits) (omega arith)
          (omega (arith, size)) in
      (
        payload,
        (
          published payload filled.result,
          (
            filled.same_length ∙ size,
            λ i h.
                let (p, (converted, is_point)) =
                  convert_point_lem f bytes input (offsets_of input) i
                    (Fits-AllHold f bytes input (offsets_of input) fits i h) in
                (p, (is_point, filled.point_at i (omega arith) (omega arith) ∙ converted)),
          ),
        ),
      )
    where
      count : ℕ
      count = input.width * input.height

      zeros : List ℕ
      zeros = replicate (input.height * (16 * input.width % 2 ^ 32)) 0

      size : length zeros ≡ 16 * count
      size =
          length-replicate (input.height * (16 * input.width % 2 ^ 32)) 0
          ∙ (ap (λ (k : ℕ). input.height * k) {x = 16 * input.width % 2 ^ 32} {y = 16 * input.width}
                (omega arith)
              ∙ grind arith)

      published :
          (payload : List ℕ)
          → convert_points f bytes input (offsets_of input) count 0 zeros ≡ some payload
          → on_pointcloud f bytes types now input ≡ some (output input payload ∷ [])
      published payload result =
          unfold on_pointcloud in
          rw (has.x_there, has.y_there, has.z_there, has.intensity_there, result) refl

  -- With its points in the data and a row of less than 4 GiB, a cloud is skipped, and nothing is
  -- published, exactly when for one of the names x, y, z and intensity no field has that name first with
  -- an offset that an `int` holds.
  pub on_pointcloud-skips :
      (input : Cloud)
      → Fits input
      → 16 * input.width < 2 ^ 32
      → (on_pointcloud f bytes types now input ≡ some [])
        ↔ (¬ (Named input "x" × Named input "y" × Named input "z" × Named input "intensity"))
  unfolding offsets_of
  on_pointcloud-skips input fits small = (
    λ skipped (x, y, z, v).
        let (payload, (published, rest)) =
          on_pointcloud-points input
            (record {
              x_there = (there-Named input "x").1 x;
              y_there = (there-Named input "y").1 y;
              z_there = (there-Named input "z").1 z;
              intensity_there = (there-Named input "intensity").1 v;
            })
            fits small in
        cc,
    λ lacks.
        unfold on_pointcloud in
        rw
          (missing (λ has. lacks (
            (there-Named input "x").0 has.x_there,
            (there-Named input "y").0 has.y_there,
            (there-Named input "z").0 has.z_there,
            (there-Named input "intensity").0 has.intensity_there,
          )))
          refl,
  )
    where
      o : Offsets
      o = offsets_of input

      missing :
          ¬ HasFields o
          → (is_negative o.x_offset
              || (is_negative o.y_offset
                  || (is_negative o.z_offset || is_negative o.intensity_offset)))
            ≡ true
      missing lacks =
          one_true (is_negative o.x_offset) (is_negative o.y_offset) (is_negative o.z_offset)
            (is_negative o.intensity_offset)
            (λ x y z v.
              lacks (record { x_there = x; y_there = y; z_there = z; intensity_there = v }))
