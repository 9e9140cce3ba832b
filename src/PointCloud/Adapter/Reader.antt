-- ===== src/PointCloud/Adapter/Reader.antt =====
-- What a reader finds in the cloud that pointcloud_xyzirt_to_xyzirc_node.cpp publishes.
use wtbcar_autoware_nav.Prelude.{
  Option, none, if◌then◌else◌, ℕ, ◌+◌, ◌*◌, ◌^◌, ◌≤◌, ◌<◌, ◌≡◌, refl, sym, ap, ◌∙◌, List, [], ◌∷◌,
  ◌++◌, length, some, arith,
}
use wtbcar_autoware_nav.Floats.{Floats}
use wtbcar_autoware_nav.PointCloud.{Cloud, slice}
use wtbcar_autoware_nav.PointCloud.Bytes.{slice-slice}
use wtbcar_autoware_nav.PointCloud.{is_negative}
use wtbcar_autoware_nav.PointCloud.Adapter.{
  make_field, FloatBytes, Datatypes, offsets_of, read_uint16, intensity_to_uint8, on_pointcloud,
  output_fields,
}
use wtbcar_autoware_nav.PointCloud.Adapter.Points.{Fits, IsPoint}
use wtbcar_autoware_nav.PointCloud.Adapter.Place.{
  x-point, y-point, z-point, intensity-point, channel-point,
}
use wtbcar_autoware_nav.PointCloud.Adapter.Fields.{
  At, Lacks, here, later, there-At, gone-Lacks, read_float32-At, read_uint16-At, read_uint16-Lacks,
}
use wtbcar_autoware_nav.PointCloud.Adapter.Intensity.{RoundLaws, AsByte, intensity_to_uint8-AsByte}
use wtbcar_autoware_nav.PointCloud.Adapter.Fields.{apart}
use wtbcar_autoware_nav.PointCloud.Adapter.Output.{HasFields, output, on_pointcloud-points}

module _ (f : Floats) (bytes : FloatBytes f) (types : Datatypes) where
  -- Where the input's points have their channel, if anywhere.
  pub data ChannelAt (input : Cloud) : Option ℕ → Type 0 where
    by_ring : {o : ℕ} → At input "ring" types.uint16 2 o → ChannelAt input (some o)
    by_channel :
        {o : ℕ}
        → Lacks "ring" input.fields
        → At input "channel" types.uint16 2 o
        → ChannelAt input (some o)
    nowhere : Lacks "ring" input.fields → Lacks "channel" input.fields → ChannelAt input none

  abbrev pub channel_bytes : Cloud → Option ℕ → ℕ → Option (List ℕ)
  channel_bytes input none point = some (0 ∷ 0 ∷ [])
  channel_bytes input (some o) point = slice input.payload (point + o) 2

  -- The input has its coordinates and its intensity as numbers of type FLOAT32 at these offsets.
  pub record Placed (input : Cloud) (ox oy oz oi : ℕ) (channel : Option ℕ) : Type 0 where
    pub x_at : At input "x" types.float32 4 ox
    pub y_at : At input "y" types.float32 4 oy
    pub z_at : At input "z" types.float32 4 oz
    pub intensity_at : At input "intensity" types.float32 4 oi
    pub channel_at : ChannelAt input channel

  -- The i-th point of the output has the coordinates and the channel of the input's, and its intensity as
  -- one byte, before the return type 1.
  pub record SamePoint (input out : Cloud) (ox oy oz oi : ℕ) (channel : Option ℕ) (i : ℕ)
      : Type 0 where
    pub same_x :
        slice out.payload (i * 16 + 0) 4 ≡ slice input.payload (i * input.point_step + ox) 4
    pub same_y :
        slice out.payload (i * 16 + 4) 4 ≡ slice input.payload (i * input.point_step + oy) 4
    pub same_z :
        slice out.payload (i * 16 + 8) 4 ≡ slice input.payload (i * input.point_step + oz) 4
    pub same_channel :
        slice out.payload (i * 16 + 14) 2 ≡ channel_bytes input channel (i * input.point_step)
    pub intensity : List ℕ
    pub as_byte : ℕ
    pub read : slice input.payload (i * input.point_step + oi) 4 ≡ some intensity
    pub written : slice out.payload (i * 16 + 12) 2 ≡ some (as_byte ∷ 1 ∷ [])
    pub converted : AsByte f bytes (bytes.of_bytes intensity) as_byte

  -- A cloud of the same size, with the fields of PointXYZIRC and no others before them, in points of
  -- sixteen bytes.
  pub record IsXyzirc (input out : Cloud) : Type 0 where
    pub same_width : out.width ≡ input.width
    pub same_height : out.height ≡ input.height
    pub step : out.point_step ≡ 16
    pub full : length out.payload ≡ 16 * (input.width * input.height)
    pub x_at : At out "x" types.float32 4 0
    pub y_at : At out "y" types.float32 4 4
    pub z_at : At out "z" types.float32 4 8
    pub intensity_at : At out "intensity" types.uint8 1 12
    pub return_type_at : At out "return_type" types.uint8 1 13
    pub channel_at : At out "channel" types.uint16 2 14

  has_fields :
      (input : Cloud) (ox oy oz oi : ℕ) (channel : Option ℕ)
      → Placed input ox oy oz oi channel
      → HasFields (offsets_of input)
  unfolding offsets_of
  has_fields input ox oy oz oi channel h = record {
    x_there = there-At input "x" types.float32 4 ox h.x_at;
    y_there = there-At input "y" types.float32 4 oy h.y_at;
    z_there = there-At input "z" types.float32 4 oz h.z_at;
    intensity_there = there-At input "intensity" types.float32 4 oi h.intensity_at;
  }

  channel_read :
      (input : Cloud) (channel : Option ℕ) (point : ℕ)
      → ChannelAt input channel
      → let o = offsets_of input in
        read_uint16 input point
          (if is_negative o.ring_offset then o.channel_offset else o.ring_offset)
        ≡ channel_bytes input channel point
  unfolding offsets_of
  channel_read input (some o) point (by_ring at) =
      rw (there-At input "ring" types.uint16 2 o at)
        (read_uint16-At input "ring" types.uint16 o point at)
  channel_read input (some o) point (by_channel lacks at) =
      rw (gone-Lacks input "ring" lacks) (read_uint16-At input "channel" types.uint16 o point at)
  channel_read input none point (nowhere lacks none_either) =
      rw (gone-Lacks input "ring" lacks) (read_uint16-Lacks input "channel" point none_either)

module _ (f : Floats) (bytes : FloatBytes f) (types : Datatypes) (now : ℕ) where
  output-IsXyzirc :
      (input : Cloud) (payload : List ℕ)
      → length payload ≡ 16 * (input.width * input.height)
      → IsXyzirc f bytes types input (output f bytes types now input payload)
  unfolding output_fields
  output-IsXyzirc input payload h = record {
    same_width = refl;
    same_height = refl;
    step = refl;
    full = h;
    x_at = record {
      field = make_field "x" 0 types.float32;
      first = here refl;
      typed = refl;
      placed = refl;
      inside = omega arith;
      small = omega arith;
    };
    y_at = record {
      field = make_field "y" 4 types.float32;
      first = later (apart "x" "y" refl) (here refl);
      typed = refl;
      placed = refl;
      inside = omega arith;
      small = omega arith;
    };
    z_at = record {
      field = make_field "z" 8 types.float32;
      first = later (apart "x" "z" refl) (later (apart "y" "z" refl) (here refl));
      typed = refl;
      placed = refl;
      inside = omega arith;
      small = omega arith;
    };
    intensity_at = record {
      field = make_field "intensity" 12 types.uint8;
      first =
          later (apart "x" "intensity" refl)
            (later (apart "y" "intensity" refl) (later (apart "z" "intensity" refl) (here refl)));
      typed = refl;
      placed = refl;
      inside = omega arith;
      small = omega arith;
    };
    return_type_at = record {
      field = make_field "return_type" 13 types.uint8;
      first = later (apart "x" "return_type" refl) (
          later (apart "y" "return_type" refl) (
            later (apart "z" "return_type" refl)
              (later (apart "intensity" "return_type" refl) (here refl))));
      typed = refl;
      placed = refl;
      inside = omega arith;
      small = omega arith;
    };
    channel_at = record {
      field = make_field "channel" 14 types.uint16;
      first = later (apart "x" "channel" refl) (
          later (apart "y" "channel" refl) (
            later (apart "z" "channel" refl) (
              later (apart "intensity" "channel" refl)
                (later (apart "return_type" "channel" refl) (here refl)))));
      typed = refl;
      placed = refl;
      inside = omega arith;
      small = omega arith;
    };
  }

  point-SamePoint :
      (laws : RoundLaws f bytes) (input : Cloud) (payload : List ℕ) (ox oy oz oi : ℕ)
      (channel : Option ℕ) (i : ℕ) (p : List ℕ)
      → Placed f bytes types input ox oy oz oi channel
      → IsPoint f bytes input (offsets_of input) i p
      → slice payload (i * 16) 16 ≡ some p
      → SamePoint f bytes types input (output f bytes types now input payload) ox oy oz oi channel i
  unfolding offsets_of
  point-SamePoint laws input payload ox oy oz oi channel i p h q part = record {
    same_x =
        at_offset 0 4 (omega arith)
        ∙ x-point q.x q.y q.z q.channel v q.length_x q.length_y q.length_z q.length_channel
        ∙ sym q.reads_x
        ∙ read_float32-At input "x" types.float32 ox (i * input.point_step) h.x_at;
    same_y =
        at_offset 4 4 (omega arith)
        ∙ y-point q.x q.y q.z q.channel v q.length_x q.length_y q.length_z q.length_channel
        ∙ sym q.reads_y
        ∙ read_float32-At input "y" types.float32 oy (i * input.point_step) h.y_at;
    same_z =
        at_offset 8 4 (omega arith)
        ∙ z-point q.x q.y q.z q.channel v q.length_x q.length_y q.length_z q.length_channel
        ∙ sym q.reads_z
        ∙ read_float32-At input "z" types.float32 oz (i * input.point_step) h.z_at;
    same_channel =
        at_offset 14 2 (omega arith)
        ∙ channel-point q.x q.y q.z q.channel v q.length_x q.length_y q.length_z q.length_channel
        ∙ sym q.reads_channel
        ∙ channel_read f bytes types input channel (i * input.point_step) h.channel_at;
    intensity = q.intensity;
    as_byte = v;
    read =
        sym
          (read_float32-At input "intensity" types.float32 oi (i * input.point_step) h.intensity_at)
        ∙ q.reads_intensity;
    written =
        at_offset 12 2 (omega arith)
        ∙ intensity-point q.x q.y q.z q.channel v q.length_x q.length_y q.length_z q.length_channel;
    converted = intensity_to_uint8-AsByte f bytes laws (bytes.of_bytes q.intensity);
  }
    where
      v : ℕ
      v = intensity_to_uint8 f bytes (bytes.of_bytes q.intensity)

      at_offset :
          (k n : ℕ)
          → k + n ≤ 16
          → slice payload (i * 16 + k) n ≡ slice (q.x ++ (q.y ++ (q.z ++ (v ∷ 1 ∷ q.channel)))) k n
      at_offset k n g = slice-slice payload (i * 16) 16 k n part g ∙ ap (λ l. slice l k n) q.layout

  -- A cloud whose coordinates and intensity are numbers of type FLOAT32, whose channel, if it has one, is
  -- of type UINT16 in the field ring or else channel, whose points lie in its data, and whose rows take
  -- less than 4 GiB, is published as one cloud of the same size, with the fields of PointXYZIRC in points
  -- of sixteen bytes. Every point has the coordinates and the channel of the input's, the channel 0 if
  -- the input has none, and its intensity as one byte: 0 if it is no number or below 0, 255 above 255,
  -- and rounded in between; and then the return type 1. `std::lround` must keep to the range of its
  -- argument.
  pub on_pointcloud-view :
      (laws : RoundLaws f bytes) (input : Cloud) (ox oy oz oi : ℕ) (channel : Option ℕ)
      → Placed f bytes types input ox oy oz oi channel
      → Fits input
      → 16 * input.width < 2 ^ 32
      → (out : Cloud) × ((on_pointcloud f bytes types now input ≡ some (out ∷ []))
          × (IsXyzirc f bytes types input out
              × ((i : ℕ)
                  → i < input.width * input.height
                  → SamePoint f bytes types input out ox oy oz oi channel i)))
  on_pointcloud-view laws input ox oy oz oi channel h fits small =
      let (payload, (published, (full, points))) =
        on_pointcloud-points f bytes types now input
          (has_fields f bytes types input ox oy oz oi channel h) fits small in
      (
        output f bytes types now input payload,
        (
          published,
          (
            output-IsXyzirc input payload full,
            λ i inside.
                let (p, (is_point, part)) = points i inside in
                point-SamePoint laws input payload ox oy oz oi channel i p h is_point part,
          ),
        ),
      )
