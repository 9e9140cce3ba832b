-- ===== src/PointCloud/Transformer/Fields.antt =====
-- The fields of a point that point_cloud_transformer.cpp reads itself: its ring and its time.
use wtbcar_autoware_nav.Prelude.{
  ◌>>=◌, ℕ, ◌+◌, ◌≤◌, ◌≡◌, refl, true, false, Bool, if◌then◌else◌, List, length, replicate, some,
  arith,
}
use wtbcar_autoware_nav.Prelude.Int.{ℤ, pos, negsuc}
use wtbcar_autoware_nav.Floats.{Floats}
use wtbcar_autoware_nav.PointCloud.{Cloud, slice}
use wtbcar_autoware_nav.PointCloud.Bytes.{slice_lem}
use wtbcar_autoware_nav.PointCloud.Transformer.{
  Outside, TimeTypes, read_uint16, is_datatype, abs_time, point_time,
}

-- The field at this offset, of so many bytes, lies in a point, or is not there at all.
abbrev pub Inside : ℤ → ℕ → ℕ → Type 0
Inside (negsuc k) size step = Unit
Inside (pos offset) size step = offset + size ≤ step

-- The bytes of a time of this type.
abbrev pub time_size : TimeTypes → ℤ → ℕ
time_size types datatype = if is_datatype datatype types.float64 then 8 else 4

pub read_uint16_lem :
    (raw_data : List ℕ) (point step : ℕ) (offset : ℤ)
    → Inside offset 2 step
    → point + step ≤ length raw_data
    → (ring : List ℕ) × (read_uint16 raw_data point offset ≡ some ring)
unfolding read_uint16
read_uint16_lem raw_data point step (negsuc k) inside h = (replicate 2 0, refl)
read_uint16_lem raw_data point step (pos offset) inside h =
    let (ring, (found, size)) = slice_lem raw_data (point + offset) 2 (omega arith) in (ring, found)

module _ (f : Floats) (o : Outside f) where
  read_lem :
      (raw_data : List ℕ) (at size : ℕ) (g : List ℕ → f.F64)
      → at + size ≤ length raw_data
      → (t : f.F64) × ((slice raw_data at size >>= λ b. some (g b)) ≡ some t)
  read_lem raw_data at size g h =
      let (part, (found, n)) = slice_lem raw_data at size h in (g part, rw found refl)

  -- One of three reads, or zero.
  one_read :
      (float64 float32 uint32 : Bool) (raw_data : List ℕ) (at : ℕ) (g64 g32 gu : List ℕ → f.F64)
      → at + (if float64 then 8 else 4) ≤ length raw_data
      → (t : f.F64) × ((if float64
            then (slice raw_data at 8 >>= λ b. some (g64 b))
            else if float32
            then (slice raw_data at 4 >>= λ b. some (g32 b))
            else if uint32
            then (slice raw_data at 4 >>= λ b. some (gu b))
            else some (f.literal 0 0))
          ≡ some t)
  one_read true b32 bu raw_data at g64 g32 gu h = read_lem raw_data at 8 g64 h
  one_read false true bu raw_data at g64 g32 gu h = read_lem raw_data at 4 g32 h
  one_read false false true raw_data at g64 g32 gu h = read_lem raw_data at 4 gu h
  one_read false false false raw_data at g64 g32 gu h = (f.literal 0 0, refl)

  abs_time_lem :
      (datatype : ℤ) (raw_data : List ℕ) (at : ℕ)
      → at + time_size o.types datatype ≤ length raw_data
      → (t : f.F64) × (abs_time f o datatype raw_data at ≡ some t)
  unfolding abs_time
  abs_time_lem datatype raw_data at h =
      one_read (is_datatype datatype o.types.float64) (is_datatype datatype o.types.float32)
        (is_datatype datatype o.types.uint32) raw_data at o.float64_of
        (λ b. f.widen (o.float32_of b))
        (λ b. f.mul (f.of_int (pos (o.uint32_of b))) (f.literal 1 9)) h

  pub point_time_lem :
      (offset datatype : ℤ) (msg : Cloud) (point : ℕ)
      → Inside offset (time_size o.types datatype) msg.point_step
      → point + msg.point_step ≤ length msg.payload
      → (t : f.F32) × (point_time f o offset datatype msg point ≡ some t)
  unfolding point_time
  point_time_lem (negsuc k) datatype msg point inside h = (f.literal32 0 0, refl)
  point_time_lem (pos offset) datatype msg point inside h =
      let (t, read) = abs_time_lem datatype msg.payload (point + offset) (omega arith) in
      (f.narrow (f.sub t (f.seconds (pos msg.stamp))), rw read refl)
