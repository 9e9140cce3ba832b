-- ===== src/PointCloud/Adapter/Intensity.antt =====
-- intensity_to_uint8 of pointcloud_xyzirt_to_xyzirc_node.cpp: the byte for an intensity.
use wtbcar_autoware_nav.Prelude.{
  ℕ, ◌<◌, ◌≡◌, refl, sym, subst, true, false, Bool-cases, inl, inr, arith,
}
use wtbcar_autoware_nav.Prelude.Int.{pos}
use wtbcar_autoware_nav.Floats.{Floats}
use wtbcar_autoware_nav.PointCloud.Adapter.{FloatBytes, clamp32, to_uint8, intensity_to_uint8}

module _ (f : Floats) (bytes : FloatBytes f) where
  -- What `std::lround` gives for the bounds and for a number between them.
  pub record RoundLaws : Type 0 where
    pub low : bytes.lround (f.literal32 0 0) ≡ pos 0
    pub high : bytes.lround (f.literal32 255 0) ≡ pos 255
    pub between :
        (v : f.F32)
        → bytes.is_finite v ≡ true
        → f.lt32 v (f.literal32 0 0) ≡ false
        → f.lt32 (f.literal32 255 0) v ≡ false
        → (m : ℕ) × ((bytes.lround v ≡ pos m) × (m < 256))

  -- An intensity as one byte: 0 if it is no number or below 0, 255 above 255, and else rounded.
  pub data AsByte (v : f.F32) : ℕ → Type 0 where
    not_finite : bytes.is_finite v ≡ false → AsByte v 0
    below : bytes.is_finite v ≡ true → f.lt32 v (f.literal32 0 0) ≡ true → AsByte v 0
    above :
        bytes.is_finite v ≡ true
        → f.lt32 v (f.literal32 0 0) ≡ false
        → f.lt32 (f.literal32 255 0) v ≡ true
        → AsByte v 255
    rounded :
        {m : ℕ}
        → bytes.is_finite v ≡ true
        → f.lt32 v (f.literal32 0 0) ≡ false
        → f.lt32 (f.literal32 255 0) v ≡ false
        → bytes.lround v ≡ pos m
        → m < 256
        → AsByte v m

  pub intensity_to_uint8-AsByte : RoundLaws → (v : f.F32) → AsByte v (intensity_to_uint8 f bytes v)
  unfolding intensity_to_uint8 clamp32 to_uint8
  intensity_to_uint8-AsByte laws v = elim (Bool-cases (bytes.is_finite v)) [
    | inr e ↦ subst (AsByte v) (sym (rw e refl)) (not_finite e)
    | inl e ↦ elim (Bool-cases (f.lt32 v (f.literal32 0 0))) [
      | inl l ↦ subst (AsByte v) (sym (rw (e, l, laws.low) refl)) (below e l)
      | inr l ↦ elim (Bool-cases (f.lt32 (f.literal32 255 0) v)) [
        | inl g ↦ subst (AsByte v) (sym (rw (e, l, g, laws.high) refl)) (above e l g)
        | inr g ↦
            (let (m, (round, small)) = laws.between v e l g in
              subst (AsByte v) (sym (rw (e, l, g, round) (omega (arith, small))))
                (rounded e l g round small))
      ]
    ]
  ]
