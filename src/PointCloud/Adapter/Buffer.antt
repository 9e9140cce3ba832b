-- ===== src/PointCloud/Adapter/Buffer.antt =====
-- The output buffer of pointcloud_xyzirt_to_xyzirc_node.cpp: what a write changes, and what the loop over
-- the points leaves in it.
use wtbcar_autoware_nav.Prelude.{
  length-take, length-drop, ℕ, zero, suc, ◌+◌, ◌*◌, ◌≤◌, ◌<◌, ◌≡◌, refl, sym, ap, ◌∙◌, true, leb,
  subst, ltb, ◌⊎◌, Bool-cases, inl, inr, List, ◌++◌, take, drop, length, length-append, some, arith,
}
use native.Mathlib.Nat.{mul-le-mul_right}
use wtbcar_autoware_nav.Floats.{Floats}
use wtbcar_autoware_nav.PointCloud.{Cloud, slice}
use wtbcar_autoware_nav.PointCloud.Bytes.{slice-append, slice-part, slice-take}
use wtbcar_autoware_nav.PointCloud.Adapter.{
  FloatBytes, Offsets, write_at, convert_point, convert_points,
}
use wtbcar_autoware_nav.PointCloud.Adapter.Points.{Fits, Holds, convert_point_lem, length-IsPoint}

-- A write in a buffer.
record IsWrite (buffer : List ℕ) (offset : ℕ) (bytes after : List ℕ) : Type 0 where
  written : write_at buffer offset bytes ≡ some after
  same_length : length after ≡ length buffer
  reads_back : slice after offset (length bytes) ≡ some bytes
  before : (o n : ℕ) → o + n ≤ offset → slice after o n ≡ slice buffer o n

write_at_lem :
    (buffer : List ℕ) (offset : ℕ) (bytes : List ℕ)
    → offset + length bytes ≤ length buffer
    → IsWrite buffer offset bytes
        (take offset buffer ++ (bytes ++ drop (offset + length bytes) buffer))
write_at_lem buffer offset bytes h = record {
  written = unfold write_at in rw test;
  same_length = omega (
    arith,
    length-append (take offset buffer) (bytes ++ rest),
    length-append bytes rest,
    size,
    length-drop (offset + length bytes) buffer,
  );
  reads_back =
      ap (λ (k : ℕ). slice (take offset buffer ++ (bytes ++ rest)) k (length bytes)) (omega arith)
      ∙ (slice-append (take offset buffer) (bytes ++ rest) offset 0 (length bytes) size
          ∙ slice-part bytes rest (length bytes) refl);
  before = λ o n g. slice-take buffer (bytes ++ rest) o n offset g (omega arith);
}
  where
    rest : List ℕ
    rest = drop (offset + length bytes) buffer

    size : length (take offset buffer) ≡ offset
    size = length-take offset buffer (omega arith)

    test : leb (offset + length bytes) (length buffer) ≡ true
    test = ground arith

le_cases : (i j : ℕ) → i ≤ j → (suc i ≤ j) ⊎ (i ≡ j)
le_cases i j h = elim (Bool-cases (ltb i j)) [
  | inl e ↦ inl (ground arith)
  | inr e ↦ inr (ground arith)
]

module _ (f : Floats) (bytes : FloatBytes f) (input : Cloud) (o : Offsets) where
  -- What the loop leaves: every point of its range in its place, and what stood before as it was.
  pub record Filled (left i : ℕ) (out after : List ℕ) : Type 0 where
    pub result : convert_points f bytes input o left i out ≡ some after
    pub same_length : length after ≡ length out
    pub point_at :
        (j : ℕ) → i ≤ j → j < i + left → slice after (j * 16) 16 ≡ convert_point f bytes input o j
    pub kept : (j n : ℕ) → j + n ≤ i * 16 → slice after j n ≡ slice out j n

  -- All points are in the data.
  abbrev pub AllHold : ℕ → Type 0
  AllHold count = (i : ℕ) → i < count → Holds input (i * input.point_step)

  pub convert_points-Filled :
      (left i count : ℕ) (out : List ℕ)
      → AllHold count
      → i + left ≤ count
      → (i + left) * 16 ≤ length out
      → (after : List ℕ) × Filled left i out after
  unfolding convert_points
  convert_points-Filled zero i count out holds within room = (
    out,
    record {
      result = refl;
      same_length = refl;
      point_at = λ j lo hi. absurd (omega arith);
      kept = λ j n g. refl;
    },
  )
  convert_points-Filled (suc left) i count out holds within room =
      let (p, (converted, is_point)) =
        convert_point_lem f bytes input o i (holds i (omega arith)) in
      let size = length-IsPoint f bytes input o i p is_point in
      let w = write_at_lem out (i * 16) p (omega arith) in
      let (after, rest) =
        convert_points-Filled left (suc i) count
          (take (i * 16) out ++ (p ++ drop (i * 16 + length p) out)) holds (omega arith)
          (omega (arith, w.same_length)) in
      (
        after,
        record {
          result = rw (converted, w.written) rest.result;
          same_length = rest.same_length ∙ w.same_length;
          point_at = λ j lo hi. elim (le_cases i j lo) [
            | inl e ↦ rest.point_at j e (omega arith)
            | inr e ↦
                subst (λ k. slice after (k * 16) 16 ≡ convert_point f bytes input o k) e
                  (rest.kept (i * 16) 16 (omega arith)
                    ∙ (ap
                          (slice (take (i * 16) out ++ (p ++ drop (i * 16 + length p) out))
                            (i * 16))
                          (sym size)
                        ∙ (w.reads_back ∙ sym converted)))
          ];
          kept = λ j n g. rest.kept j n (omega arith) ∙ w.before j n g;
        },
      )

  -- The data of the header's points are in the data.
  pub Fits-AllHold : Fits input → AllHold (input.width * input.height)
  Fits-AllHold fits i h = omega (arith, fits.enough, mul-le-mul_right input.point_step h)
