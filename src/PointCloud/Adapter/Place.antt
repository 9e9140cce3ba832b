-- ===== src/PointCloud/Adapter/Place.antt =====
-- The point of sixteen bytes that pointcloud_xyzirt_to_xyzirc_node.cpp writes, read part by part.
use wtbcar_autoware_nav.Prelude.{
  append-nil, ℕ, ◌≡◌, refl, sym, ap, ◌∙◌, List, [], ◌∷◌, ◌++◌, length, some,
}
use wtbcar_autoware_nav.PointCloud.{slice}
use wtbcar_autoware_nav.PointCloud.Bytes.{slice-part, slice-append}

-- Where the values of a point of sixteen bytes lie.
module _ (x y z channel : List ℕ) (intensity : ℕ) (size_x : length x ≡ 4) (size_y : length y ≡ 4)
    (size_z : length z ≡ 4) (size_channel : length channel ≡ 2) where
  abbrev point : List ℕ
  point = x ++ (y ++ (z ++ (intensity ∷ 1 ∷ channel)))

  pub x-point : slice point 0 4 ≡ some x
  x-point = slice-part x (y ++ (z ++ (intensity ∷ 1 ∷ channel))) 4 size_x

  pub y-point : slice point 4 4 ≡ some y
  y-point =
      slice-append x (y ++ (z ++ (intensity ∷ 1 ∷ channel))) 4 0 4 size_x
      ∙ slice-part y (z ++ (intensity ∷ 1 ∷ channel)) 4 size_y

  pub z-point : slice point 8 4 ≡ some z
  z-point =
      slice-append x (y ++ (z ++ (intensity ∷ 1 ∷ channel))) 4 4 4 size_x
      ∙ (slice-append y (z ++ (intensity ∷ 1 ∷ channel)) 4 0 4 size_y
          ∙ slice-part z (intensity ∷ 1 ∷ channel) 4 size_z)

  pub intensity-point : slice point 12 2 ≡ some (intensity ∷ 1 ∷ [])
  intensity-point =
      slice-append x (y ++ (z ++ (intensity ∷ 1 ∷ channel))) 4 8 2 size_x
      ∙ (slice-append y (z ++ (intensity ∷ 1 ∷ channel)) 4 4 2 size_y
          ∙ (slice-append z (intensity ∷ 1 ∷ channel) 4 0 2 size_z
              ∙ slice-part (intensity ∷ 1 ∷ []) channel 2 refl))

  pub channel-point : slice point 14 2 ≡ some channel
  channel-point =
      slice-append x (y ++ (z ++ (intensity ∷ 1 ∷ channel))) 4 10 2 size_x
      ∙ (slice-append y (z ++ (intensity ∷ 1 ∷ channel)) 4 6 2 size_y
          ∙ (slice-append z (intensity ∷ 1 ∷ channel) 4 2 2 size_z
              ∙ (slice-append (intensity ∷ 1 ∷ []) channel 2 0 2 refl
                  ∙ (ap (λ l. slice l 0 2) (sym (append-nil channel))
                      ∙ slice-part channel [] 2 size_channel))))
