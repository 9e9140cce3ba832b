-- ===== src/Ahrs/Driver/Loss.antt =====
-- The count of lost frames of ahrs_driver.cpp.
use wtbcar_autoware_nav.Prelude.{ℕ, ◌+◌, ◌-◌, ◌%◌, ◌<◌, ◌≡◌, refl, List, [], ◌∷◌, arith}
use wtbcar_autoware_nav.Ahrs.Frame.{Driver, check_sn}

-- What `checkSN` adds: the distance from the number that was due, modulo 256.
sn_lost-check_sn :
    (d : Driver) (serial_num : ℕ)
    → serial_num < 256
    → (check_sn d serial_num).sn_lost ≡ d.sn_lost + (serial_num + 256 - (d.read_sn + 1) % 256) % 256
unfolding check_sn
sn_lost-check_sn d serial_num h = ground arith

-- A sensor's frames, with the number of frames that are lost before each: their serial numbers.
abbrev pub serials : ℕ → List ℕ → List ℕ
serials last [] = []
serials last (gap ∷ gaps) = (last + gap + 1) % 256 ∷ serials (last + gap + 1) gaps

abbrev pub sum : List ℕ → ℕ
sum [] = 0
sum (gap ∷ gaps) = gap + sum gaps

abbrev pub AllBelow : ℕ → List ℕ → Type 0
AllBelow n [] = Unit
AllBelow n (gap ∷ gaps) = (gap < n) × AllBelow n gaps

abbrev pub check_all : Driver → List ℕ → Driver
check_all d [] = d
check_all d (sn ∷ sns) = check_all (check_sn d sn) sns

read_sn-check_sn : (d : Driver) (serial_num : ℕ) → (check_sn d serial_num).read_sn ≡ serial_num
unfolding check_sn
read_sn-check_sn d serial_num = refl

-- Over any sequence of counted frames, `sn_lost` grows by the number of frames lost between them, as
-- long as fewer than 256 are lost at a time. The serial numbers are those of a sensor that counts
-- modulo 256, and the first follows the last one that was read.
pub check_sn_lem :
    (d : Driver) (last : ℕ) (gaps : List ℕ)
    → d.read_sn ≡ last % 256
    → AllBelow 256 gaps
    → (check_all d (serials last gaps)).sn_lost ≡ d.sn_lost + sum gaps
check_sn_lem d last [] h below = omega arith
check_sn_lem d last (gap ∷ gaps) h below =
    let sn = (last + gap + 1) % 256 in
    omega (
      arith,
      below.0,
      sn_lost-check_sn d sn (omega arith),
      check_sn_lem (check_sn d sn) (last + gap + 1) gaps (read_sn-check_sn d sn) below.1,
    )
