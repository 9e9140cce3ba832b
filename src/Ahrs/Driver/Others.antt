-- ===== src/Ahrs/Driver/Others.antt =====
-- The frame buffers of the other kinds, through one pass of ahrs_driver.cpp.
use wtbcar_autoware_nav.Prelude.{
  ℕ, ◌≡◌, ◌≢◌, refl, ap, ◌∙◌, Bool, true, false, if_cases, ◌==◌, List, [], ◌∷◌, ◌++◌,
}
use wtbcar_autoware_nav.Ahrs.Crc.{crc8_table}
use wtbcar_autoware_nav.Ahrs.Frame.{
  Kind, imu, ahrs, insgps, geodetic_pos, Header, FrameBuffer, Driver, frame_of, with_frame,
  first_serial, header_bytes, check_header,
}
use wtbcar_autoware_nav.Ahrs.Driver.{Serial, read_data, after_header, process}
use wtbcar_autoware_nav.Ahrs.Driver.Checked.{frame_of-check_sn}
use wtbcar_autoware_nav.Ahrs.Driver.Data.{Delivers}
use wtbcar_autoware_nav.Ahrs.Driver.Framing.{encode, with_header, process-after_header}

with_frame-other :
    (k kind : Kind) (frame : FrameBuffer) (d : Driver)
    → k ≢ kind
    → frame_of k (with_frame kind frame d) ≡ frame_of k d
unfolding frame_of with_frame
with_frame-other imu imu frame d h = absurd (h refl)
with_frame-other imu ahrs frame d h = refl
with_frame-other imu insgps frame d h = refl
with_frame-other imu geodetic_pos frame d h = refl
with_frame-other ahrs imu frame d h = refl
with_frame-other ahrs ahrs frame d h = absurd (h refl)
with_frame-other ahrs insgps frame d h = refl
with_frame-other ahrs geodetic_pos frame d h = refl
with_frame-other insgps imu frame d h = refl
with_frame-other insgps ahrs frame d h = refl
with_frame-other insgps insgps frame d h = absurd (h refl)
with_frame-other insgps geodetic_pos frame d h = refl
with_frame-other geodetic_pos imu frame d h = refl
with_frame-other geodetic_pos ahrs frame d h = refl
with_frame-other geodetic_pos insgps frame d h = refl
with_frame-other geodetic_pos geodetic_pos frame d h = absurd (h refl)

counted-same :
    (k : Kind) (d : Driver) (n : ℕ)
    → frame_of k (record d { read_sn = n; frist_sn = true }) ≡ frame_of k d
unfolding frame_of
counted-same imu d n = refl
counted-same ahrs d n = refl
counted-same insgps d n = refl
counted-same geodetic_pos d n = refl

first_serial-other :
    (k kind : Kind) (d : Driver) (sn : ℕ) → frame_of k (first_serial kind d sn) ≡ frame_of k d
unfolding first_serial
first_serial-other k insgps d sn = refl
first_serial-other k imu d sn =
    if_cases (λ r. frame_of k r ≡ frame_of k d) d.frist_sn (λ e. refl) (λ e. counted-same k d _)
first_serial-other k ahrs d sn =
    if_cases (λ r. frame_of k r ≡ frame_of k d) d.frist_sn (λ e. refl) (λ e. counted-same k d _)
first_serial-other k geodetic_pos d sn =
    if_cases (λ r. frame_of k r ≡ frame_of k d) d.frist_sn (λ e. refl) (λ e. counted-same k d _)

check_header-other :
    (k kind : Kind) (d : Driver) (header : Header)
    → k ≢ kind
    → frame_of k (check_header kind d header).0 ≡ frame_of k d
unfolding check_header
check_header-other k kind d header h =
    if_cases (λ (r : Driver × Bool). frame_of k r.0 ≡ frame_of k d)
      (crc8_table (header_bytes header) 4 == header.header_crc8)
      (λ e.
        frame_of-check_sn k (first_serial kind stored header.serial_num) header.serial_num
        ∙ first_serial-other k kind stored header.serial_num
        ∙ with_frame-other k kind _ d h)
      (λ e. with_frame-other k kind _ d h)
  where
    stored : Driver
    stored = with_frame kind (record (frame_of kind d) { header = header }) d

module _ (serial : Serial) (delivers : Delivers serial) where
  after_header-other :
      (k kind : Kind) (r : Driver × Bool) (s : serial.Line)
      → k ≢ kind
      → frame_of k (after_header serial kind r s).0.0 ≡ frame_of k r.0
  unfolding after_header read_data
  after_header-other k kind (d, true) s h = with_frame-other k kind _ d h
  after_header-other k kind (d, false) s h = refl

  -- A frame leaves the buffers of the other kinds as they were, whatever follows its header.
  pub tail-other :
      (unset : ℕ) (d : Driver) (s : serial.Line) (k kind : Kind) (sn : ℕ) (p tail : List ℕ)
      → k ≢ kind
      → delivers.contents s ≡ with_header kind sn p tail
      → frame_of k (process serial unset d s).0.0 ≡ frame_of k d
  tail-other unset d s k kind sn p tail other h =
      let (s', (e, h')) = process-after_header serial delivers unset d s kind sn p tail h in
      ap (λ r. frame_of k r.0.0) e
      ∙ (after_header-other k kind (check_header kind d _) s' other
          ∙ check_header-other k kind d _ other)

  -- A whole frame leaves the buffers of the other kinds as they were.
  pub process-other :
      (unset : ℕ) (d : Driver) (s : serial.Line) (k kind : Kind) (sn : ℕ) (p rest : List ℕ)
      → k ≢ kind
      → delivers.contents s ≡ encode kind sn p ++ rest
      → frame_of k (process serial unset d s).0.0 ≡ frame_of k d
  unfolding encode
  process-other unset d s k kind sn p rest other h =
      tail-other unset d s k kind sn p ((p ++ (0xFD ∷ [])) ++ rest) other h
