-- ===== src/Ahrs/Driver/Checked.antt =====
-- The checks of ahrs_driver.cpp between the serial line and the publishers, stage by stage.
use wtbcar_autoware_nav.Prelude.{
  ℕ, ◌+◌, ◌*◌, ◌%◌, ◌≡◌, ◌≢◌, refl, sym, subst, Bool, true, false, ◌==◌, ==_iff, ◌||◌, if_cases,
  List, [], ◌∷◌, Option, none, some, arith,
}
use wtbcar_autoware_nav.Ahrs.Crc.{crc8_table, crc16_table}
use wtbcar_autoware_nav.Ahrs.Frame.{
  Kind, imu, ahrs, insgps, geodetic_pos, Header, FrameBuffer, Driver, Output, data_len, kind_of,
  frame_of, with_frame, check_sn, first_serial, header_bytes, check_header, fill, check_data,
  publish,
}
use wtbcar_autoware_nav.Ahrs.Driver.{
  Serial, read_data, after_header, read_frame, skip_header, skip_ground, dispatch, known_type,
  got_length, got_type, got_head, process,
}

-- Both checksums of a frame are those of its header and data, and it ends with the mark.
pub record IsSound (kind : Kind) (frame : FrameBuffer) : Type 0 where
  pub head : crc8_table (header_bytes frame.header) 4 ≡ frame.header.header_crc8
  pub body :
      crc16_table frame.data_buff (data_len kind)
      ≡ (frame.header.header_crc16_l + frame.header.header_crc16_h * 256) % 65536
  pub mark : frame.frame_end ≡ 0xFD

-- The outcome of a pass: nothing published, or the messages of a sound frame that is in the buffers.
pub data Checked (d : Driver) : List Output → Type 0 where
  silent : Checked d []
  sound :
      {out : List Output} (kind : Kind)
      → IsSound kind (frame_of kind d)
      → out ≡ publish kind d
      → Checked d out

pub frame_of-with_frame :
    (kind : Kind) (frame : FrameBuffer) (d : Driver)
    → frame_of kind (with_frame kind frame d) ≡ frame
unfolding frame_of with_frame
frame_of-with_frame imu frame d = refl
frame_of-with_frame ahrs frame d = refl
frame_of-with_frame insgps frame d = refl
frame_of-with_frame geodetic_pos frame d = refl

pub frame_of-check_sn :
    (kind : Kind) (d : Driver) (sn : ℕ) → frame_of kind (check_sn d sn) ≡ frame_of kind d
unfolding frame_of check_sn
frame_of-check_sn imu d sn = refl
frame_of-check_sn ahrs d sn = refl
frame_of-check_sn insgps d sn = refl
frame_of-check_sn geodetic_pos d sn = refl

pub frame_of-first_serial :
    (kind : Kind) (d : Driver) (sn : ℕ) → frame_of kind (first_serial kind d sn) ≡ frame_of kind d
unfolding frame_of first_serial
frame_of-first_serial imu d sn = ground arith
frame_of-first_serial ahrs d sn = ground arith
frame_of-first_serial insgps d sn = refl
frame_of-first_serial geodetic_pos d sn = ground arith

check_data-true :
    (kind : Kind) (frame : FrameBuffer)
    → check_data kind frame ≡ true
    → (crc16_table frame.data_buff (data_len kind)
        ≡ (frame.header.header_crc16_l + frame.header.header_crc16_h * 256) % 65536)
      × (frame.frame_end ≡ 0xFD)
unfolding check_data
check_data-true kind frame h = ground arith

-- A header that passes has the right CRC-8, and is in the buffer.
abbrev HeadRight : Kind → Driver × Bool → Type 0
HeadRight kind r =
    r.1 ≡ true
    → let header = (frame_of kind r.0).header in
      crc8_table (header_bytes header) 4 ≡ header.header_crc8

check_header_lem :
    (kind : Kind) (d : Driver) (header : Header) → HeadRight kind (check_header kind d header)
unfolding check_header
check_header_lem kind d header =
    if_cases {A = Driver × Bool} (HeadRight kind)
      (crc8_table (header_bytes header) 4 == header.header_crc8)
      {x = (check_sn (first_serial kind stored header.serial_num) header.serial_num, true)}
      {y = (stored, false)} (λ e _. kept ((==_iff _ _).0 e)) (λ _ e. absurd (false≢true e))
  where
    stored : Driver
    stored = with_frame kind (record (frame_of kind d) { header = header }) d

    false≢true : false ≢ true
    false≢true e = ground arith

    kept :
        crc8_table (header_bytes header) 4 ≡ header.header_crc8
        → let after =
            (frame_of kind
              (check_sn (first_serial kind stored header.serial_num) header.serial_num)).header in
          crc8_table (header_bytes after) 4 ≡ after.header_crc8
    kept e =
        rw
          (
            frame_of-check_sn kind (first_serial kind stored header.serial_num) header.serial_num,
            frame_of-first_serial kind stored header.serial_num,
            frame_of-with_frame kind (record (frame_of kind d) { header = header }) d,
          )
          e

module _ (serial : Serial) where
  pub Good : (Driver × serial.Line) × List Output → Type 0
  Good r = Checked r.0.0 r.1

  quiet : (d : Driver) (s : serial.Line) → Good ((d, s), [])
  unfolding Good
  quiet d s = silent

  filled-Checked :
      (kind : Kind) (d : Driver) (frame : FrameBuffer)
      → crc8_table (header_bytes frame.header) 4 ≡ frame.header.header_crc8
      → check_data kind frame ≡ true
      → Checked (with_frame kind frame d) (publish kind (with_frame kind frame d))
  filled-Checked kind d frame head right =
      let (body, mark) = check_data-true kind frame right in
      sound kind
        (subst (IsSound kind) (sym (frame_of-with_frame kind frame d))
          (record { head = head; body = body; mark = mark }))
        refl

  read_data-Good :
      (kind : Kind) (d : Driver) (s : serial.Line)
      → (let header = (frame_of kind d).header in
          crc8_table (header_bytes header) 4 ≡ header.header_crc8)
      → Good (read_data serial kind d s)
  unfolding read_data Good fill
  read_data-Good kind d s head =
      let frame = fill kind (serial.read (data_len kind + 1) s).0 (frame_of kind d) in
      if_cases (Checked (with_frame kind frame d)) (check_data kind frame)
        (λ e. filled-Checked kind d frame head e) (λ _. silent)

  after_header-Good :
      (kind : Kind) (r : Driver × Bool) (s : serial.Line)
      → HeadRight kind r
      → Good (after_header serial kind r s)
  unfolding after_header
  after_header-Good kind (d, right) s h =
      if_cases Good right (λ e. read_data-Good kind d s (h e)) (λ _. quiet d s)

  dispatch-Good :
      (kind : Option Kind) (unset : ℕ) (d : Driver) (s : serial.Line) (head_start head_type len : ℕ)
      → Good (dispatch serial kind unset d s head_start head_type len)
  unfolding dispatch read_frame skip_ground skip_header
  dispatch-Good (some kind) unset d s head_start head_type len =
      if_cases Good (len == data_len kind)
        (λ _. after_header-Good kind _ _ (check_header_lem kind d _)) (λ _. quiet d s)
  dispatch-Good none unset d s head_start head_type len =
      if_cases Good (head_type == 0xF0 || head_type == 0x50) (λ _. quiet _ _) (λ _. quiet _ _)

  got_length-Good :
      (unset : ℕ) (d : Driver) (bytes : List ℕ) (s : serial.Line) (head_start head_type : ℕ)
      → Good (got_length serial unset d bytes s head_start head_type)
  unfolding got_length
  got_length-Good unset d [] s head_start head_type = quiet d s
  got_length-Good unset d (len ∷ _) s head_start head_type =
      dispatch-Good (kind_of head_type) unset d s head_start head_type len

  got_type-Good :
      (unset : ℕ) (d : Driver) (bytes : List ℕ) (s : serial.Line) (head_start : ℕ)
      → Good (got_type serial unset d bytes s head_start)
  unfolding got_type
  got_type-Good unset d [] s head_start = quiet d s
  got_type-Good unset d (t ∷ _) s head_start =
      if_cases Good (known_type serial t) (λ _. got_length-Good unset d _ _ head_start t)
        (λ _. quiet d s)

  got_head-Good :
      (unset : ℕ) (d : Driver) (bytes : List ℕ) (s : serial.Line)
      → Good (got_head serial unset d bytes s)
  unfolding got_head
  got_head-Good unset d [] s = quiet d s
  got_head-Good unset d (h ∷ _) s =
      if_cases Good (h == 0xFC) (λ _. got_type-Good unset d _ _ h) (λ _. quiet d s)

  -- Whatever the line delivers, a pass publishes nothing, or the messages of one frame in the buffers
  -- whose two checksums are right and which ends with the mark.
  pub process-Checked :
      (unset : ℕ) (d : Driver) (s : serial.Line)
      → Checked (process serial unset d s).0.0 (process serial unset d s).1
  unfolding process
  process-Checked unset d s =
      unfold Good in got_head-Good unset d (serial.read 1 s).0 (serial.read 1 s).1
