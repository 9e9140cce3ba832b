-- ===== src/Ahrs/Driver/Framing.antt =====
-- Whole frames in ahrs_driver.cpp: the frame as the sensor sends it, and as a corrupted line delivers
-- it.
use wtbcar_autoware_nav.Prelude.{
  ℕ, ◌/◌, ◌%◌, ◌≤◌, ◌≡◌, refl, sym, subst, ap, ◌∙◌, Bool, true, ◌==◌, ==_iff, if◌then◌else◌, List,
  [], ◌∷◌, ◌++◌, take, drop, length, some, arith,
}
use wtbcar_autoware_nav.Ahrs.Crc.{crc8_table, crc16_table}
use wtbcar_autoware_nav.Ahrs.Crc.Detection.{crc16_table-lt}
use wtbcar_autoware_nav.Ahrs.Driver.Checked.{frame_of-with_frame}
use wtbcar_autoware_nav.Ahrs.Frame.{
  Kind, imu, ahrs, insgps, geodetic_pos, Header, FrameBuffer, Driver, Output, data_len, kind_of,
  frame_of, with_frame, header_bytes, check_header, publish,
}
use wtbcar_autoware_nav.Ahrs.Driver.{
  Serial, read_data, after_header, read_frame, dispatch, known_type, got_length, got_type, got_head,
  process,
}
use wtbcar_autoware_nav.Ahrs.Driver.Data.{Delivers, read_whole}
use wtbcar_autoware_nav.Ahrs.Driver.Buffers.{
  filled, stored_crc16, check_data-right, check_header-right, header_stays,
}

pub type_code : Kind → ℕ
type_code imu = 0x40
type_code ahrs = 0x41
type_code insgps = 0x42
type_code geodetic_pos = 0x5C

-- The header that the sensor sends for these data, and what follows it.
abbrev pub with_header : Kind → ℕ → List ℕ → List ℕ → List ℕ
with_header kind sn p tail =
    0xFC
    ∷ type_code kind
    ∷ data_len kind
    ∷ sn
    ∷ crc8_table (0xFC ∷ type_code kind ∷ data_len kind ∷ sn ∷ []) 4
    ∷ crc16_table p (data_len kind) / 256
    ∷ crc16_table p (data_len kind) % 256
    ∷ tail

-- A frame as the sensor sends it.
unfoldable pub encode : Kind → ℕ → List ℕ → List ℕ
encode kind sn p = with_header kind sn p (p ++ (0xFD ∷ []))

abbrev pub sent_header : Kind → ℕ → List ℕ → Header
sent_header kind sn p = record {
  header_start = 0xFC;
  data_type = type_code kind;
  data_size = data_len kind;
  serial_num = sn;
  header_crc8 = crc8_table (0xFC ∷ type_code kind ∷ data_len kind ∷ sn ∷ []) 4;
  header_crc16_h = crc16_table p (data_len kind) / 256;
  header_crc16_l = crc16_table p (data_len kind) % 256;
}

pub sent_header_right :
    (kind : Kind) (sn : ℕ) (p : List ℕ)
    → crc8_table (header_bytes (sent_header kind sn p)) 4 ≡ (sent_header kind sn p).header_crc8
unfolding header_bytes
sent_header_right kind sn p = refl

module _ (serial : Serial) (delivers : Delivers serial) where
  pub read_byte :
      (s : serial.Line) (b : ℕ) (bs : List ℕ)
      → delivers.contents s ≡ b ∷ bs
      → ((serial.read 1 s).0 ≡ b ∷ []) × (delivers.contents (serial.read 1 s).1 ≡ bs)
  read_byte s b bs h =
      let (got, left) = delivers.reads 1 s (subst (λ l. 1 ≤ length l) (sym h) (omega arith)) in
      (got ∙ ap (take 1) h, left ∙ ap (drop 1) h)

  -- What a frame leaves behind.
  pub record Published (kind : Kind) (p rest : List ℕ) (r : (Driver × serial.Line) × List Output)
      : Type 0 where
    pub out : r.1 ≡ publish kind r.0.0
    pub stored : (frame_of kind r.0.0).data_buff ≡ p
    pub left : delivers.contents r.0.1 ≡ rest

  known_type-code : (kind : Kind) → known_type serial (type_code kind) ≡ true
  unfolding known_type type_code
  known_type-code imu = refl
  known_type-code ahrs = refl
  known_type-code insgps = refl
  known_type-code geodetic_pos = refl

  kind_of-code : (kind : Kind) → kind_of (type_code kind) ≡ some kind
  unfolding kind_of type_code
  kind_of-code imu = refl
  kind_of-code ahrs = refl
  kind_of-code insgps = refl
  kind_of-code geodetic_pos = refl

  data-Published :
      (kind : Kind) (d : Driver) (s : serial.Line) (p rest : List ℕ)
      → length p ≡ data_len kind
      → delivers.contents s ≡ (p ++ (0xFD ∷ [])) ++ rest
      → stored_crc16 (frame_of kind d).header ≡ crc16_table p (data_len kind)
      → Published kind p rest (read_data serial kind d s)
  data-Published kind d s p rest full h crc =
      let (s', (e, left)) = read_whole serial delivers kind d s p 0xFD rest full h in
      let frame = filled (frame_of kind d) p 0xFD in
      subst (Published kind p rest) (sym e) (record {
        out =
            ap (λ (b : Bool). if b then publish kind (with_frame kind frame d) else [])
              (check_data-right kind frame (sym crc) refl);
        stored = ap (λ (g : FrameBuffer). g.data_buff) (frame_of-with_frame kind frame d);
        left = left;
      })

  header-Published :
      (kind : Kind) (d : Driver) (s : serial.Line) (header : Header) (p rest : List ℕ)
      → length p ≡ data_len kind
      → delivers.contents s ≡ (p ++ (0xFD ∷ [])) ++ rest
      → crc8_table (header_bytes header) 4 ≡ header.header_crc8
      → stored_crc16 header ≡ crc16_table p (data_len kind)
      → Published kind p rest (after_header serial kind (check_header kind d header) s)
  header-Published kind d s header p rest full h head crc =
      subst (λ r. Published kind p rest (after_header serial kind r s))
        (sym (check_header-right kind d header head))
        (unfold after_header in
          data-Published kind _ s p rest full h
            (ap stored_crc16 (header_stays kind d header) ∙ crc))

  same_len : (n : ℕ) → (n == n) ≡ true
  same_len n = (==_iff n n).1 refl

  -- The pass over a frame whose header is that of these data, up to the test of the header.
  pub process-after_header :
      (unset : ℕ) (d : Driver) (s : serial.Line) (kind : Kind) (sn : ℕ) (p tail : List ℕ)
      → delivers.contents s ≡ with_header kind sn p tail
      → (s' : serial.Line) × ((process serial unset d s
            ≡ after_header serial kind (check_header kind d (sent_header kind sn p)) s')
          × (delivers.contents s' ≡ tail))
  unfolding process got_head got_type got_length dispatch read_frame
  process-after_header unset d s kind sn p tail h =
      let (b0, h0) = read_byte s _ _ h in
      let (b1, h1) = read_byte _ _ _ h0 in
      let (b2, h2) = read_byte _ _ _ h1 in
      let (b3, h3) = read_byte _ _ _ h2 in
      let (b4, h4) = read_byte _ _ _ h3 in
      let (b5, h5) = read_byte _ _ _ h4 in
      let (b6, h6) = read_byte _ _ _ h5 in
      (
        _,
        (
          rw
              (
                b0,
                got_head,
                b1,
                got_type,
                known_type-code kind,
                b2,
                got_length,
                kind_of-code kind,
                dispatch,
                same_len (data_len kind),
                read_frame,
                b3,
                b4,
                b5,
                b6,
              )
              refl,
          h6,
        ),
      )

  -- Whatever the state, a frame as the sensor sends it, with data of the length of its kind, is read
  -- to its last byte in one pass and published, and its data are in the buffer.
  pub process_lem :
      (unset : ℕ) (d : Driver) (s : serial.Line) (kind : Kind) (sn : ℕ) (p rest : List ℕ)
      → length p ≡ data_len kind
      → delivers.contents s ≡ encode kind sn p ++ rest
      → Published kind p rest (process serial unset d s)
  unfolding encode
  process_lem unset d s kind sn p rest full h =
      let (s', (e, h')) = process-after_header unset d s kind sn p ((p ++ (0xFD ∷ [])) ++ rest) h in
      subst (Published kind p rest) (sym e) (
        header-Published kind d s' (sent_header kind sn p) p rest full h'
          (sent_header_right kind sn p) (omega (arith, crc16_table-lt p (data_len kind))))
