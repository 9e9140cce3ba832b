-- ===== src/Ahrs/Driver/Data.antt =====
-- The data of a frame and its end mark, as ahrs_driver.cpp reads them.
use wtbcar_autoware_nav.Prelude.{
  ℕ, ◌+◌, ◌*◌, ◌%◌, ◌<◌, ◌≤◌, ◌≡◌, ◌≢◌, refl, sym, subst, ap, ◌∙◌, if◌then◌else◌, List, [], ◌∷◌,
  ◌++◌, take, drop, set, get_or, length, length-append, length-set, arith,
}
use wtbcar_autoware_nav.Ahrs.Crc.{crc16_table}
use wtbcar_autoware_nav.Ahrs.Crc.Polynomial.{AllBytes}
use wtbcar_autoware_nav.Ahrs.Crc.Detection.{crc16_detects}
use wtbcar_autoware_nav.Ahrs.Frame.{
  Kind, Driver, data_len, frame_of, with_frame, fill, check_data, publish,
}
use wtbcar_autoware_nav.Ahrs.Driver.{Serial, read_data}
use wtbcar_autoware_nav.Ahrs.Driver.Buffers.{filled, fill_lem, check_data-false, take_all, drop_all}

-- What the node relies on in the library: bytes that have arrived are read in order.
pub record Delivers (serial : Serial) : Type 0 where
  pub contents : serial.Line → List ℕ
  pub reads :
      (n : ℕ) (s : serial.Line)
      → n ≤ length (contents s)
      → ((serial.read n s).0 ≡ take n (contents s))
        × (contents (serial.read n s).1 ≡ drop n (contents s))

module _ (serial : Serial) where
  pub read_full :
      (kind : Kind) (d : Driver) (s : serial.Line) (q : List ℕ) (mark : ℕ)
      → length q ≡ data_len kind
      → (serial.read (data_len kind + 1) s).0 ≡ q ++ (mark ∷ [])
      → let frame = filled (frame_of kind d) q mark in
        let d' = with_frame kind frame d in
        read_data serial kind d s ≡ (
          (d', (serial.read (data_len kind + 1) s).1),
          (if check_data kind frame then publish kind d' else []),
        )
  unfolding read_data
  read_full kind d s q mark h e =
      ap
        (λ frame. (
          (with_frame kind frame d, (serial.read (data_len kind + 1) s).1),
          (if check_data kind frame then publish kind (with_frame kind frame d) else []),
        ))
        (ap (λ bytes. fill kind bytes (frame_of kind d)) e
          ∙ fill_lem kind q mark (frame_of kind d) h)

  -- Data that arrive with one byte changed are not published, whatever the byte becomes and whatever
  -- follows the data: the header's CRC-16 is that of the data that were sent.
  pub corrupt_data_dropped :
      (kind : Kind) (d : Driver) (s : serial.Line) (p : List ℕ) (i v mark : ℕ)
      → AllBytes p
      → length p ≡ data_len kind
      → v < 256
      → i < data_len kind
      → v ≢ get_or p i 0
      → ((frame_of kind d).header.header_crc16_l + (frame_of kind d).header.header_crc16_h * 256)
          % 65536
        ≡ crc16_table p (data_len kind)
      → (serial.read (data_len kind + 1) s).0 ≡ set p i v ++ (mark ∷ [])
      → (read_data serial kind d s).1 ≡ []
  corrupt_data_dropped kind d s p i v mark bytes full small inside ne sent got =
      ap (λ r. r.1) (read_full kind d s (set p i v) mark (length-set p i v ∙ full) got)
      ∙ rw
          (check_data-false kind (filled (frame_of kind d) (set p i v) mark) (λ e.
            crc16_detects p (data_len kind) i v bytes small inside (omega arith) ne (e ∙ sent)))
          refl

module _ (serial : Serial) (delivers : Delivers serial) where
  -- The data and the mark are read to the last byte, into the buffer of their kind.
  pub read_whole :
      (kind : Kind) (d : Driver) (s : serial.Line) (q : List ℕ) (mark : ℕ) (rest : List ℕ)
      → length q ≡ data_len kind
      → delivers.contents s ≡ (q ++ (mark ∷ [])) ++ rest
      → let frame = filled (frame_of kind d) q mark in
        let d' = with_frame kind frame d in
        (s' : serial.Line) × ((read_data serial kind d s
            ≡ ((d', s'), (if check_data kind frame then publish kind d' else [])))
          × (delivers.contents s' ≡ rest))
  read_whole kind d s q mark rest full h =
      let n = data_len kind + 1 in
      let (got, gone) = delivers.reads n s (subst (λ l. n ≤ length l) (sym h) long) in
      (
        (serial.read n s).1,
        (
          read_full serial kind d s q mark full
              (got ∙ ap (take n) h ∙ take_all q (mark ∷ []) rest n whole),
          gone ∙ ap (drop n) h ∙ drop_all q (mark ∷ []) rest n whole,
        ),
      )
    where
      whole : length (q ++ (mark ∷ [])) ≡ data_len kind + 1
      whole = length-append q (mark ∷ []) ∙ omega arith

      long : data_len kind + 1 ≤ length ((q ++ (mark ∷ [])) ++ rest)
      long = omega (arith, length-append (q ++ (mark ∷ [])) rest, whole)
