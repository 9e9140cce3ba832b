-- ===== src/Ahrs/Driver/Bursts.antt =====
-- A frame of ahrs_driver.cpp whose data arrive with a burst of errors.
use wtbcar_autoware_nav.Prelude.{
  ℕ, ◌+◌, ◌<◌, ◌≤◌, ◌≡◌, ◌≢◌, refl, sym, subst, ap, ◌∙◌, List, [], ◌∷◌, ◌++◌, length, length-append,
  arith,
}
use wtbcar_autoware_nav.Ahrs.Crc.{crc8_table, crc16_table}
use wtbcar_autoware_nav.Ahrs.Crc.Polynomial.{AllBytes}
use wtbcar_autoware_nav.Ahrs.Crc.Detection.{crc16_table-lt}
use wtbcar_autoware_nav.Ahrs.Crc.Bursts.{crc16_detects_pair}
use wtbcar_autoware_nav.Ahrs.Driver.Checked.{frame_of-with_frame}
use wtbcar_autoware_nav.Ahrs.Frame.{
  FrameBuffer, Kind, Header, Driver, Output, data_len, frame_of, check_header, header_bytes,
}
use wtbcar_autoware_nav.Ahrs.Driver.{Serial, read_data, after_header, process}
use wtbcar_autoware_nav.Ahrs.Driver.Buffers.{
  filled, stored_crc16, check_data-false, check_header-right, header_stays,
}
use wtbcar_autoware_nav.Ahrs.Driver.Data.{Delivers, read_whole}
use wtbcar_autoware_nav.Ahrs.Driver.Framing.{
  with_header, sent_header, sent_header_right, process-after_header,
}

length-pair :
    (before after : List ℕ) (a b v w : ℕ)
    → length (before ++ (v ∷ w ∷ after)) ≡ length (before ++ (a ∷ b ∷ after))
length-pair before after a b v w =
    length-append before (v ∷ w ∷ after) ∙ sym (length-append before (a ∷ b ∷ after))

module _ (serial : Serial) (delivers : Delivers serial) where
  -- A pass that published nothing and read up to the bytes of the next frame, with these data in the
  -- buffer of their kind.
  pub record Dropped (kind : Kind) (q rest : List ℕ) (r : (Driver × serial.Line) × List Output)
      : Type 0 where
    pub silent : r.1 ≡ []
    pub stored : (frame_of kind r.0.0).data_buff ≡ q
    pub left : delivers.contents r.0.1 ≡ rest

  data-Dropped :
      (kind : Kind) (d : Driver) (s : serial.Line) (q : List ℕ) (mark : ℕ) (rest : List ℕ)
      → length q ≡ data_len kind
      → delivers.contents s ≡ (q ++ (mark ∷ [])) ++ rest
      → crc16_table q (data_len kind) ≢ stored_crc16 (frame_of kind d).header
      → Dropped kind q rest (read_data serial kind d s)
  data-Dropped kind d s q mark rest full h wrong =
      let (s', (e, left)) = read_whole serial delivers kind d s q mark rest full h in
      subst (Dropped kind q rest) (sym e) (record {
        silent = rw (check_data-false kind (filled (frame_of kind d) q mark) wrong) refl;
        stored = ap (λ (g : FrameBuffer). g.data_buff) (frame_of-with_frame kind _ d);
        left = left;
      })

  header-Dropped :
      (kind : Kind) (d : Driver) (s : serial.Line) (header : Header) (q : List ℕ) (mark : ℕ)
      (rest : List ℕ)
      → length q ≡ data_len kind
      → delivers.contents s ≡ (q ++ (mark ∷ [])) ++ rest
      → crc8_table (header_bytes header) 4 ≡ header.header_crc8
      → crc16_table q (data_len kind) ≢ stored_crc16 header
      → Dropped kind q rest (after_header serial kind (check_header kind d header) s)
  header-Dropped kind d s header q mark rest full h head wrong =
      subst (λ r. Dropped kind q rest (after_header serial kind r s))
        (sym (check_header-right kind d header head))
        (unfold after_header in
          data-Dropped kind _ s q mark rest full h
            (λ e. wrong (e ∙ ap stored_crc16 (header_stays kind d header))))

  pub burst-Dropped :
      (unset : ℕ) (d : Driver) (s : serial.Line) (kind : Kind) (sn : ℕ) (before after : List ℕ)
      (a b v w mark : ℕ) (rest : List ℕ)
      → AllBytes (before ++ (a ∷ b ∷ after))
      → length (before ++ (a ∷ b ∷ after)) ≡ data_len kind
      → v < 256
      → w < 256
      → ¬ ((v ≡ a) × (w ≡ b))
      → delivers.contents s
        ≡ with_header kind sn
            (before ++ (a ∷ b ∷ after))
            (((before ++ (v ∷ w ∷ after)) ++ (mark ∷ [])) ++ rest)
      → Dropped kind (before ++ (v ∷ w ∷ after)) rest (process serial unset d s)
  burst-Dropped unset d s kind sn before after a b v w mark rest bytes full hv hw ne h =
      let p = before ++ (a ∷ b ∷ after) in
      let q = before ++ (v ∷ w ∷ after) in
      let (s', (e, h')) =
        process-after_header serial delivers unset d s kind sn p ((q ++ (mark ∷ [])) ++ rest) h in
      let inside : length before + 2 ≤ data_len kind =
        omega (arith, length-append before (a ∷ b ∷ after)) in
      let same : stored_crc16 (sent_header kind sn p) ≡ crc16_table p (data_len kind) =
        omega (arith, crc16_table-lt p (data_len kind)) in
      subst (Dropped kind q rest) (sym e) (
        header-Dropped kind d s' (sent_header kind sn p) q mark rest
          (length-pair before after a b v w ∙ full) h' (sent_header_right kind sn p)
          (λ c.
            crc16_detects_pair before after a b v w (data_len kind) bytes hv hw inside ne
              (c ∙ same)))

  -- A frame in whose data two bytes that follow one another have been replaced by two others, at least one
  -- of them different, is read to its last byte in one pass and nothing is published, whatever its end
  -- mark, so that the pass after it begins with the bytes that follow the frame.
  pub corrupt_burst_dropped :
      (unset : ℕ) (d : Driver) (s : serial.Line) (kind : Kind) (sn : ℕ) (before after : List ℕ)
      (a b v w mark : ℕ) (rest : List ℕ)
      → AllBytes (before ++ (a ∷ b ∷ after))
      → length (before ++ (a ∷ b ∷ after)) ≡ data_len kind
      → v < 256
      → w < 256
      → ¬ ((v ≡ a) × (w ≡ b))
      → delivers.contents s
        ≡ with_header kind sn
            (before ++ (a ∷ b ∷ after))
            (((before ++ (v ∷ w ∷ after)) ++ (mark ∷ [])) ++ rest)
      → ((process serial unset d s).1 ≡ [])
        × (delivers.contents (process serial unset d s).0.1 ≡ rest)
  corrupt_burst_dropped unset d s kind sn before after a b v w mark rest bytes full hv hw ne h =
      let dropped =
        burst-Dropped unset d s kind sn before after a b v w mark rest bytes full hv hw ne h in
      (dropped.silent, dropped.left)
