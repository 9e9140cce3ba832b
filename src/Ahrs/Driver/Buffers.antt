-- ===== src/Ahrs/Driver/Buffers.antt =====
-- The frame buffers of ahrs_driver.cpp once a frame is read in full. Lemmas for the framing.
use wtbcar_autoware_nav.Prelude.{
  ℕ, zero, suc, ◌+◌, ◌*◌, ◌%◌, ◌≡◌, ◌≢◌, refl, ap, ap₂, ◌∙◌, Bool, true, false, ==_iff,
  if◌then◌else◌, List, [], ◌∷◌, ◌++◌, take, drop, get_or, length, arith,
}
use wtbcar_autoware_nav.Ahrs.Crc.{crc8_table, crc16_table}
use wtbcar_autoware_nav.Ahrs.Driver.Checked.{
  frame_of-with_frame, frame_of-check_sn, frame_of-first_serial,
}
use wtbcar_autoware_nav.Ahrs.Frame.{
  Kind, Header, FrameBuffer, Driver, data_len, frame_of, with_frame, check_sn, first_serial,
  header_bytes, check_header, fill, check_data,
}

pub take-data : (n : ℕ) (xs ys zs : List ℕ) → length xs ≡ n → take n ((xs ++ ys) ++ zs) ≡ xs
take-data zero [] ys zs h = refl
take-data zero (x ∷ xs) ys zs h = absurd (omega arith)
take-data (suc n) [] ys zs h = absurd (omega arith)
take-data (suc n) (x ∷ xs) ys zs h = ap (λ l. x ∷ l) (take-data n xs ys zs (omega arith))

pub get_or-mark :
    (n m : ℕ) (xs zs : List ℕ) → length xs ≡ n → get_or ((xs ++ (m ∷ [])) ++ zs) n 0 ≡ m
get_or-mark zero m [] zs h = refl
get_or-mark zero m (x ∷ xs) zs h = absurd (omega arith)
get_or-mark (suc n) m [] zs h = absurd (omega arith)
get_or-mark (suc n) m (x ∷ xs) zs h = get_or-mark n m xs zs (omega arith)

-- A buffer into which the data and the end of a frame were read in full.
abbrev pub filled : FrameBuffer → List ℕ → ℕ → FrameBuffer
filled frame q mark = record frame { data_buff = q; frame_end = mark }

pub fill_lem :
    (kind : Kind) (q : List ℕ) (mark : ℕ) (frame : FrameBuffer)
    → length q ≡ data_len kind
    → fill kind (q ++ (mark ∷ [])) frame ≡ filled frame q mark
unfolding fill
fill_lem kind q mark frame h =
    ap₂ (filled frame) (take-data (data_len kind) q _ _ h) (get_or-mark (data_len kind) mark q _ h)

abbrev pub stored_crc16 : Header → ℕ
stored_crc16 h = (h.header_crc16_l + h.header_crc16_h * 256) % 65536

pub check_data-false :
    (kind : Kind) (frame : FrameBuffer)
    → crc16_table frame.data_buff (data_len kind) ≢ stored_crc16 frame.header
    → check_data kind frame ≡ false
unfolding check_data
check_data-false kind frame h = ground arith

pub take_all :
    (xs ys zs : List ℕ) (n : ℕ) → length (xs ++ ys) ≡ n → take n ((xs ++ ys) ++ zs) ≡ xs ++ ys
take_all xs ys zs n h = take-whole (xs ++ ys) n zs h
  where
    take-whole : (ws : List ℕ) (k : ℕ) (us : List ℕ) → length ws ≡ k → take k (ws ++ us) ≡ ws
    take-whole [] zero us e = refl
    take-whole (w ∷ ws) zero us e = absurd (omega arith)
    take-whole [] (suc k) us e = absurd (omega arith)
    take-whole (w ∷ ws) (suc k) us e = ap (λ l. w ∷ l) (take-whole ws k us (omega arith))

pub drop_all : (xs ys zs : List ℕ) (n : ℕ) → length (xs ++ ys) ≡ n → drop n ((xs ++ ys) ++ zs) ≡ zs
drop_all xs ys zs n h = drop-whole (xs ++ ys) n zs h
  where
    drop-whole : (ws : List ℕ) (k : ℕ) (us : List ℕ) → length ws ≡ k → drop k (ws ++ us) ≡ us
    drop-whole [] zero us e = refl
    drop-whole (w ∷ ws) zero us e = absurd (omega arith)
    drop-whole [] (suc k) us e = absurd (omega arith)
    drop-whole (w ∷ ws) (suc k) us e = drop-whole ws k us (omega arith)

pub check_data-right :
    (kind : Kind) (frame : FrameBuffer)
    → crc16_table frame.data_buff (data_len kind) ≡ stored_crc16 frame.header
    → frame.frame_end ≡ 0xFD
    → check_data kind frame ≡ true
unfolding check_data
check_data-right kind frame h k = ground arith

pub check_header-right :
    (kind : Kind) (d : Driver) (header : Header)
    → crc8_table (header_bytes header) 4 ≡ header.header_crc8
    → let stored = with_frame kind (record (frame_of kind d) { header = header }) d in
      check_header kind d header
      ≡ (check_sn (first_serial kind stored header.serial_num) header.serial_num, true)
unfolding check_header
check_header-right kind d header h =
    ap
      (λ (b : Bool).
        (let stored = with_frame kind (record (frame_of kind d) { header = header }) d in
          if b
          then (check_sn (first_serial kind stored header.serial_num) header.serial_num, true)
          else (stored, false)))
      ((==_iff _ _).1 h)

pub header_stays :
    (kind : Kind) (d : Driver) (header : Header)
    → let stored = with_frame kind (record (frame_of kind d) { header = header }) d in
      (frame_of kind
        (check_sn (first_serial kind stored header.serial_num) header.serial_num)).header
      ≡ header
header_stays kind d header =
    let stored = with_frame kind (record (frame_of kind d) { header = header }) d in
    ap (λ (g : FrameBuffer). g.header)
      (frame_of-check_sn kind (first_serial kind stored header.serial_num) header.serial_num
        ∙ frame_of-first_serial kind stored header.serial_num
        ∙ frame_of-with_frame kind (record (frame_of kind d) { header = header }) d)
