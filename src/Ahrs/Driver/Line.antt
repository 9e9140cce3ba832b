-- ===== src/Ahrs/Driver/Line.antt =====
-- What ahrs_driver.cpp makes of a line with stray bytes and damaged frames between the whole ones.
use wtbcar_autoware_nav.Prelude.{
  append_assoc, ℕ, ◌<◌, ◌≡◌, ◌≢◌, ◌∙◌, refl, ap, ap₂, ◌==◌, false, Bool-cases, inl, inr, ==_iff,
  List, [], ◌∷◌, ◌++◌, length,
}
use wtbcar_autoware_nav.Ahrs.Crc.Polynomial.{AllBytes}
use wtbcar_autoware_nav.Ahrs.Frame.{
  Kind, imu, ahrs, insgps, geodetic_pos, Driver, Output, imu_data, mag_pose_2d, euler_angles,
  magnetic, gps_fix, ned_odometry, system_speed, data_len, frame_of, publish,
}
use wtbcar_autoware_nav.Ahrs.Driver.{Serial, got_head, process, process_loop}
use wtbcar_autoware_nav.Ahrs.Driver.Data.{Delivers}
use wtbcar_autoware_nav.Ahrs.Driver.Framing.{with_header, encode, read_byte, process_lem}
use wtbcar_autoware_nav.Ahrs.Driver.Bursts.{burst-Dropped}
use wtbcar_autoware_nav.Ahrs.Driver.Others.{tail-other, process-other}

-- Data in which `a` and `b`, which follow one another, arrive as `v` and `w`.
pub record Damage : Type 0 where
  pub before : List ℕ
  pub after : List ℕ
  pub a : ℕ
  pub b : ℕ
  pub v : ℕ
  pub w : ℕ

abbrev pub sent : Damage → List ℕ
sent x = x.before ++ (x.a ∷ x.b ∷ x.after)

abbrev pub arrived : Damage → List ℕ
arrived x = x.before ++ (x.v ∷ x.w ∷ x.after)

pub data Segment : Type 0 where
  stray : ℕ → Segment
  whole : Kind → ℕ → List ℕ → Segment
  damaged : Kind → ℕ → Damage → ℕ → Segment

-- The bytes on the line.
abbrev pub arriving : List Segment → List ℕ
arriving [] = []
arriving (stray byte ∷ segments) = byte ∷ arriving segments
arriving (whole kind sn p ∷ segments) = encode kind sn p ++ arriving segments
arriving (damaged kind sn x mark ∷ segments) =
    with_header kind sn (sent x) ((arrived x ++ (mark ∷ [])) ++ arriving segments)

-- The data that arrived last, by the kind of their frame.
pub record Latest : Type 0 where
  pub of_imu : List ℕ
  pub of_ahrs : List ℕ
  pub of_insgps : List ℕ
  pub of_geodetic_pos : List ℕ

abbrev pub store : Kind → List ℕ → Latest → Latest
store imu p l = record l { of_imu = p }
store ahrs p l = record l { of_ahrs = p }
store insgps p l = record l { of_insgps = p }
store geodetic_pos p l = record l { of_geodetic_pos = p }

abbrev pub latest_of : Driver → Latest
latest_of d = record {
  of_imu = d.imu_frame.data_buff;
  of_ahrs = d.ahrs_frame.data_buff;
  of_insgps = d.insgps_frame.data_buff;
  of_geodetic_pos = d.geodetic_position_frame.data_buff;
}

-- The messages for a frame of a kind: each with the data that it is computed from.
abbrev pub messages_of : Kind → Latest → List Output
messages_of imu l = imu_data l.of_ahrs l.of_imu ∷ []
messages_of ahrs l = mag_pose_2d l.of_ahrs ∷ euler_angles l.of_ahrs ∷ magnetic l.of_imu ∷ []
messages_of insgps l = ned_odometry l.of_insgps ∷ system_speed l.of_insgps ∷ []
messages_of geodetic_pos l = gps_fix l.of_geodetic_pos ∷ []

-- The messages for a line: those of the whole frames, in turn. The data of a damaged frame are not
-- published for it, but stay the latest of their kind.
abbrev pub messages : List Segment → Latest → List Output
messages [] l = []
messages (stray byte ∷ segments) l = messages segments l
messages (whole kind sn p ∷ segments) l =
    messages_of kind (store kind p l) ++ messages segments (store kind p l)
messages (damaged kind sn x mark ∷ segments) l = messages segments (store kind (arrived x) l)

-- Stray bytes are no start of a frame, frames have the length of their kind, and damage changes bytes to
-- bytes.
abbrev pub AllPlausible : List Segment → Type 0
AllPlausible [] = Unit
AllPlausible (stray byte ∷ segments) = (byte ≢ 0xFC) × AllPlausible segments
AllPlausible (whole kind sn p ∷ segments) = (length p ≡ data_len kind) × AllPlausible segments
AllPlausible (damaged kind sn x mark ∷ segments) =
    (AllBytes (sent x)
      × (length (sent x) ≡ data_len kind)
      × (x.v < 256)
      × (x.w < 256)
      × ¬ ((x.v ≡ x.a) × (x.w ≡ x.b)))
    × AllPlausible segments

publish_lem : (kind : Kind) (d : Driver) → publish kind d ≡ messages_of kind (latest_of d)
unfolding publish
publish_lem imu d = refl
publish_lem ahrs d = refl
publish_lem insgps d = refl
publish_lem geodetic_pos d = refl

-- Two drivers that differ in the data of one kind only.
stored-latest :
    (kind : Kind) (q : List ℕ) (d e : Driver)
    → (frame_of kind e).data_buff ≡ q
    → ((k : Kind) → k ≢ kind → frame_of k e ≡ frame_of k d)
    → latest_of e ≡ store kind q (latest_of d)
unfolding frame_of
stored-latest imu q d e h other =
    rw (h, other ahrs (λ n. cc), other insgps (λ n. cc), other geodetic_pos (λ n. cc)) refl
stored-latest ahrs q d e h other =
    rw (h, other imu (λ n. cc), other insgps (λ n. cc), other geodetic_pos (λ n. cc)) refl
stored-latest insgps q d e h other =
    rw (h, other imu (λ n. cc), other ahrs (λ n. cc), other geodetic_pos (λ n. cc)) refl
stored-latest geodetic_pos q d e h other =
    rw (h, other imu (λ n. cc), other ahrs (λ n. cc), other insgps (λ n. cc)) refl

module _ (serial : Serial) (delivers : Delivers serial) where
  stray_dropped :
      (unset : ℕ) (d : Driver) (s : serial.Line) (byte : ℕ) (rest : List ℕ)
      → byte ≢ 0xFC
      → delivers.contents s ≡ byte ∷ rest
      → ((process serial unset d s).1 ≡ [])
        × ((process serial unset d s).0.0 ≡ d)
        × (delivers.contents (process serial unset d s).0.1 ≡ rest)
  unfolding process got_head
  stray_dropped unset d s byte rest ne h =
      let (got, left) = read_byte serial delivers s byte rest h in
      let e : process serial unset d s ≡ ((d, (serial.read 1 s).1), []) =
        rw (got, got_head, other_head) refl in
      (ap (λ r. r.1) e, ap (λ r. r.0.0) e, ap (λ r. delivers.contents r.0.1) e ∙ left)
    where
      other_head : (byte == 0xFC) ≡ false
      other_head = elim (Bool-cases (byte == 0xFC)) [
        | inl e ↦ absurd (ne ((==_iff byte 0xFC).0 e))
        | inr e ↦ e
      ]

  -- Of a line on which whole frames, damaged frames and stray bytes follow one another in any order,
  -- each is read in one pass, and exactly the messages of the whole frames are published, in turn,
  -- whatever the serial numbers are; what follows is left on the line. A message is computed from the
  -- data that arrived last of the kinds that it needs: so the orientation in the message for an IMU
  -- frame is that of the last AHRS frame, even if that one was damaged. A damaged frame has two
  -- neighbouring bytes of its data replaced, at least one of them by another, and any end mark; a stray
  -- byte is not the start of a frame.
  pub process_loop-messages :
      (unset : ℕ) (d : Driver) (s : serial.Line) (segments : List Segment) (rest : List ℕ)
      → AllPlausible segments
      → delivers.contents s ≡ arriving segments ++ rest
      → let r = process_loop serial (length segments) unset d s in
        (r.1 ≡ messages segments (latest_of d)) × (delivers.contents r.0.1 ≡ rest)
  unfolding process_loop
  process_loop-messages unset d s [] rest ok h = (refl, h)
  process_loop-messages unset d s (stray byte ∷ segments) rest ok h =
      let r = process serial unset d s in
      let (silent, same, left) = stray_dropped unset d s byte (arriving segments ++ rest) ok.0 h in
      let (out, end) = process_loop-messages unset r.0.0 r.0.1 segments rest ok.1 left in
      (ap₂ ◌++◌ silent (out ∙ ap (λ e. messages segments (latest_of e)) same), end)
  process_loop-messages unset d s (whole kind sn p ∷ segments) rest ok h =
      let arrives = h ∙ append_assoc (encode kind sn p) (arriving segments) rest in
      let one =
        process_lem serial delivers unset d s kind sn p (arriving segments ++ rest) ok.0 arrives in
      let r = process serial unset d s in
      let now = stored-latest kind p d r.0.0 one.stored (λ k other.
        process-other serial delivers unset d s k kind sn p (arriving segments ++ rest) other
          arrives) in
      let (out, end) = process_loop-messages unset r.0.0 r.0.1 segments rest ok.1 one.left in
      (
        ap₂ ◌++◌ (one.out ∙ publish_lem kind r.0.0 ∙ ap (messages_of kind) now)
            (out ∙ ap (messages segments) now),
        end,
      )
  process_loop-messages unset d s (damaged kind sn x mark ∷ segments) rest ok h =
      let r = process serial unset d s in
      let (bytes, full, hv, hw, ne) = ok.0 in
      let tail = ((arrived x ++ (mark ∷ [])) ++ (arriving segments ++ rest)) in
      let arrives : delivers.contents s ≡ with_header kind sn (sent x) tail =
        h
        ∙ ap (with_header kind sn (sent x))
            (append_assoc (arrived x ++ (mark ∷ [])) (arriving segments) rest) in
      let one =
        burst-Dropped serial delivers unset d s kind sn x.before x.after x.a x.b x.v x.w mark
          (arriving segments ++ rest) bytes full hv hw ne arrives in
      let now =
        stored-latest kind (arrived x) d r.0.0 one.stored
          (λ k other. tail-other serial delivers unset d s k kind sn (sent x) tail other arrives) in
      let (out, end) = process_loop-messages unset r.0.0 r.0.1 segments rest ok.1 one.left in
      (ap₂ ◌++◌ one.silent (out ∙ ap (messages segments) now), end)
