-- ===== src/Ahrs/Driver/Stream.antt =====
-- What ahrs_driver.cpp does with a stream of whole frames.
use wtbcar_autoware_nav.Prelude.{append_assoc, ℕ, ◌≡◌, ◌∙◌, List, [], ◌∷◌, ◌++◌, length}
use wtbcar_autoware_nav.Ahrs.Frame.{Kind, Driver, Output, data_len, frame_of, publish}
use wtbcar_autoware_nav.Ahrs.Driver.{Serial, process, process_loop}
use wtbcar_autoware_nav.Ahrs.Driver.Data.{Delivers}
use wtbcar_autoware_nav.Ahrs.Driver.Framing.{encode, process_lem}

-- Frames as kind, serial number and data.
abbrev pub stream : List (Kind × ℕ × List ℕ) → List ℕ
stream [] = []
stream ((kind, sn, p) ∷ frames) = encode kind sn p ++ stream frames

abbrev pub AllFull : List (Kind × ℕ × List ℕ) → Type 0
AllFull [] = Unit
AllFull ((kind, sn, p) ∷ frames) = (length p ≡ data_len kind) × AllFull frames

-- For each frame in turn, the messages of its kind, published while its data were in the buffer.
pub data InTurn : List (Kind × ℕ × List ℕ) → List Output → Type 0 where
  done : InTurn [] []
  next :
      {kind : Kind} {sn : ℕ} {p : List ℕ} {frames : List (Kind × ℕ × List ℕ)}
      {out rest : List Output} (d : Driver)
      → out ≡ publish kind d
      → (frame_of kind d).data_buff ≡ p
      → InTurn frames rest
      → InTurn ((kind, sn, p) ∷ frames) (out ++ rest)

module _ (serial : Serial) (delivers : Delivers serial) where
  -- Frames of the right lengths that arrive one after the other are published in turn, one in each
  -- pass, none left out and nothing between them, whatever the state was and whatever their serial
  -- numbers are; what follows them is left on the line.
  pub process_loop_lem :
      (unset : ℕ) (d : Driver) (s : serial.Line) (frames : List (Kind × ℕ × List ℕ)) (rest : List ℕ)
      → AllFull frames
      → delivers.contents s ≡ stream frames ++ rest
      → let r = process_loop serial (length frames) unset d s in
        InTurn frames r.1 × (delivers.contents r.0.1 ≡ rest)
  unfolding process_loop
  process_loop_lem unset d s [] rest full h = (done, h)
  process_loop_lem unset d s ((kind, sn, p) ∷ frames) rest full h =
      let one =
        process_lem serial delivers unset d s kind sn p (stream frames ++ rest) full.0
          (h ∙ append_assoc (encode kind sn p) (stream frames) rest) in
      let r = process serial unset d s in
      let (turn, left) = process_loop_lem unset r.0.0 r.0.1 frames rest full.1 one.left in
      (next r.0.0 one.out one.stored turn, left)
