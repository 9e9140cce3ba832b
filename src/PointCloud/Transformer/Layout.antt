-- ===== src/PointCloud/Transformer/Layout.antt =====
-- What point_cloud_transformer.cpp remembers of the layout of its messages, and which messages it answers.
use wtbcar_autoware_nav.Prelude.{
  ◌>>=◌, ◌≡◌, refl, sym, ap, ap₂, ◌∙◌, true, false, Bool, Bool-cases, inl, inr, List, [], ◌∷◌, ◌++◌,
  map, Option, some, none, if◌then◌else◌,
}
use mathlib.Core.List.{map-append}
use mathlib.Core.Option.{some-injective, none-ne-some}
use wtbcar_autoware_nav.Prelude.Int.{ℤ}
use wtbcar_autoware_nav.Floats.{Floats}
use wtbcar_autoware_nav.PointCloud.{Cloud}
use wtbcar_autoware_nav.PointCloud.{is_negative}
use wtbcar_autoware_nav.PointCloud.Transformer.{
  Outside, Node, PointXyzi, PclCloud, Published, ring_field, time_field, resolve, convert, answer,
  point_cloud_callback, run,
}

-- The value of a chain of two steps comes from values of both.
bind-some {ℓ κ} :
    {A : Type ℓ} {B : Type κ} (m : Option A) (k : A → Option B) (b : B)
    → (m >>= k) ≡ some b
    → (a : A) × ((m ≡ some a) × (k a ≡ some b))
bind-some none k b h = absurd (none-ne-some b h)
bind-some (some a) k b h = (a, (refl, h))

-- Whether PCL's reader takes a message.
abbrev pub taken {ℓ} : {A : Type ℓ} → Option A → Bool
taken none = false
taken (some a) = true

-- The first value that is known, beginning with the one at hand; the last one if none is.
abbrev pub first_known {ℓ} : {A : Type ℓ} → (A → Bool) → A → List A → A
first_known unknown a [] = a
first_known unknown a (b ∷ bs) = if unknown a then first_known unknown b bs else a

first_known-known {ℓ} :
    {A : Type ℓ} (unknown : A → Bool) (a : A) (bs : List A)
    → unknown a ≡ false
    → first_known unknown a bs ≡ a
first_known-known unknown a [] h = refl
first_known-known unknown a (b ∷ bs) h = rw h refl

first_known-step {ℓ} :
    {A : Type ℓ} (unknown : A → Bool) (a b : A) (bs : List A)
    → first_known unknown (if unknown a then b else a) bs ≡ first_known unknown a (b ∷ bs)
first_known-step unknown a b bs = elim (Bool-cases (unknown a)) [
  | inl e ↦ rw e refl
  | inr e ↦ rw e (first_known-known unknown a bs e)
]

module _ (f : Floats) where
  -- The offset and the type of the time that a node remembers.
  abbrev pub time_of : Node f → ℤ × ℤ
  time_of n = (n.time_offset, n.time_datatype)

module _ (f : Floats) (o : Outside f) where
  -- The messages that PCL's reader takes.
  abbrev pub answered : List Cloud → List Cloud
  answered [] = []
  answered (msg ∷ msgs) = if taken (o.from_ros msg) then msg ∷ answered msgs else answered msgs

  -- What one call leaves.
  record IsStep (n : Node f) (msg : Cloud) (n' : Node f) (out : List (Published f)) : Type 0 where
    state : n' ≡ resolve f n msg
    stamps : map (λ p. p.stamp) out ≡ map (λ m. m.stamp) (answered (msg ∷ []))

  answer_lem :
      (n : Node f) (msg : Cloud) (r : Option (PclCloud (PointXyzi f))) (n' : Node f)
      (out : List (Published f))
      → answer f o n msg r ≡ some (n', out)
      → (n' ≡ n)
        × (map (λ p. p.stamp) out ≡ map (λ (m : Cloud). m.stamp) (if taken r then msg ∷ [] else []))
  unfolding answer
  answer_lem n msg none n' out h =
      let e = some-injective (n, []) (n', out) h in
      (sym (ap (λ q. q.0) e), sym (ap (λ q. map (λ (p : Published f). p.stamp) q.1) e))
  answer_lem n msg (some cloud_in) n' out h =
      let (clouds, (converted, h')) =
        bind-some (convert f o n msg 0 cloud_in.points) _ (n', out) h in
      let e = some-injective _ (n', out) h' in
      (sym (ap (λ q. q.0) e), sym (ap (λ q. map (λ (p : Published f). p.stamp) q.1) e))

  step_lem :
      (n : Node f) (msg : Cloud) (n' : Node f) (out : List (Published f))
      → point_cloud_callback f o n msg ≡ some (n', out)
      → IsStep n msg n' out
  unfolding point_cloud_callback
  step_lem n msg n' out h =
      let (state, stamps) = answer_lem (resolve f n msg) msg (o.from_ros msg) n' out h in
      record { state = state; stamps = stamps }

  ring_step :
      (n : Node f) (msg : Cloud) (msgs : List Cloud)
      → first_known is_negative (resolve f n msg).ring_offset (map (λ m. ring_field m.fields) msgs)
        ≡ first_known is_negative n.ring_offset (map (λ m. ring_field m.fields) (msg ∷ msgs))
  unfolding resolve
  ring_step n msg msgs = first_known-step is_negative n.ring_offset (ring_field msg.fields) _

  time_step :
      (n : Node f) (msg : Cloud) (msgs : List Cloud)
      → first_known
          (λ t. is_negative t.0)
          (time_of f (resolve f n msg))
          (map (λ m. time_field m.fields) msgs)
        ≡ first_known
            (λ t. is_negative t.0)
            (time_of f n)
            (map (λ m. time_field m.fields) (msg ∷ msgs))
  unfolding resolve
  time_step n msg msgs =
      first_known-step (λ t. is_negative t.0) (time_of f n) (time_field msg.fields) _

  run-nil :
      (n last : Node f) (outs : List (Published f))
      → run f o n [] ≡ some (last, outs)
      → ◌≡◌ {A = Node f × List (Published f)} (n, []) (last, outs)
  unfolding run
  run-nil n last outs h = some-injective (n, []) (last, outs) h

  answered-cons :
      (msg : Cloud) (msgs : List Cloud)
      → map (λ m. m.stamp) (answered (msg ∷ [])) ++ map (λ m. m.stamp) (answered msgs)
        ≡ map (λ m. m.stamp) (answered (msg ∷ msgs))
  answered-cons msg msgs = elim (Bool-cases (taken (o.from_ros msg))) [
    | inl e ↦ rw e refl
    | inr e ↦ rw e refl
  ]

  -- The two halves of a run.
  run-cons :
      (n : Node f) (msg : Cloud) (msgs : List Cloud) (last : Node f) (outs : List (Published f))
      → run f o n (msg ∷ msgs) ≡ some (last, outs)
      → (n' : Node f) × ((out : List (Published f)) × ((rest : List (Published f)) × (IsStep n msg
                n' out
              × ((run f o n' msgs ≡ some (last, rest)) × (outs ≡ out ++ rest)))))
  unfolding run
  run-cons n msg msgs last outs h =
      let ((n', out), (called, h')) = bind-some (point_cloud_callback f o n msg) _ (last, outs) h in
      let ((n'', rest), (went_on, h'')) = bind-some (run f o n' msgs) _ (last, outs) h' in
      let e = some-injective (n'', out ++ rest) (last, outs) h'' in
      (
        n',
        (
          out,
          (
            rest,
            (
              step_lem n msg n' out called,
              (went_on ∙ ap (λ l. some (l, rest)) (ap (λ q. q.0) e), sym (ap (λ q. q.1) e)),
            ),
          ),
        ),
      )

  pub run-layout :
      (n : Node f) (msgs : List Cloud) (last : Node f) (outs : List (Published f))
      → run f o n msgs ≡ some (last, outs)
      → (last.ring_offset
          ≡ first_known is_negative n.ring_offset (map (λ m. ring_field m.fields) msgs))
        × (time_of f last
            ≡ first_known
                (λ t. is_negative t.0)
                (time_of f n)
                (map (λ m. time_field m.fields) msgs))
  run-layout n [] last outs h =
      let e = run-nil n last outs h in
      (sym (ap (λ q. q.0.ring_offset) e), sym (ap (λ q. time_of f q.0) e))
  run-layout n (msg ∷ msgs) last outs h =
      let (n', (out, (rest, (s, (went_on, e))))) = run-cons n msg msgs last outs h in
      let (ring, time) = run-layout n' msgs last rest went_on in
      (
        ring
            ∙ (ap
                  (λ (k : Node f).
                    first_known is_negative k.ring_offset (map (λ m. ring_field m.fields) msgs))
                  s.state
                ∙ ring_step n msg msgs),
        time
            ∙ (ap
                  (λ (k : Node f).
                    first_known (λ t. is_negative t.0) (time_of f k)
                      (map (λ m. time_field m.fields) msgs))
                  s.state
                ∙ time_step n msg msgs),
      )

  -- A run publishes one pair of clouds for each message that PCL's reader takes, in their order and
  -- with their stamps, and none for the others.
  pub run-stamps :
      (n : Node f) (msgs : List Cloud) (last : Node f) (outs : List (Published f))
      → run f o n msgs ≡ some (last, outs)
      → map (λ p. p.stamp) outs ≡ map (λ m. m.stamp) (answered msgs)
  run-stamps n [] last outs h =
      let e = run-nil n last outs h in sym (ap (λ q. map (λ (p : Published f). p.stamp) q.1) e)
  run-stamps n (msg ∷ msgs) last outs h =
      let (n', (out, (rest, (s, (went_on, e))))) = run-cons n msg msgs last outs h in
      ap (map (λ (p : Published f). p.stamp)) e
      ∙ (map-append (λ (p : Published f). p.stamp) out rest
          ∙ (ap₂ (λ a b. a ++ b) s.stamps (run-stamps n' msgs last rest went_on)
              ∙ answered-cons msg msgs))
