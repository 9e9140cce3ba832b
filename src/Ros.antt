-- ===== src/Ros.antt =====
-- What the constructors of the nodes use of rclcpp, which is not code of the repository: the parameters of
-- a node, and names of topics.
pub mod Tests
use wtbcar_autoware_nav.Prelude.{
  String, str_eq, Bool, ◌≡◌, List, [], ◌∷◌, if◌then◌else◌, Option, some,
}
use wtbcar_autoware_nav.Prelude.Int.{ℤ}
use wtbcar_autoware_nav.Floats.{Floats}

-- The value of a parameter, by its name and the default that the node declares; `none`: the launch gives
-- it a value of another type, and `declare_parameter` throws.
pub record Parameters (f : Floats) : Type 0 where
  pub number : String → f.F64 → Option f.F64
  pub numbers : String → List f.F64 → Option (List f.F64)
  pub whole : String → ℤ → Option ℤ
  pub text : String → String → Option String
  pub truth : String → Bool → Option Bool

-- A launch that sets no parameter.
pub record Unset (f : Floats) (params : Parameters f) : Type 0 where
  pub number : (name : String) (d : f.F64) → params.number name d ≡ some d
  pub numbers : (name : String) (d : List f.F64) → params.numbers name d ≡ some d
  pub whole : (name : String) (d : ℤ) → params.whole name d ≡ some d
  pub text : (name d : String) → params.text name d ≡ some d
  pub truth : (name : String) (d : Bool) → params.truth name d ≡ some d

-- The subscriptions of a node, each with its callback, and the topics of its publishers.
pub record Topics (Callback Publisher : Type 0) : Type 0 where
  pub subscriptions : List (String × Callback)
  pub topic_of : Publisher → String

-- The callbacks that get a message of this topic, where `resolve` makes names complete.
unfoldable pub receivers {ℓ} :
    {A : Type ℓ} → (String → String) → String → List (String × A) → List A
receivers resolve topic [] = []
receivers resolve topic ((name, callback) ∷ subscriptions) =
    let rest = receivers resolve topic subscriptions in
    if str_eq (resolve name) (resolve topic) then callback ∷ rest else rest
