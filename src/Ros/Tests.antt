-- ===== src/Ros/Tests.antt =====
-- A launch without parameters, over thousandths for floating point.
use wtbcar_autoware_nav.Prelude.{refl, some}
use wtbcar_autoware_nav.Floats.Thousandths.{thousandths}
use wtbcar_autoware_nav.Ros.{Parameters, Unset}

abbrev pub unset : Parameters thousandths
unset = record {
  number = λ name d. some d;
  numbers = λ name d. some d;
  whole = λ name d. some d;
  text = λ name d. some d;
  truth = λ name d. some d;
}

pub unset-Unset : Unset thousandths unset
unset-Unset = record {
  number = λ name d. refl;
  numbers = λ name d. refl;
  whole = λ name d. refl;
  text = λ name d. refl;
  truth = λ name d. refl;
}
