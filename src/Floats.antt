-- ===== src/Floats.antt =====
-- IEEE floating-point numbers, which are part of the machine: `f32` and `f64` with the tests that
-- the API makes on them. Nothing is assumed of them but what the fields name.
use eal_api.Prelude.{Bool, ◌&&◌}

pub record Floats : Type 1 where
  -- `f32` and `f64`
  pub Single : Type 0
  pub Double : Type 0
  pub single_is_finite : Single → Bool
  -- `a <= b`, false where either is not a number
  pub single_le : Single → Single → Bool
  pub single_zero : Single
  pub single_one : Single

module _ (floats : Floats) where
  open floats use {Single, single_is_finite, single_le, single_zero, single_one}

  -- `x.is_finite() && (0.0..=1.0).contains(&x)`
  abbrev pub is_unit_single : Single → Bool
  is_unit_single x = single_is_finite x && (single_le single_zero x && single_le x single_one)
