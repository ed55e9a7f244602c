-- ===== src/Floats.antt =====
-- Python's `float`, as far as the coordinator computes with it: a type with operations. The model
-- fixes no rounding; a theorem that needs a law of the order names it as a hypothesis.
use ad_artifacts.Base.{String, Bool, Option, if◌then◌else◌}
use ad_artifacts.Base.Int.{ℤ}

pub record Floats (F : Type 0) : Type 0 where
  pub zero : F
  pub one : F
  -- float(n), for an integer
  pub of_ℤ : ℤ → F
  pub add : F → F → F
  pub sub : F → F → F
  pub mul : F → F → F
  pub div : F → F → F
  -- a < b and a <= b
  pub lt : F → F → Bool
  pub le : F → F → Bool
  -- int(math.ceil(a)) and int(round(a)), none where they raise: for an infinity or NaN
  pub ceil : F → Option ℤ
  pub round : F → Option ℤ
  -- int(a), for a finite number
  pub trunc : F → ℤ
  -- f"{a:.12g}"
  pub show : F → String
  -- float(text), none where it raises
  pub parse : String → Option F

module _ {F : Type 0} ⦃f : Floats F⦄ where
  -- max(a, b) and min(a, b) of Python: the first argument, unless the second one beats it.
  abbrev pub max_float : F → F → F
  max_float a b = if f.lt a b then b else a

  abbrev pub min_float : F → F → F
  min_float a b = if f.lt b a then b else a
