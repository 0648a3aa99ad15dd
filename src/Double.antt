-- ===== src/Double.antt =====
-- What the code does with a `double`: the type and its operations are those of the machine, and
-- are a parameter of every module that computes with one.
use s_ldm.Common.{ℕ, ◌≡◌, Bool, true}

pub record Double (D : Type 0) : Type 0 where
  -- the conversion from an unsigned integer
  pub of_ℕ : ℕ → D
  pub add : D → D → D
  pub sub : D → D → D
  pub mul : D → D → D
  pub div : D → D → D
  -- `<=` and `<`; both are false at NaN
  pub le : D → D → Bool
  pub lt : D → D → Bool
  -- math.h, and its constant M_PI
  pub sin : D → D
  pub cos : D → D
  pub asin : D → D
  pub sqrt : D → D
  pub fabs : D → D
  pub pi : D

infix 50 ◌≼◌
abbrev pub ◌≼◌ : {D : Type 0} ⦃d : Double D⦄ → D → D → Type 0
◌≼◌ ⦃d⦄ x y = d.le x y ≡ true
