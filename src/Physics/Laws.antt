-- ===== src/Physics/Laws.antt =====
-- What the comparison with the theoretical maximum lets through.
use hec_mvp.Base.{ℕ, ◌≡◌, Bool, true, ◌||◌, ◌==◌, nat_eq, string_eq}
use hec_mvp.Base.Float.{Float}
use hec_mvp.Physics.{Sun, Sky, judge, night_threshold_deg, default_interval_hours}

-- What is documented of floats: a literal of four places is nearest to its value, which tells a
-- positive one from zero, and 0.0 times 1.0 is 0.0, which is rounded to itself.
pub record AreExactAtZero (fl : Float) : Type 0 where
  pub lit_zero : (a : ℕ) → fl.le (fl.lit a 4) (fl.lit 0 0) ≡ (a == 0)
  pub zero-mul : fl.mul (fl.lit 0 0) (fl.lit 1 0) ≡ fl.lit 0 0
  pub round_zero : fl.round 4 (fl.lit 0 0) ≡ fl.lit 0 0

module _ (fl : Float) (sun : Sun fl) where
  -- No light from the sky: the sun is not above the horizon, or there is no irradiance.
  abbrev pub is_dark : Sky fl sun → Bool
  is_dark sky = fl.le sky.1 (fl.lit 0 0) || fl.le sky.0 (night_threshold_deg fl sun)

  pub physics_dark :
      (sky : Sky fl sun) (capacity margin : fl.F) (a : ℕ)
      → AreExactAtZero fl
      → is_dark sky ≡ true
      → (judge fl sun sky capacity (fl.lit a 4) (default_interval_hours fl sun) margin).physics_pass
        ≡ (a == 0)
  unfolding judge
  physics_dark sky capacity margin a o dark = rw (dark, o.zero-mul, o.round_zero) (o.lit_zero a)
