-- ===== src/Base/Float.antt =====
-- What the code does with a `float`, of which nothing is in the repository: literals, arithmetic, the
-- functions of `math`, comparison and `round`.
use Prim.Native.Nat.{ℕ}
use mathlib.Core.Bool.{Bool}

-- `lit n k` is the literal n / 10^k, `round k x` is Python's `round(x, k)`.
pub record Float : Type 1 where
  pub F : Type 0
  pub lit : ℕ → ℕ → F
  pub add : F → F → F
  pub sub : F → F → F
  pub mul : F → F → F
  pub div : F → F → F
  pub pow : F → F → F
  pub neg : F → F
  pub sin : F → F
  pub cos : F → F
  pub asin : F → F
  pub pi : F
  pub radians : F → F
  pub degrees : F → F
  pub le : F → F → Bool
  pub lt : F → F → Bool
  pub round : ℕ → F → F
