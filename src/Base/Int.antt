-- ===== src/Base/Int.antt =====
-- Whole numbers with a sign, as the difference of two clock readings.
use mathlib.Core.Path.{◌≡◌}
use Prim.Native.Nat.{ℕ, suc, ◌+◌, ◌-◌, ◌≤◌}
use mathlib.Core.Logic.{◌↔◌}
use mathlib.Core.Bool.{true}
use native.Mathlib.Omega.{arith}
use hec_mvp.Base.Tests.{leb, if◌then◌else◌}

-- `negsuc n` is -(n + 1).
pub data ℤ : Type 0 where
  pos : ℕ → ℤ
  negsuc : ℕ → ℤ

-- a - b
abbrev pub sub_ℕ : ℕ → ℕ → ℤ
sub_ℕ a b = if leb b a then pos (a - b) else negsuc (b - a - 1)

abbrev pub abs : ℤ → ℕ
abs (pos n) = n
abs (negsuc n) = suc n

-- A difference is within a bound when neither number is further from the other.
pub abs-sub_ℕ : (a b k : ℕ) → (leb (abs (sub_ℕ a b)) k ≡ true) ↔ ((a ≤ b + k) × (b ≤ a + k))
abs-sub_ℕ a b k = (λ h. ground arith, λ h. ground arith)
