-- ===== src/Base/Text.antt =====
-- `str(n)` of a number, for the texts that the code formats.
use Prim.Native.Nat.{ℕ, zero, suc, ◌/◌, ◌%◌}
use Prim.Native.String.{String, ◌++◌}
use mathlib.Core.Path.{◌≡◌, refl}
use hec_mvp.Base.Tests.{ltb, if◌then◌else◌}

abbrev digit : ℕ → String
digit zero = "0"
digit (suc zero) = "1"
digit (suc (suc zero)) = "2"
digit (suc (suc (suc zero))) = "3"
digit (suc (suc (suc (suc zero)))) = "4"
digit (suc (suc (suc (suc (suc zero))))) = "5"
digit (suc (suc (suc (suc (suc (suc zero)))))) = "6"
digit (suc (suc (suc (suc (suc (suc (suc zero))))))) = "7"
digit (suc (suc (suc (suc (suc (suc (suc (suc zero)))))))) = "8"
digit (suc (suc (suc (suc (suc (suc (suc (suc (suc n))))))))) = "9"

-- The fuel is more than the number, and each round divides it by ten.
print : ℕ → ℕ → String
print zero n = ""
print (suc f) n =
    let longer = print f (n / 10) ++ digit (n % 10) in if ltb n 10 then digit n else longer

unfoldable pub str : ℕ → String
unfolding print
str n = print (suc n) n

str_example : str 50000001 ≡ "50000001"
unfolding str
str_example = refl
