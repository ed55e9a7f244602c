-- ===== src/Base/Decimal.antt =====
-- `str` and `int` of Python's integers, in decimal.
use Prim.Native.Nat.{ℕ, zero, suc, ◌/◌, ◌%◌}
use Prim.Native.Char.{Char}
use Prim.Native.String.{String}
use Prim.Native.String
use mathlib.Core.Path.{◌≡◌, refl}
use ad_artifacts.Base.Tests.{ltb, if◌then◌else◌}
use ad_artifacts.Base.Int.{ℤ, pos, negsuc}

digit : ℕ → Char
digit zero = "0"
digit (suc zero) = "1"
digit (suc (suc zero)) = "2"
digit (suc (suc (suc zero))) = "3"
digit (suc (suc (suc (suc zero)))) = "4"
digit (suc (suc (suc (suc (suc zero))))) = "5"
digit (suc (suc (suc (suc (suc (suc zero)))))) = "6"
digit (suc (suc (suc (suc (suc (suc (suc zero))))))) = "7"
digit (suc (suc (suc (suc (suc (suc (suc (suc zero)))))))) = "8"
digit _ = "9"

-- The fuel is the number itself: a number has fewer digits than its value, or one.
digits_onto : ℕ → ℕ → String → String
digits_onto zero n acc = String.◌∷◌ (digit (n % 10)) acc
digits_onto (suc fuel) n acc =
    let more = digits_onto fuel (n / 10) (String.◌∷◌ (digit (n % 10)) acc) in
    if ltb n 10 then String.◌∷◌ (digit n) acc else more

unfoldable pub show_ℕ : ℕ → String
unfolding digits_onto digit
show_ℕ n = digits_onto n n ""

unfoldable pub show_ℤ : ℤ → String
unfolding show_ℕ
show_ℤ (pos n) = show_ℕ n
show_ℤ (negsuc n) = String.◌++◌ "-" (show_ℕ (suc n))

show_ℕ_runs : show_ℕ 1203 ≡ "1203"
unfolding show_ℕ
show_ℕ_runs = refl
