-- ===== src/Base/Numerals.antt =====
-- `int` of a text: blanks around it, a sign, decimal digits, and single underscores between digits. The
-- digits and blanks are those of ASCII.
use Prim.Native.Nat.{ℕ, zero, suc, ◌+◌, ◌-◌, ◌*◌}
use Prim.Native.Char.{code}
use Prim.Native.String.{String}
use mathlib.Core.Path.{◌≡◌, refl}
use mathlib.Core.Bool.{Bool, true, false, ◌&&◌, ◌||◌}
use mathlib.Core.Option.{Option, none, some}
use mathlib.Core.Option
use ad_artifacts.Base.Tests.{leb, eqb, if◌then◌else◌}
use ad_artifacts.Base.Int.{ℤ, pos, negsuc}

abbrev pub is_digit : ℕ → Bool
is_digit n = leb 48 n && leb n 57

abbrev pub is_blank : ℕ → Bool
is_blank n = eqb n 32 || leb 9 n && leb n 13 || leb 28 n && leb n 31

unfoldable pub all_blank : String → Bool
all_blank String.[] = true
all_blank (String.◌∷◌ c s) = is_blank (code c) && all_blank s

-- The digits from here on; `last` says whether a digit stands right before.
unfoldable pub parse_digits : Bool → ℕ → String → Option ℕ
parse_digits last value String.[] = if last then some value else none
parse_digits last value (String.◌∷◌ c s) = elim (is_digit (code c)) [
  | true ↦ parse_digits true (value * 10 + (code c - 48)) s
  | false ↦ elim (last && eqb (code c) 95) [
    | true ↦ parse_digits false value s
    | false ↦ if last && is_blank (code c) && all_blank s then some value else none
  ]
]

unfoldable pub neg : ℕ → ℤ
neg zero = pos 0
neg (suc n) = negsuc n

-- An underscore right after the sign is refused, as after no digit.
unfoldable pub parse_signed : String → Option ℤ
parse_signed String.[] = none
parse_signed (String.◌∷◌ c s) =
    if eqb (code c) 45
    then Option.map neg (parse_digits false 0 s)
    else if eqb (code c) 43
    then Option.map pos (parse_digits false 0 s)
    else Option.map pos (parse_digits false 0 (String.◌∷◌ c s))

-- int(text), none where it raises
unfoldable pub parse_int : String → Option ℤ
parse_int String.[] = none
parse_int (String.◌∷◌ c s) = elim (is_blank (code c)) [
  | true ↦ parse_int s
  | false ↦ parse_signed (String.◌∷◌ c s)
]

parse_int_runs : parse_int " -1_203 " ≡ some (negsuc 1202)
unfolding parse_int parse_signed parse_digits all_blank neg
parse_int_runs = refl
