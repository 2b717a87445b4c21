-- ===== src/Text.antt =====
-- What the command handlers use of Go's libraries strconv, strings, fmt and path/filepath. A string is a
-- list of code points.
pub mod Words
pub mod Numbers
pub mod Paths
use Prim.Native.Char.{code}
use Prim.Native.String as Literal
use recovery_stencil.Prelude.{
  ℕ, zero, suc, ◌+◌, ◌-◌, ◌*◌, ◌/◌, ◌%◌, ◌^◌, Bool, true, false, ◌&&◌, ◌||◌, List, [], ◌∷◌, ◌++◌,
  Option, none, some, Result, ok, err, leb, ltb, ◌==◌, if◌then◌else◌,
}
use recovery_stencil.Prelude.Int.{ℤ, pos, negsuc}
use recovery_stencil.Repl.{String}

-- the code points of a literal
abbrev pub codes : Literal.String → String
codes Literal.String.[] = []
codes (Literal.String.◌∷◌ c s) = code c ∷ codes s

-- the decimal digits of a number below 10 ^ (f + 1), in front of `out`
unfoldable pub digits : ℕ → ℕ → String → String
digits zero n out = (48 + n) ∷ out
digits (suc f) n out =
    let more = digits f (n / 10) ((48 + n % 10) ∷ out) in if ltb n 10 then (48 + n) ∷ out else more

-- the verb %v at an int64, whose magnitude has 19 digits
unfoldable pub itoa : ℤ → String
unfolding digits
itoa (pos n) = digits 18 n []
itoa (negsuc n) = 45 ∷ digits 18 (n + 1) []

abbrev pub is_digit : ℕ → Bool
is_digit c = leb 48 c && leb c 57

-- the number that digits spell, behind `n`; none where another character stands
unfoldable pub scan_digits : String → ℕ → Option ℕ
scan_digits [] n = some n
scan_digits (c ∷ s) n =
    let rest = scan_digits s (n * 10 + (c - 48)) in if is_digit c then rest else none

-- why Atoi refuses a text
pub data NumError : Type 0 where
  syntax range : NumError

unfoldable pub unsigned : String → Option ℕ
unfolding scan_digits
unsigned [] = none
unsigned (c ∷ s) = scan_digits (c ∷ s) 0

abbrev pub positive : Option ℕ → Result NumError ℤ
positive none = err syntax
positive (some n) = if ltb n (2 ^ 63) then ok (pos n) else err range

abbrev pub negative : Option ℕ → Result NumError ℤ
negative none = err syntax
negative (some zero) = ok (pos 0)
negative (some (suc n)) = if ltb n (2 ^ 63) then ok (negsuc n) else err range

-- strconv.Atoi
unfoldable pub atoi : String → Result NumError ℤ
unfolding scan_digits
atoi [] = err syntax
atoi (c ∷ s) =
    if c == 45
    then negative (unsigned s)
    else if c == 43
    then positive (unsigned s)
    else positive (unsigned (c ∷ s))
