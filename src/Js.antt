-- ===== src/Js.antt =====
-- Values of a JSON request body as the handlers of keeper/src/api/server.ts see them, and the
-- conversions of the language that they use. Numbers are integers: a fraction in a body is outside
-- of the model.
pub mod Literal
pub mod ParseInt
mod Examples
use zstrategy.Base.{
  ℕ, ◌+◌, zero, suc, ◌-◌, Bool, true, false, not, ◌&&◌, ◌||◌, List, [], ◌∷◌, ◌++◌, Option, none,
  some, any, ltb, leb, ◌==◌, if◌then◌else◌,
}
use mathlib.Core.List.{reverse}
use zstrategy.Base.Int.{ℤ, pos, negsuc, sub_ℕ}
use zstrategy.Base.Text.{Text, codes, text_eq}
use zstrategy.Base.Digits.{print, read_digits}
use zstrategy.Base.Result.{Result, ok, throw}

pub data Value : Type 0 where
  undefined null : Value
  boolean : Bool → Value
  number : ℤ → Value
  text : Text → Value
  -- an array or an object, by the text that String(x) gives
  other : Text → Value

-- `if (x)`
abbrev pub truthy : Value → Bool
truthy undefined = false
truthy null = false
truthy (boolean b) = b
truthy (number (pos zero)) = false
truthy (number z) = true
truthy (text []) = false
truthy (text (c ∷ s)) = true
truthy (other s) = true

-- `x ?? d`
abbrev pub or_else : Value → Value → Value
or_else undefined d = d
or_else null d = d
or_else v d = v

abbrev pub is_number : Value → Bool
is_number (number z) = true
is_number _ = false

-- `x === "…"`
abbrev pub is_text : Text → Value → Bool
is_text s (text t) = text_eq t s
is_text s _ = false

unfoldable pub print_int : ℤ → Text
print_int (pos n) = print 10 n
print_int (negsuc n) = codes "-" ++ print 10 (suc n)

-- `${x}`
unfoldable pub text_of : Value → Text
unfolding print_int
text_of undefined = codes "undefined"
text_of null = codes "null"
text_of (boolean true) = codes "true"
text_of (boolean false) = codes "false"
text_of (number z) = print_int z
text_of (text s) = s
text_of (other s) = s

is_space : ℕ → Bool
is_space c =
    leb 9 c && leb c 13
    || c == 32
    || c == 160
    || c == 5760
    || leb 8192 c && leb c 8202
    || c == 8232
    || c == 8233
    || c == 8239
    || c == 8287
    || c == 12288
    || c == 65279

drop_spaces : Text → Text
drop_spaces [] = []
drop_spaces (c ∷ s) = let rest = drop_spaces s in if is_space c then rest else c ∷ s

-- White space at both ends.
unfoldable pub trim : Text → Text
unfolding is_space drop_spaces
trim s = reverse (drop_spaces (reverse (drop_spaces s)))

abbrev negate : ℕ → ℤ
negate n = sub_ℕ 0 n

-- One or more digits.
digits_of : ℕ → Text → Option ℕ
unfolding read_digits
digits_of base [] = none
digits_of base (c ∷ s) = read_digits base 0 (c ∷ s)

abbrev signed : (ℕ → ℤ) → Option ℕ → Result ℤ
signed f none = throw (codes "SyntaxError: Cannot convert to a BigInt")
signed f (some n) = ok (f n)

-- The text without its white space: a prefix of a base, a sign, or decimal digits.
integer_literal : Text → Result ℤ
unfolding digits_of
integer_literal [] = ok (pos 0)
integer_literal (c ∷ []) = signed (λ n. pos n) (digits_of 10 (c ∷ []))
integer_literal (c ∷ d ∷ s) =
    if c == b'0' && (d == b'x' || d == b'X')
    then signed (λ n. pos n) (digits_of 16 s)
    else if c == b'0' && (d == b'o' || d == b'O')
    then signed (λ n. pos n) (digits_of 8 s)
    else if c == b'0' && (d == b'b' || d == b'B')
    then signed (λ n. pos n) (digits_of 2 s)
    else if c == b'-'
    then signed negate (digits_of 10 (d ∷ s))
    else if c == b'+'
    then signed (λ n. pos n) (digits_of 10 (d ∷ s))
    else signed (λ n. pos n) (digits_of 10 (c ∷ d ∷ s))

-- `BigInt(x)`
unfoldable pub big_int : Value → Result ℤ
unfolding integer_literal trim
big_int undefined = throw (codes "TypeError: Cannot convert undefined to a BigInt")
big_int null = throw (codes "TypeError: Cannot convert null to a BigInt")
big_int (boolean true) = ok (pos 1)
big_int (boolean false) = ok (pos 0)
big_int (number z) = ok z
big_int (text s) = integer_literal (trim s)
big_int (other s) = integer_literal (trim s)

abbrev integer_or_nan : Result ℤ → Option ℤ
integer_or_nan (ok z) = some z
integer_or_nan (throw m) = none

-- `Number(x)`, `none` for NaN. A text in another notation than an integer's counts as NaN here: fractions
-- and exponents are outside of the model.
unfoldable pub number_of : Value → Option ℤ
unfolding integer_literal trim
number_of undefined = none
number_of null = some (pos 0)
number_of (boolean true) = some (pos 1)
number_of (boolean false) = some (pos 0)
number_of (number z) = some z
number_of (text s) = integer_or_nan (integer_literal (trim s))
number_of (other s) = integer_or_nan (integer_literal (trim s))

-- `s.toLowerCase()`, of ASCII.
unfoldable pub to_lower_case : Text → Text
to_lower_case [] = []
to_lower_case (c ∷ s) = (if leb 65 c && leb c 90 then c + 32 else c) ∷ to_lower_case s
