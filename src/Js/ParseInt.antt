-- ===== src/Js/ParseInt.antt =====
-- `parseInt(text, 10)`: the integer at the start of a text, `none` for NaN. A number that a double cannot hold is
-- kept exact.
use zstrategy.Base.{ℕ, ◌+◌, ◌*◌, ◌-◌, ◌&&◌, [], ◌∷◌, Option, none, some, leb, ◌==◌, if◌then◌else◌}
use zstrategy.Base.Int.{ℤ, pos, sub_ℕ}
use zstrategy.Base.Text.{Text}
use zstrategy.Js.{trim}

abbrev shifted : Option ℕ → ℕ → Option ℕ
shifted none d = some d
shifted (some n) d = some (10 * n + d)

leading_digits : Option ℕ → Text → Option ℕ
leading_digits acc [] = acc
leading_digits acc (c ∷ s) =
    let rest = leading_digits (shifted acc (c - 48)) s in if leb 48 c && leb c 57 then rest else acc

abbrev with_sign : (ℕ → ℤ) → Option ℕ → Option ℤ
with_sign sign none = none
with_sign sign (some n) = some (sign n)

signed_digits : Text → Option ℤ
unfolding leading_digits
signed_digits [] = none
signed_digits (c ∷ s) =
    if c == b'-'
    then with_sign (λ n. sub_ℕ 0 n) (leading_digits none s)
    else if c == b'+'
    then with_sign pos (leading_digits none s)
    else with_sign pos (leading_digits none (c ∷ s))

unfoldable pub parse_int : Text → Option ℤ
unfolding signed_digits
parse_int t = signed_digits (trim t)
