-- ===== src/Js/Examples.antt =====
-- Runs of `BigInt` on texts.
use zstrategy.Base.{[], ◌≡◌, refl}
use zstrategy.Base.Int.{pos, negsuc}
use zstrategy.Base.Text.{codes}
use zstrategy.Base.Digits.{read_digits, digit_value}
use zstrategy.Base.Result.{ok}
use zstrategy.Js.{text, big_int}

big_int_tests :
    (big_int (text (codes "0x1f")) ≡ ok (pos 31))
    × (big_int (text (codes " -12 ")) ≡ ok (negsuc 11))
    × (big_int (text []) ≡ ok (pos 0))
unfolding big_int read_digits digit_value
big_int_tests = (refl, refl, refl)
