-- ===== src/Js/Literal.antt =====
-- `BigInt` of a hexadecimal literal.
use zstrategy.Base.{ℕ, false, [], ◌∷◌, ◌++◌, some, All, ◌≡◌, refl, arith}
use mathlib.Core.List.{reverse, reverse_aux, reverse-reverse}
use zstrategy.Base.Int.{pos}
use zstrategy.Base.Text.{Text, codes}
use zstrategy.Base.Digits.{digit_value, read_digits, read_digits-uncons}
use zstrategy.Base.Result.{ok}
use zstrategy.Js.{is_space, drop_spaces, trim, text, integer_literal, digits_of, big_int}

abbrev IsInk : ℕ → Type 0
IsInk c = is_space c ≡ false

digit-IsInk : (c v : ℕ) → digit_value c ≡ some v → IsInk c
unfolding digit_value is_space
digit-IsInk c v h = ground arith

read_digits-IsInk : (base acc v : ℕ) (s : Text) → read_digits base acc s ≡ some v → All IsInk s
unfolding read_digits
read_digits-IsInk base acc v [] h = tt
read_digits-IsInk base acc v (c ∷ s) h =
    let (d, acc', found, rest) = read_digits-uncons base acc c v s h in
    (digit-IsInk c d found, read_digits-IsInk base acc' v s rest)

reverse_aux-IsInk : (s t : Text) → All IsInk s → All IsInk t → All IsInk (reverse_aux s t)
reverse_aux-IsInk [] t a b = b
reverse_aux-IsInk (c ∷ s) t (h, a) b = reverse_aux-IsInk s (c ∷ t) a (h, b)

drop_spaces-ink : (s : Text) → All IsInk s → drop_spaces s ≡ s
unfolding drop_spaces
drop_spaces-ink [] a = refl
drop_spaces-ink (c ∷ s) (h, a) = rw h refl

trim-ink : (s : Text) → All IsInk s → trim s ≡ s
unfolding trim
trim-ink s a =
    rw (drop_spaces-ink s a, drop_spaces-ink (reverse s) (reverse_aux-IsInk s [] a tt))
      (reverse-reverse s)

-- `BigInt("0x…")` is the number of the hexadecimal digits, if there is one or more.
pub big_int-hex :
    (c n : ℕ) (s : Text)
    → read_digits 16 0 (c ∷ s) ≡ some n
    → big_int (text (codes "0x" ++ c ∷ s)) ≡ ok (pos n)
unfolding big_int integer_literal digits_of is_space
big_int-hex c n s h =
    let ink : All IsInk (codes "0x" ++ c ∷ s) =
      (refl, (refl, read_digits-IsInk 16 0 n (c ∷ s) h)) in
    rw (trim-ink (codes "0x" ++ c ∷ s) ink) (rw h refl)
