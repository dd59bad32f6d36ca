-- ===== src/Commitment/Field.antt =====
-- Hashes and secrets as canonical field elements (frontend/src/lib/commitment.ts).
use zstrategy.Base.{ℕ, ◌<◌, ◌%◌, [], ◌∷◌, ◌++◌, some, length, ◌≡◌, refl, ap, ◌∙◌, arith}
use zstrategy.Base.Int.{pos}
use zstrategy.Base.Text.{Text, codes}
use zstrategy.Base.Digits.{print, pad_start, read_digits, read_digits-pad_start, length-pad_start}
use zstrategy.Base.Result.{ok}
use zstrategy.Js.{text, big_int}
use zstrategy.Js.Literal.{big_int-hex}
use zstrategy.Commitment.{bn254_field_modulus, remainder_text, reduce_to_field}

-- The 64 digits of a number below the modulus.
abbrev field_digits : ℕ → Text
field_digits n = pad_start 64 b'0' (print 16 (n % bn254_field_modulus))

reduce_to_field-eq :
    (value : Text) (n : ℕ)
    → big_int (text value) ≡ ok (pos n)
    → reduce_to_field value ≡ ok (codes "0x" ++ field_digits n)
unfolding reduce_to_field remainder_text
reduce_to_field-eq value n h = rw h refl

length-field_digits : (n : ℕ) → length (field_digits n) ≡ 64
length-field_digits n = length-pad_start 16 (n % bn254_field_modulus) 63 (omega arith) (omega arith)

pub big_int-digits :
    (s : Text) (n : ℕ)
    → 0 < length s
    → read_digits 16 0 s ≡ some n
    → big_int (text (codes "0x" ++ s)) ≡ ok (pos n)
big_int-digits [] n lt h = absurd (omega arith)
big_int-digits (c ∷ s) n lt h = big_int-hex c n s h

big_int-field_digits :
    (n : ℕ) → big_int (text (codes "0x" ++ field_digits n)) ≡ ok (pos (n % bn254_field_modulus))
big_int-field_digits n =
    big_int-digits (field_digits n) (n % bn254_field_modulus) (omega (arith, length-field_digits n))
      (read_digits-pad_start 16 64 (n % bn254_field_modulus) (omega arith) (omega arith))

mod-mod : (n : ℕ) → (n % bn254_field_modulus) % bn254_field_modulus ≡ n % bn254_field_modulus
mod-mod n = omega arith

-- For a text that `BigInt` reads as a number n that is not negative, `reduceToField` gives "0x" and 64 digits;
-- `BigInt` reads these as n modulo the order of the field, which is below it; and reducing the result again
-- gives it back.
pub reduce_to_field_lem :
    (value : Text) (n : ℕ)
    → big_int (text value) ≡ ok (pos n)
    → (h : Text) × (reduce_to_field value ≡ ok h)
      × (length h ≡ 66)
      × (big_int (text h) ≡ ok (pos (n % bn254_field_modulus)))
      × (n % bn254_field_modulus < bn254_field_modulus)
      × (reduce_to_field h ≡ ok h)
reduce_to_field_lem value n e = (
  codes "0x" ++ field_digits n,
  reduce_to_field-eq value n e,
  omega (arith, length-field_digits n),
  big_int-field_digits n,
  omega arith,
  reduce_to_field-eq (codes "0x" ++ field_digits n) (n % bn254_field_modulus)
        (big_int-field_digits n)
      ∙ ap (λ m. ok (codes "0x" ++ pad_start 64 b'0' (print 16 m))) (mod-mod n),
)
