-- ===== src/Commitment/Draws.antt =====
-- When randomBytes32 ends, and with which draw (frontend/src/lib/commitment.ts).
use zstrategy.Base.{
  ◌*◌, ◌/◌, ◌%◌, sym, All, length, ltb, lt→ltb, ltb→lt, or-eq-false, ℕ, zero, suc, ◌+◌, ◌≤◌, ◌<◌,
  Bool, true, false, List, [], ◌∷◌, ◌++◌, some, any, ◌≡◌, refl, ap, ◌∙◌, arith, inl, inr,
  Bool-cases,
}
use zstrategy.Base.Text.{Text, codes}
use zstrategy.Base.Int.{pos}
use zstrategy.Base.Digits.{digit, read_digits, read_digits-cons}
use zstrategy.Base.Digits.Hex.{bytes_to_hex, byte_hex_lem, IsBytes, length-bytes_to_hex}
use zstrategy.Base.Result.{ok}
use zstrategy.Commitment.Field.{big_int-digits}
use zstrategy.Js.{text, big_int}
use zstrategy.Commitment.{bn254_field_modulus, below_modulus, random_bytes32}

-- The text of 32 bytes that are drawn, and whether it is below the modulus.
abbrev pub drawn : List ℕ → Text
drawn bytes = codes "0x" ++ bytes_to_hex bytes

abbrev is_accepted : List ℕ → Bool
is_accepted bytes = below_modulus (big_int (text (drawn bytes)))

-- The draws from the i-th on, so many of them.
abbrev pub draws : (ℕ → List ℕ) → ℕ → ℕ → List (List ℕ)
draws draw i zero = []
draws draw i (suc n) = draw i ∷ draws draw (suc i) n

-- What a call of the loop from the i-th draw on ends with.
abbrev Ends : (ℕ → List ℕ) → ℕ → ℕ → ℕ → Type 0
Ends draw i k fuel =
    (j : ℕ) × (j ≤ k)
    × (random_bytes32 draw i fuel ≡ some (drawn (draw (i + j))))
    × (is_accepted (draw (i + j)) ≡ true)
    × (any is_accepted (draws draw i j) ≡ false)

Ends-now :
    (draw : ℕ → List ℕ) (i k fuel : ℕ) → is_accepted (draw i) ≡ true → Ends draw i k (suc fuel)
unfolding random_bytes32
Ends-now draw i k fuel first =
    let e : i + 0 ≡ i = omega arith in
    (
      0,
      omega arith,
      rw first (ap (λ z. some (drawn (draw z))) (omega arith)),
      ap (λ z. is_accepted (draw z)) e ∙ first,
      refl,
    )

Ends-later :
    (draw : ℕ → List ℕ) (i k fuel : ℕ)
    → is_accepted (draw i) ≡ false
    → Ends draw (suc i) k fuel
    → Ends draw i (suc k) (suc fuel)
unfolding random_bytes32
Ends-later draw i k fuel refused (j, le, gives, accepted, before) =
    let e : suc i + j ≡ i + suc j = omega arith in
    (
      suc j,
      omega (arith, le),
      rw refused (gives ∙ ap (λ z. some (drawn (draw z))) e),
      ap (λ z. is_accepted (draw z)) (omega arith) ∙ accepted,
      rw refused before,
    )

random_bytes32_loop :
    (draw : ℕ → List ℕ) (i k fuel : ℕ)
    → k < fuel
    → is_accepted (draw (i + k)) ≡ true
    → Ends draw i k fuel
random_bytes32_loop draw i k zero lt accepted = absurd (omega arith)
random_bytes32_loop draw i zero (suc fuel) lt accepted =
    Ends-now draw i zero fuel (ap (λ z. is_accepted (draw z)) (omega arith) ∙ accepted)
random_bytes32_loop draw i (suc k) (suc fuel) lt accepted =
    elim (Bool-cases (is_accepted (draw i))) [
      | inl first ↦ Ends-now draw i (suc k) fuel first
      | inr refused ↦ Ends-later draw i k fuel refused (
          random_bytes32_loop draw (suc i) k fuel (omega (arith, lt))
            (ap (λ z. is_accepted (draw z)) (omega arith) ∙ accepted))
    ]

-- The number whose bytes these are, the first the highest, after the number `acc`.
abbrev pub bytes_value : ℕ → List ℕ → ℕ
bytes_value acc [] = acc
bytes_value acc (b ∷ bytes) = bytes_value (256 * acc + b) bytes

-- What `crypto.getRandomValues` can fill an array of 32 bytes with.
abbrev pub IsDraw : List ℕ → Type 0
IsDraw bytes = IsBytes bytes × (length bytes ≡ 32)

read_digits-bytes_to_hex :
    (acc : ℕ) (bytes : List ℕ)
    → IsBytes bytes
    → read_digits 16 acc (bytes_to_hex bytes) ≡ some (bytes_value acc bytes)
unfolding bytes_to_hex
read_digits-bytes_to_hex acc [] h = unfold read_digits in refl
read_digits-bytes_to_hex acc (b ∷ bytes) (hb, h) =
    let e : (acc * 16 + b / 16) * 16 + b % 16 ≡ 256 * acc + b = omega arith in
    rw (byte_hex_lem b hb) (
      read_digits-cons 16 acc (b / 16) (digit (b % 16) ∷ bytes_to_hex bytes) (omega arith)
        (omega (arith, hb))
      ∙ read_digits-cons 16 (acc * 16 + b / 16) (b % 16) (bytes_to_hex bytes) (omega arith)
          (omega arith)
      ∙ ap (λ z. read_digits 16 z (bytes_to_hex bytes)) e
      ∙ read_digits-bytes_to_hex (256 * acc + b) bytes h)

big_int-drawn :
    (bytes : List ℕ) → IsDraw bytes → big_int (text (drawn bytes)) ≡ ok (pos (bytes_value 0 bytes))
big_int-drawn bytes (h, n) =
    big_int-digits (bytes_to_hex bytes) (bytes_value 0 bytes)
      (omega (arith, length-bytes_to_hex bytes h)) (read_digits-bytes_to_hex 0 bytes h)

below_modulus_lem : (n : ℕ) → below_modulus (ok (pos n)) ≡ ltb n bn254_field_modulus
below_modulus_lem n = ground arith

is_accepted_lem :
    (bytes : List ℕ)
    → IsDraw bytes
    → is_accepted bytes ≡ ltb (bytes_value 0 bytes) bn254_field_modulus
is_accepted_lem bytes h =
    ap below_modulus (big_int-drawn bytes h) ∙ below_modulus_lem (bytes_value 0 bytes)

above : (n m : ℕ) → ltb n m ≡ false → m ≤ n
above n m h = ground arith

refused_before :
    (draw : ℕ → List ℕ) (draws_bytes : (i : ℕ) → IsDraw (draw i)) (i j : ℕ)
    → any is_accepted (draws draw i j) ≡ false
    → All (λ bytes. bn254_field_modulus ≤ bytes_value 0 bytes) (draws draw i j)
refused_before draw draws_bytes i zero h = tt
refused_before draw draws_bytes i (suc j) h =
    let (first, rest) =
      or-eq-false (is_accepted (draw i)) (any is_accepted (draws draw (suc i) j)) h in
    (
      above (bytes_value 0 (draw i)) bn254_field_modulus
          (sym (is_accepted_lem (draw i) (draws_bytes i)) ∙ first),
      refused_before draw draws_bytes (suc i) j rest,
    )

-- When every draw is 32 bytes, the number of some draw is below the modulus of the field, and the draws are looked at
-- until then or further, `randomBytes32` ends at the latest with that draw. It gives "0x" and the digits of a draw that
-- is not later, which `BigInt` reads as the number of that draw's bytes; this number is below the modulus, and that of
-- no draw before it is.
pub random_bytes32_ends :
    (draw : ℕ → List ℕ) (draws_bytes : (i : ℕ) → IsDraw (draw i)) (i k fuel : ℕ)
    → k < fuel
    → bytes_value 0 (draw (i + k)) < bn254_field_modulus
    → (j : ℕ) × (j ≤ k)
      × (random_bytes32 draw i fuel ≡ some (drawn (draw (i + j))))
      × (big_int (text (drawn (draw (i + j)))) ≡ ok (pos (bytes_value 0 (draw (i + j)))))
      × (bytes_value 0 (draw (i + j)) < bn254_field_modulus)
      × All (λ bytes. bn254_field_modulus ≤ bytes_value 0 bytes) (draws draw i j)
random_bytes32_ends draw draws_bytes i k fuel lt small =
    let (j, le, gives, accepted, before) = random_bytes32_loop draw i k fuel lt (
      is_accepted_lem (draw (i + k)) (draws_bytes (i + k))
      ∙ lt→ltb (bytes_value 0 (draw (i + k))) bn254_field_modulus small) in
    (
      j,
      le,
      gives,
      big_int-drawn (draw (i + j)) (draws_bytes (i + j)),
      ltb→lt (bytes_value 0 (draw (i + j))) bn254_field_modulus
          (sym (is_accepted_lem (draw (i + j)) (draws_bytes (i + j))) ∙ accepted),
      refused_before draw draws_bytes i j before,
    )
