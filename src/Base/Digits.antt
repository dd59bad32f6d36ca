-- ===== src/Base/Digits.antt =====
-- Numbers as text: `toString(base)`, the digits that `BigInt` reads, `padStart`, and bytes in hexadecimal.
pub mod Hex
use Prim.Native.Nat.{ℕ, zero, suc, ◌+◌, ◌-◌, ◌*◌, ◌/◌, ◌%◌, ◌^◌, ◌≤◌, ◌<◌}
use mathlib.Core.Path.{◌≡◌, refl, ap, ◌∙◌}
use mathlib.Core.Logic.{inl, inr}
use mathlib.Core.Bool.{Bool, true, false, ◌&&◌}
use mathlib.Core.Option.{Option, none, some}
use mathlib.Core.List.{List, [], ◌∷◌, ◌++◌}
use native.Mathlib.Omega.{arith}
use native.Mathlib.Nat.{div-lt_self, div-lt_iff_lt-mul, pow-suc, pow-zero, div-add-mod'}
use zstrategy.Base.Tests.{ltb, leb, if◌then◌else◌, Bool-cases, Option-cases, ltb→lt}
use zstrategy.Base.Lists.{length, replicate, length-append, length-replicate}
use zstrategy.Base.Text.{Text}

-- The digit of a value below 16, in lower case, and the value of a digit in either case.
unfoldable pub digit : ℕ → ℕ
digit d = if ltb d 10 then 48 + d else 87 + d

unfoldable pub digit_value : ℕ → Option ℕ
digit_value c =
    if leb 48 c && leb c 57
    then some (c - 48)
    else if leb 97 c && leb c 102
    then some (c - 87)
    else if leb 65 c && leb c 70
    then some (c - 55)
    else none

pub digit_value-digit : (d : ℕ) → d < 16 → digit_value (digit d) ≡ some d
unfolding digit digit_value
digit_value-digit d h = ground arith

div_smaller : (base n fuel : ℕ) → 2 ≤ base → ltb n base ≡ false → n < suc fuel → n / base < fuel
div_smaller base n fuel lo big h =
    let le : base ≤ n = ground arith in
    let lt : n / base < n = div-lt_self (omega arith) (omega arith) in omega arith

div-lt-pow : (base n k : ℕ) → 2 ≤ base → n < base ^ suc (suc k) → n / base < base ^ suc k
div-lt-pow base n k lo h = (div-lt_iff_lt-mul (omega arith)).1 (rw pow-suc at h)

print_fuel : ℕ → ℕ → ℕ → Text
print_fuel zero base n = []
print_fuel (suc fuel) base n =
    let front = print_fuel fuel base (n / base) in
    if ltb n base then digit n ∷ [] else front ++ digit (n % base) ∷ []

-- `n.toString(base)`: a number has fewer digits than its successor, so that is enough fuel.
unfoldable pub print : ℕ → ℕ → Text
unfolding print_fuel digit
print base n = print_fuel (suc n) base n

abbrev step : ℕ → ℕ → Option ℕ → Option ℕ
step base acc none = none
step base acc (some d) = if ltb d base then some (acc * base + d) else none

-- The digits of a text in a base, after the number `acc`; `none` at another character.
unfoldable pub read_digits : ℕ → ℕ → Text → Option ℕ
read_digits base acc [] = some acc
read_digits base acc (c ∷ s) = elim (step base acc (digit_value c)) [
  | none ↦ none
  | some acc' ↦ read_digits base acc' s
]

pub read_digits-cons :
    (base acc d : ℕ) (s : Text)
    → base ≤ 16
    → d < base
    → read_digits base acc (digit d ∷ s) ≡ read_digits base (acc * base + d) s
unfolding read_digits
read_digits-cons base acc d s hb hd = ground (arith, digit_value-digit d)

read_digits-nil : (base acc n : ℕ) → acc ≡ n → read_digits base acc [] ≡ some n
unfolding read_digits
read_digits-nil base acc n e = ap some e

none-ne-some : {v : ℕ} → ◌≡◌ {A = Option ℕ} none (some v) → ⊥
none-ne-some h = cc

pub read_digits-append :
    (base acc : ℕ) (s t : Text) {v : ℕ}
    → read_digits base acc s ≡ some v
    → read_digits base acc (s ++ t) ≡ read_digits base v t
unfolding read_digits
read_digits-append base acc [] t h = ground arith
read_digits-append base acc (c ∷ s) t {v} h = elim (Option-cases (step base acc (digit_value c))) [
  | inl bad ↦ absurd (none-ne-some (rw (bad, read_digits) at h))
  | inr (acc', good) ↦
      rw (good, read_digits) (read_digits-append base acc' s t (rw (good, read_digits) at h))
]

-- A text that reads as a number starts with a digit, and its rest reads as the number from there.
pub read_digits-uncons :
    (base acc c v : ℕ) (s : Text)
    → read_digits base acc (c ∷ s) ≡ some v
    → (d : ℕ) × (acc' : ℕ) × (digit_value c ≡ some d) × (read_digits base acc' s ≡ some v)
unfolding read_digits
read_digits-uncons base acc c v s h = elim (Option-cases (digit_value c)) [
  | inl none_there ↦ absurd (none-ne-some (rw (none_there, read_digits) at h))
  | inr (d, found) ↦ elim (Option-cases (step base acc (some d))) [
    | inl bad ↦ absurd (none-ne-some (rw (found, bad, read_digits) at h))
    | inr (acc', good) ↦ (d, acc', found, rw (found, good, read_digits) at h)
  ]
]

read_digits-print_fuel :
    (fuel base n : ℕ)
    → 2 ≤ base
    → base ≤ 16
    → n < fuel
    → read_digits base 0 (print_fuel fuel base n) ≡ some n
unfolding print_fuel
read_digits-print_fuel zero base n lo hi h = absurd (omega arith)
read_digits-print_fuel (suc fuel) base n lo hi h = elim (Bool-cases (ltb n base)) [
  | inl small ↦ rw small (
      read_digits-cons base 0 n [] hi (ltb→lt n base small)
      ∙ read_digits-nil base (0 * base + n) n (omega arith))
  | inr big ↦ rw big (
      read_digits-append base 0 _ _
        (read_digits-print_fuel fuel base (n / base) lo hi (div_smaller base n fuel lo big h))
      ∙ read_digits-cons base (n / base) (n % base) [] hi (omega arith)
      ∙ read_digits-nil base _ n (div-add-mod' n base))
]

-- Reading the digits that `toString` printed gives the number back.
pub read_digits-print :
    (base n : ℕ) → 2 ≤ base → base ≤ 16 → read_digits base 0 (print base n) ≡ some n
unfolding print
read_digits-print base n lo hi = read_digits-print_fuel (suc n) base n lo hi (omega arith)

-- `s.padStart(width, c)`
abbrev pub pad_start : ℕ → ℕ → Text → Text
pad_start width c s = replicate (width - length s) c ++ s

read_digits-zeros :
    (base k : ℕ) (s : Text)
    → 0 < base
    → read_digits base 0 (replicate k b'0' ++ s) ≡ read_digits base 0 s
unfolding read_digits digit_value
read_digits-zeros base zero s h = refl
read_digits-zeros base (suc k) s h = ground (arith, read_digits-zeros base k s h)

pub read_digits-pad_start :
    (base width n : ℕ)
    → 2 ≤ base
    → base ≤ 16
    → read_digits base 0 (pad_start width b'0' (print base n)) ≡ some n
read_digits-pad_start base width n lo hi =
    read_digits-zeros base (width - length (print base n)) (print base n) (omega arith)
    ∙ read_digits-print base n lo hi

one_digit : (base n : ℕ) → n < base ^ 1 → n < base
one_digit base n h =
    let e : base ^ 1 ≡ base ^ 0 * base = pow-suc base 0 in
    let e' : base ^ 0 ≡ 1 = pow-zero base in
    let e'' : base ^ 1 ≡ 1 * base = rw (e, e') refl in omega arith

-- A number below base ^ k has at most k digits, if k is not 0.
length-print_fuel :
    (fuel base n k : ℕ) → 2 ≤ base → n < base ^ suc k → length (print_fuel fuel base n) ≤ suc k
unfolding print_fuel
length-print_fuel zero base n k lo h = omega arith
length-print_fuel (suc fuel) base n zero lo h =
    let h' : n < base = one_digit base n h in ground arith
length-print_fuel (suc fuel) base n (suc k) lo h = ground (
  arith,
  length-print_fuel fuel base (n / base) k lo (div-lt-pow base n k lo h),
  length-append {0} {A = ℕ} (print_fuel fuel base (n / base)) (digit (n % base) ∷ []),
)

pub length-print : (base n k : ℕ) → 2 ≤ base → n < base ^ suc k → length (print base n) ≤ suc k
unfolding print
length-print base n k lo h = length-print_fuel (suc n) base n k lo h

pub length-pad_start :
    (base n k : ℕ)
    → 2 ≤ base
    → n < base ^ suc k
    → length (pad_start (suc k) b'0' (print base n)) ≡ suc k
length-pad_start base n k lo h = omega (
  arith,
  length-append {0} {A = ℕ} (replicate (suc k - length (print base n)) b'0') (print base n),
  length-replicate {0} {A = ℕ} (suc k - length (print base n)) b'0',
  length-print base n k lo h,
)
