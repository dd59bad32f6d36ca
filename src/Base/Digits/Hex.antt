-- ===== src/Base/Digits/Hex.antt =====
-- Bytes in hexadecimal, as `Buffer` and the program's `bytesToHex` write and read them.
use zstrategy.Base.Digits.{print, digit, digit_value, digit_value-digit, pad_start}
use Prim.Native.Nat.{ℕ, zero, suc, ◌+◌, ◌*◌, ◌/◌, ◌%◌, ◌<◌}
use mathlib.Core.Path.{◌≡◌, refl}
use mathlib.Core.Bool.{Bool, true, ◌&&◌}
use mathlib.Core.Option.{Option, none, some}
use mathlib.Core.List.{List, [], ◌∷◌, ◌++◌}
use native.Mathlib.Omega.{arith}
use zstrategy.Base.Lists.{All, length}
use zstrategy.Base.Text.{Text, text_eq, text_eq_sound}

-- `b.toString(16).padStart(2, "0")`
unfoldable pub byte_hex : ℕ → Text
byte_hex b = pad_start 2 b'0' (print 16 b)

-- The loop of `bytesToHex`, and `Buffer.from(bytes).toString("hex")`.
unfoldable pub bytes_to_hex : List ℕ → Text
bytes_to_hex [] = []
bytes_to_hex (b ∷ bytes) = byte_hex b ++ bytes_to_hex bytes

abbrev pair_value : Option ℕ → Option ℕ → Option ℕ
pair_value (some hi) (some lo) = some (hi * 16 + lo)
pair_value _ _ = none

-- `Buffer.from(text, "hex")` reads pairs of digits up to the first that is none, or to the end.
unfoldable pub bytes_of_hex : Text → List ℕ
bytes_of_hex [] = []
bytes_of_hex (c ∷ []) = []
bytes_of_hex (c ∷ d ∷ s) = elim (pair_value (digit_value c) (digit_value d)) [
  | none ↦ []
  | some b ↦ b ∷ bytes_of_hex s
]

abbrev pub IsBytes : List ℕ → Type 0
IsBytes bytes = All (λ b. b < 256) bytes

byte_hex_table : ℕ → Bool
byte_hex_table zero = true
byte_hex_table (suc b) =
    text_eq (byte_hex b) (digit (b / 16) ∷ digit (b % 16) ∷ []) && byte_hex_table b

byte_hex_table_sound :
    (n b : ℕ)
    → byte_hex_table n ≡ true
    → b < n
    → text_eq (byte_hex b) (digit (b / 16) ∷ digit (b % 16) ∷ []) ≡ true
unfolding byte_hex_table
byte_hex_table_sound zero b h lt = absurd (omega arith)
byte_hex_table_sound (suc n) b h lt = ground (arith, byte_hex_table_sound n b)

byte_hex_table_holds : byte_hex_table 256 ≡ true
unfolding byte_hex_table byte_hex print digit text_eq
byte_hex_table_holds = refl

pub byte_hex_lem : (b : ℕ) → b < 256 → byte_hex b ≡ digit (b / 16) ∷ digit (b % 16) ∷ []
byte_hex_lem b h = text_eq_sound _ _ (byte_hex_table_sound 256 b byte_hex_table_holds h)

-- Reading the hexadecimal form of bytes gives the bytes back.
pub bytes_of_hex-bytes_to_hex :
    (bytes : List ℕ) → IsBytes bytes → bytes_of_hex (bytes_to_hex bytes) ≡ bytes
unfolding bytes_to_hex bytes_of_hex
bytes_of_hex-bytes_to_hex [] h = refl
bytes_of_hex-bytes_to_hex (b ∷ bytes) (hb, h) = rw (byte_hex_lem b hb) (
    ground (
      arith,
      digit_value-digit (b / 16) (omega arith),
      digit_value-digit (b % 16) (omega arith),
      bytes_of_hex-bytes_to_hex bytes h,
    ))

pub length-bytes_to_hex :
    (bytes : List ℕ) → IsBytes bytes → length (bytes_to_hex bytes) ≡ 2 * length bytes
unfolding bytes_to_hex
length-bytes_to_hex [] h = omega arith
length-bytes_to_hex (b ∷ bytes) (hb, h) =
    rw (byte_hex_lem b hb) (omega (arith, length-bytes_to_hex bytes h))
