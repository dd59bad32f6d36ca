-- ===== src/Commitment.antt =====
-- frontend/src/lib/commitment.ts and frontend/src/lib/dcaCommitment.ts: the hashes that the browser registers.
-- `keccak256` and `encodePacked` of viem are the record `Hashing`; what they refuse they throw.
pub mod Field
pub mod Draws
use zstrategy.Base.{
  ℕ, zero, suc, ◌%◌, ◌<◌, Bool, false, List, [], ◌∷◌, ◌++◌, Option, none, some, if◌then◌else◌, ◌==◌,
  ltb,
}
use zstrategy.Base.Int.{ℤ, pos, negsuc, ltb_ℤ}
use zstrategy.Base.Text.{Text, codes}
use zstrategy.Base.Digits.{print, pad_start}
use zstrategy.Base.Digits.Hex.{bytes_to_hex}
use zstrategy.Base.Result.{Result, ok, throw, ◌>>=◌}
use zstrategy.Js.{text, big_int}

-- BN254_FIELD_MODULUS
abbrev pub bn254_field_modulus : ℕ
bn254_field_modulus = 21888242871839275222246405745257275088548364400416034343698204186575808495617

-- `x.toString(16)` of the remainder, which takes the sign of the dividend.
unfoldable pub remainder_text : ℤ → Text
remainder_text (pos n) = print 16 (n % bn254_field_modulus)
remainder_text (negsuc n) =
    if (suc n % bn254_field_modulus) == 0
    then codes "0"
    else codes "-" ++ print 16 (suc n % bn254_field_modulus)

unfoldable pub reduce_to_field : Text → Result Text
reduce_to_field value = do
  n ← big_int (text value)
  ok (codes "0x" ++ pad_start 64 b'0' (remainder_text n))

-- A value with its packed type.
pub data Packed : Type 0 where
  address : Text → Packed
  -- an unsigned integer of so many bits
  uint : ℕ → ℤ → Packed
  bytes32 : Text → Packed

pub record Hashing : Type 0 where
  pub keccak256 : Text → Result Text
  pub encode_packed : List Packed → Result Text

pub record PreimageFields : Type 0 where
  pub token_in : Text
  pub token_out : Text
  pub size : ℤ
  pub min_out : ℤ
  pub expiry : ℤ
  pub price : ℤ
  -- 0 for BUY, 1 for SELL
  pub direction : ℤ
  pub nonce : Text
  pub user_secret : Text

pub record DcaPreimageFields : Type 0 where
  pub token_in : Text
  pub token_out : Text
  pub size : ℤ
  pub min_out : ℤ
  pub scheduled_lo : ℤ
  pub scheduled_hi : ℤ
  pub expiry : ℤ
  pub nonce : Text
  pub user_secret : Text

abbrev pub packed_order : PreimageFields → List Packed
packed_order p =
    address p.token_in
    ∷ address p.token_out
    ∷ uint 256 p.size
    ∷ uint 256 p.min_out
    ∷ uint 64 p.expiry
    ∷ uint 64 p.price
    ∷ uint 8 p.direction
    ∷ bytes32 p.nonce
    ∷ bytes32 p.user_secret
    ∷ []

abbrev pub packed_round : DcaPreimageFields → List Packed
packed_round p =
    address p.token_in
    ∷ address p.token_out
    ∷ uint 256 p.size
    ∷ uint 256 p.min_out
    ∷ uint 64 p.scheduled_lo
    ∷ uint 64 p.scheduled_hi
    ∷ uint 64 p.expiry
    ∷ bytes32 p.nonce
    ∷ bytes32 p.user_secret
    ∷ []

module _ (h : Hashing) where
  abbrev pub hash_packed : List Packed → Result Text
  hash_packed fields = h.encode_packed fields >>= h.keccak256

  unfoldable pub commitment_hash : PreimageFields → Result Text
  commitment_hash p = hash_packed (packed_order p) >>= reduce_to_field

  unfoldable pub nullifier_hash : Text → Text → Result Text
  nullifier_hash user_secret nonce =
      hash_packed (bytes32 user_secret ∷ bytes32 nonce ∷ []) >>= reduce_to_field

  unfoldable pub dca_commitment_hash : DcaPreimageFields → Result Text
  dca_commitment_hash p = hash_packed (packed_round p) >>= reduce_to_field

  unfoldable pub dca_nullifier_hash : Text → Text → Result Text
  dca_nullifier_hash user_secret nonce =
      hash_packed (bytes32 user_secret ∷ bytes32 nonce ∷ []) >>= reduce_to_field

  unfoldable pub derive_strategy_id : Text → Text → Result Text
  derive_strategy_id owner nonce = hash_packed (address owner ∷ bytes32 nonce ∷ [])

  unfoldable pub derive_user_secret : Text → Result Text
  derive_user_secret signature = h.keccak256 signature >>= reduce_to_field

unfoldable pub strategy_id_signing_message : Text → Text
strategy_id_signing_message strategy_id =
    codes "zstrategy: derive user_secret for strategyId=" ++ strategy_id

-- The test of a draw of `randomBytes32`.
abbrev pub below_modulus : Result ℤ → Bool
below_modulus (ok z) = ltb_ℤ z (pos bn254_field_modulus)
below_modulus (throw m) = false

-- `randomBytes32`, with the i-th 32 bytes that are drawn and the number of draws that are looked at; `none` when
-- all of these are refused.
unfoldable pub random_bytes32 : (ℕ → List ℕ) → ℕ → ℕ → Option Text
random_bytes32 draw i zero = none
random_bytes32 draw i (suc fuel) =
    let later = random_bytes32 draw (suc i) fuel in
    let hex = codes "0x" ++ bytes_to_hex (draw i) in
    if below_modulus (big_int (text hex)) then some hex else later
