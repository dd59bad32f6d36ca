-- ===== src/Scripts/Tokens.antt =====
-- contracts/scripts/return-vault-balances.ts: the lists that it reads from its environment and its files.
pub mod Distinct
pub mod Collected
use zstrategy.Base.{
  ℕ, Bool, true, false, not, List, [], ◌∷◌, ◌++◌, Option, none, some, any, keep, map, if◌then◌else◌,
  ◌==◌,
}
use zstrategy.Base.Text.{Text, codes, text_eq}
use zstrategy.Base.Result.{Result, ok, throw, map_result, ◌>>=◌}
use zstrategy.Js.{Value, text, trim, to_lower_case}
use zstrategy.Scripts.Chain.{Setting, PriceFeed, Deployment}
use zstrategy.Scripts.Settings.{is_set, is_address?, require_address, feeds_or_none}

-- TOKEN_ENV_NAMES
abbrev pub token_env_names : List Text
token_env_names =
    codes "WETH_ADDRESS" ∷ codes "USDC_ADDRESS" ∷ codes "USDT_ADDRESS" ∷ codes "WBTC_ADDRESS" ∷ []

-- `text.split(",")`, after the part that is read so far
split_from : Text → Text → List Text
split_from part [] = part ∷ []
split_from part (c ∷ s) =
    let next = split_from [] s in
    let longer = split_from (part ++ c ∷ []) s in if c == b',' then part ∷ next else longer

abbrev nonempty : Text → Bool
nonempty t = is_set (some t)

-- `.split(",").map((item) => item.trim()).filter(Boolean)`
unfoldable pub items : Text → List Text
unfolding split_from
items t = keep nonempty (map trim (split_from [] t))

-- A `Set` in the order of its insertions.
unfoldable pub add : List Text → Text → List Text
add tokens t = if any (text_eq t) tokens then tokens else tokens ++ t ∷ []

unfoldable pub add_all : List Text → List Text → List Text
unfolding add
add_all tokens [] = tokens
add_all tokens (t ∷ ts) = add_all (add tokens (to_lower_case t)) ts

abbrev pub list_or_none : Option Text → List Text
list_or_none none = []
list_or_none (some t) = items t

abbrev pub feed_tokens : List (Text × PriceFeed) → List (Option Text)
feed_tokens feeds = map (λ f. f.1.token) feeds

module _ (s : Setting) where
  unfoldable pub parse_address_list : Text → Option Text → Result (List Text)
  unfolding items
  parse_address_list label value =
      map_result (λ t. require_address s label (some t)) (list_or_none value)

  -- The addresses among texts that may be undefined.
  abbrev pub addresses : List (Option Text) → List Text
  addresses [] = []
  addresses (none ∷ ts) = addresses ts
  addresses (some t ∷ ts) =
      let rest = addresses ts in if is_address? s (some t) then t ∷ rest else rest

  -- collectTokenAddresses, with the price feeds of the deployment file
  unfoldable pub collect_token_addresses : List (Text × PriceFeed) → Result (List Text)
  unfolding add_all parse_address_list
  collect_token_addresses feeds = do
    listed ← parse_address_list (codes "WITHDRAW_TOKENS") (s.env (codes "WITHDRAW_TOKENS"))
    ok (
        add_all (add_all (add_all [] listed) (addresses (map s.env token_env_names)))
          (addresses (feed_tokens feeds)))

pub record CancelEntry : Type 0 where
  pub commitment_hash : Text
  pub nullifier : Text

-- What JSON.parse gives for the file of cancellations.
pub data CancelFile : Type 0 where
  no_array : CancelFile
  array : List (Value × Value) → CancelFile

-- `ethers.isHexString(value, 32)`, for texts; other values are none.
module _ (is_bytes32 : Text → Bool) where
  abbrev pub bytes32_or : Text → Value → Result Text
  bytes32_or message (text t) = if is_bytes32 t then ok t else throw message
  bytes32_or message v = throw message

  unfoldable pub parse_bytes32_list : Text → Option Text → Result (List Text)
  unfolding items
  parse_bytes32_list label value =
      map_result
        (λ t. bytes32_or (label ++ codes " contains an invalid bytes32 value: " ++ t) (text t))
        (list_or_none value)

  abbrev pub cancel_entry : Value × Value → Result CancelEntry
  cancel_entry (hash, nullifier) = do
    h ← bytes32_or (codes "cancel entry has invalid commitmentHash") hash
    n ← bytes32_or (codes "cancel entry has invalid nullifier") nullifier
    ok (record { commitment_hash = h; nullifier = n })

  abbrev pub cancel_entries : CancelFile → Result (List CancelEntry)
  cancel_entries no_array = throw (codes "CANCEL_COMMITMENTS_FILE must contain a JSON array")
  cancel_entries (array entries) = map_result cancel_entry entries

  -- `if (!file) return []`, with the content that reading and parsing the named file gives
  unfoldable pub load_cancel_entries :
      (Text → Result CancelFile) → Option Text → Result (List CancelEntry)
  load_cancel_entries read_file none = ok []
  load_cancel_entries read_file (some file) =
      if not (is_set (some file)) then ok [] else (read_file file >>= cancel_entries)
