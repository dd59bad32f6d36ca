-- ===== src/VaultValue.antt =====
-- frontend/src/hooks/useVaultTvl.ts: the feeds that are read for the tokens of the vault, and which of the results belongs
-- to which token. The prices and values are floating-point numbers, which are not modelled: the price of a token
-- is the answer and the decimals that it is computed from.
pub mod Reads
use zstrategy.Base.{
  ℕ, zero, suc, ◌+◌, ◌*◌, Bool, true, false, not, ◌&&◌, List, [], ◌∷◌, ◌++◌, Option, none, some,
  length, take, keep, map, get_elem?, if◌then◌else◌,
}
use zstrategy.Base.Int.{ℤ, pos, ltb_ℤ}
use zstrategy.Base.Text.{Text, codes, text_eq}
use zstrategy.Js.{to_lower_case}

-- What a call of a contract may give.
pub data Output : Type 0 where
  address : Text → Output
  amount : ℕ → Output
  -- the second component of `latestRoundData`
  round_data : ℤ → Output
  small_number : ℕ → Output
  other_output : Output

-- `{ status, result }` of useReadContracts.
pub data Item : Type 0 where
  success : Output → Item
  failure : Item

pub data Call : Type 0 where
  latest_round_data : Text → Call
  decimals : Text → Call

abbrev pub zero_address : Text
zero_address = codes "0x0000000000000000000000000000000000000000"

abbrev pub valid_feed : Item → Option Text
valid_feed (success (address a)) =
    if not (text_eq (to_lower_case a) zero_address) then some a else none
valid_feed _ = none

-- `feedAddresses.data ?? []`
abbrev pub data_or_none : Option (List Item) → List Item
data_or_none none = []
data_or_none (some items) = items

unfoldable pub valid_feeds : Option (List Item) → List (Option Text)
valid_feeds feed_data = map valid_feed (data_or_none feed_data)

-- The two calls for each feed that there is.
unfoldable pub price_calls : List (Option Text) → List Call
price_calls [] = []
price_calls (none ∷ feeds) = price_calls feeds
price_calls (some feed ∷ feeds) = latest_round_data feed ∷ decimals feed ∷ price_calls feeds

abbrev pub is_there : Option Text → Bool
is_there none = false
is_there (some t) = true

abbrev pub read_index : List (Option Text) → ℕ → ℕ
read_index feeds i = length (keep is_there (take i feeds)) * 2

abbrev pub price_of_items : Option Item → Option Item → Option (ℤ × ℕ)
price_of_items (some (success (round_data answer))) (some (success (small_number d))) =
    if ltb_ℤ (pos 0) answer then some (answer, d) else none
price_of_items _ _ = none

-- `priceData?.[i]`
abbrev pub item_at : Option (List Item) → ℕ → Option Item
item_at none i = none
item_at (some items) i = get_elem? items i

abbrev pub price_if : Option (Option Text) → Option (List Item) → ℕ → Option (ℤ × ℕ)
price_if (some (some feed)) price_data k =
    price_of_items (item_at price_data k) (item_at price_data (k + 1))
price_if _ price_data k = none

-- The price of the i-th token; `none` stands for the price zero.
unfoldable pub token_price : List (Option Text) → Option (List Item) → ℕ → Option (ℤ × ℕ)
token_price feeds price_data i = price_if (get_elem? feeds i) price_data (read_index feeds i)

abbrev pub balance_of_item : Option Item → ℕ
balance_of_item (some (success (amount n))) = n
balance_of_item _ = 0

unfoldable pub token_balance : Option (List Item) → ℕ → ℕ
token_balance balance_data i = balance_of_item (item_at balance_data i)
