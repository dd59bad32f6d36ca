-- ===== src/Examples/Value.antt =====
-- Three tokens, of which the second has no feed.
use zstrategy.Base.{List, [], ◌∷◌, Option, some, map, ◌≡◌, refl}
use zstrategy.Base.Int.{pos}
use zstrategy.Base.Text.{Text, codes, text_eq}
use zstrategy.VaultValue.{
  Item, success, address, round_data, small_number, zero_address, Call, latest_round_data, decimals,
  valid_feeds, price_calls, token_price,
}
use zstrategy.Js.{to_lower_case}
use zstrategy.VaultValue.Reads.{token_price_lem}

abbrev answer : Call → Item
answer (latest_round_data feed) = success (round_data (pos 3000))
answer (decimals feed) = success (small_number 8)

abbrev feeds : List (Option Text)
feeds = valid_feeds (
    some (
      success (address (codes "0xf1"))
      ∷ success (address zero_address)
      ∷ success (address (codes "0xf3"))
      ∷ []))

token_price_lem_example :
    token_price feeds (some (map answer (price_calls feeds))) 2 ≡ some (pos 3000, 8)
unfolding valid_feeds text_eq to_lower_case
token_price_lem_example = token_price_lem answer feeds 2 (some (codes "0xf3")) refl
