-- ===== src/Oracle.antt =====
-- keeper/src/chain/oracle.ts: the price of a pair of tokens from two Chainlink feeds. The contract
-- calls are the record `Feeds`; calls made together by Promise.all are made in their order, so of two
-- failures the first is reported.
pub mod Bounds
pub mod Contract
use zstrategy.Base.{
  ℕ, zero, suc, ◌-◌, ◌*◌, ◌/◌, ◌^◌, Bool, List, [], ◌∷◌, ◌++◌, replicate, ltb, leb, ◌==◌,
  if◌then◌else◌,
}
use zstrategy.Base.Int.{ℤ, pos, negsuc}
use zstrategy.Base.Text.{Text, codes, text_eq}
use zstrategy.Base.Result.{Result, ok, throw, ◌>>=◌}

-- What the registry and the feeds answer; a call that fails throws.
pub record Feeds : Type 0 where
  -- `registry.priceFeeds(token)`
  pub price_feeds : Text → Result Text
  -- the answer of `feed.latestRoundData()`, and `feed.decimals()`
  pub latest_answer : Text → Result ℤ
  pub decimals : Text → Result ℕ

-- ethers.ZeroAddress
abbrev pub zero_address : Text
zero_address = codes "0x" ++ replicate 40 b'0'

abbrev pub max_uint64 : ℕ
max_uint64 = 2 ^ 64 - 1

pub record FeedPrice : Type 0 where
  pub answer : ℕ
  pub decimals : ℕ

unfoldable pub non_positive : Text → Text
non_positive feed = codes "Oracle: non-positive price from feed " ++ feed

unfoldable pub no_feed_in : Text → Text
no_feed_in token = codes "Oracle: no USD feed configured for tokenIn " ++ token

unfoldable pub no_feed_out : Text → Text
no_feed_out token = codes "Oracle: no USD feed configured for tokenOut " ++ token

unfoldable pub negative_exponent : Text
negative_exponent = codes "RangeError: Exponent must be non-negative"

unfoldable pub zero_price : Text
zero_price = codes "Oracle: derived pair price is zero"

unfoldable pub price_overflow : Text
price_overflow = codes "Oracle: pair price overflows uint64"

-- The test of the answer in `fetchFeed`.
abbrev pub positive_answer : Text → ℕ → ℤ → Result FeedPrice
positive_answer feed decimals (pos (suc n)) = ok (record { answer = suc n; decimals = decimals })
positive_answer feed decimals _ = throw (non_positive feed)

-- 10n ** BigInt(18 - decimals), which throws for a negative exponent.
unfoldable pub scale : ℕ → Result ℕ
scale decimals = if ltb 18 decimals then throw negative_exponent else ok (10 ^ (18 - decimals))

-- The two tests of the price.
abbrev pub checked_price : ℕ → Result ℕ
checked_price price =
    if price == 0
    then throw zero_price
    else if ltb max_uint64 price
    then throw price_overflow
    else ok price

-- The arithmetic of `fetchPairPrice` on what the feeds gave.
unfoldable pub derive_price : FeedPrice → FeedPrice → Result ℕ
derive_price feed_in feed_out = do
  scale_in ← scale feed_in.decimals
  scale_out ← scale feed_out.decimals
  checked_price (feed_in.answer * scale_in * 10 ^ feed_out.decimals / (feed_out.answer * scale_out))

module _ (feeds : Feeds) where
  unfoldable pub fetch_feed : Text → Result FeedPrice
  fetch_feed feed = do
    answer ← feeds.latest_answer feed
    decimals ← feeds.decimals feed
    positive_answer feed decimals answer

  -- Both feeds, and the arithmetic on them.
  unfoldable pub price_of_feeds : Text → Text → Result ℕ
  price_of_feeds feed_in_addr feed_out_addr = do
    feed_in ← fetch_feed feed_in_addr
    feed_out ← fetch_feed feed_out_addr
    derive_price feed_in feed_out

  -- The tests of the two addresses.
  unfoldable pub price_of_addresses : Text → Text → Text → Text → Result ℕ
  price_of_addresses token_in token_out feed_in_addr feed_out_addr =
      if text_eq feed_in_addr zero_address
      then throw (no_feed_in token_in)
      else if text_eq feed_out_addr zero_address
      then throw (no_feed_out token_out)
      else price_of_feeds feed_in_addr feed_out_addr

  unfoldable pub fetch_pair_price : Text → Text → Result ℕ
  fetch_pair_price token_in token_out = do
    feed_in_addr ← feeds.price_feeds token_in
    feed_out_addr ← feeds.price_feeds token_out
    price_of_addresses token_in token_out feed_in_addr feed_out_addr
