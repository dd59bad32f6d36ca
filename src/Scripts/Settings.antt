-- ===== src/Scripts/Settings.antt =====
-- contracts/scripts/deploy.ts and redeploy-registry.ts: addresses and price feeds from the environment and from the
-- deployment file.
use zstrategy.Base.{
  Bool, true, false, not, ◌&&◌, ◌||◌, List, [], ◌∷◌, ◌++◌, Option, none, some, if◌then◌else◌,
}
use zstrategy.Base.Text.{Text, codes, text_eq}
use zstrategy.Base.Result.{Result, ok, throw, ◌>>=◌}
use zstrategy.Scripts.Chain.{Setting, PriceFeed}

pub record PriceFeedSpec : Type 0 where
  pub symbol : Text
  pub token_env : Text
  pub feed_env : Text
  pub required : Bool

pub record PriceFeedConfig : Type 0 where
  pub symbol : Text
  pub token : Text
  pub feed : Text

-- PRICE_FEEDS
abbrev pub price_feed_specs : List PriceFeedSpec
price_feed_specs =
    record {
      symbol = codes "WETH";
      token_env = codes "WETH_ADDRESS";
      feed_env = codes "CHAINLINK_PRICE_FEED_WETH_USD";
      required = true;
    }
    ∷ record {
      symbol = codes "USDC";
      token_env = codes "USDC_ADDRESS";
      feed_env = codes "CHAINLINK_PRICE_FEED_USDC_USD";
      required = true;
    }
    ∷ record {
      symbol = codes "USDT";
      token_env = codes "USDT_ADDRESS";
      feed_env = codes "CHAINLINK_PRICE_FEED_USDT_USD";
      required = false;
    }
    ∷ record {
      symbol = codes "WBTC";
      token_env = codes "WBTC_ADDRESS";
      feed_env = codes "CHAINLINK_PRICE_FEED_WBTC_USD";
      required = false;
    }
    ∷ []

-- `a ?? b` for what may be undefined
abbrev pub or_previous : Option Text → Option Text → Option Text
or_previous none b = b
or_previous (some a) b = some a

-- `!!value`
abbrev pub is_set : Option Text → Bool
is_set none = false
is_set (some []) = false
is_set (some (c ∷ t)) = true

-- `process.env[name] === "1"`
abbrev pub is_one : Option Text → Bool
is_one none = false
is_one (some t) = text_eq t (codes "1")

abbrev if_set : Text → Option Text → Result Text
if_set message none = throw message
if_set message (some t) = ok t

module _ (s : Setting) where
  abbrev pub is_address? : Option Text → Bool
  is_address? none = false
  is_address? (some t) = is_set (some t) && s.is_address t

  unfoldable pub require_address : Text → Option Text → Result Text
  require_address label value =
      let message = label ++ codes " is required and must be a valid address" in
      if not (is_address? value) then throw message else if_set message value

  unfoldable pub address_from_env_or_deployment : Text → Text → Option Text → Result Text
  unfolding require_address
  address_from_env_or_deployment env_name deployment_key previous =
      require_address (env_name ++ codes " or deployments." ++ deployment_key)
        (or_previous (s.env env_name) previous)

  -- One round of the loops of collectPriceFeeds, with the feed of the file; `none` for `continue`.
  unfoldable pub feed_config : PriceFeedSpec → PriceFeed → Result (Option PriceFeedConfig)
  unfolding require_address
  feed_config spec previous =
      let token = or_previous (s.env spec.token_env) previous.token in
      let feed = or_previous (s.env spec.feed_env) previous.feed in
      if not (is_set token) && not (is_set feed) && not spec.required
      then ok none
      else if not (is_set token) || not (is_set feed)
      then throw (
          spec.symbol
          ++ codes " requires both "
          ++ spec.token_env
          ++ codes " and "
          ++ spec.feed_env)
      else do
        t ← require_address spec.token_env token
        f ← require_address spec.feed_env feed
        ok (some (record { symbol = spec.symbol; token = t; feed = f }))

  abbrev cons_if : Option PriceFeedConfig → List PriceFeedConfig → List PriceFeedConfig
  cons_if none configs = configs
  cons_if (some c) configs = c ∷ configs

  unfoldable pub collect_from :
      (Text → PriceFeed) → List PriceFeedSpec → Result (List PriceFeedConfig)
  unfolding feed_config
  collect_from previous [] = ok []
  collect_from previous (spec ∷ specs) =
      let rest = collect_from previous specs in
      (do
        config ← feed_config spec (previous spec.symbol)
        configs ← rest
        ok (cons_if config configs))

-- `previousFeeds[symbol] ?? {}`
unfoldable pub feed_of : List (Text × PriceFeed) → Text → PriceFeed
feed_of [] symbol = record { token = none; feed = none }
feed_of ((key, f) ∷ feeds) symbol =
    let rest = feed_of feeds symbol in if text_eq key symbol then f else rest

abbrev pub feeds_or_none : Option (List (Text × PriceFeed)) → List (Text × PriceFeed)
feeds_or_none none = []
feeds_or_none (some feeds) = feeds

-- deploymentPriceFeedMap: `acc[symbol] = …` for each, from an empty object
unfoldable pub put_feed : Text → PriceFeed → List (Text × PriceFeed) → List (Text × PriceFeed)
put_feed symbol f [] = (symbol, f) ∷ []
put_feed symbol f ((key, g) ∷ feeds) =
    let rest = put_feed symbol f feeds in
    if text_eq key symbol then (key, f) ∷ feeds else (key, g) ∷ rest

unfoldable pub price_feed_map :
    List (Text × PriceFeed) → List PriceFeedConfig → List (Text × PriceFeed)
unfolding put_feed
price_feed_map acc [] = acc
price_feed_map acc (c ∷ configs) =
    price_feed_map (put_feed c.symbol (record { token = some c.token; feed = some c.feed }) acc)
      configs
