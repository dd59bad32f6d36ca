-- ===== src/Orders.antt =====
-- frontend/src/app/(dashboard)/orders/page.tsx: the price and the expiry of an order, and what submitting
-- the form does. The numbers that the form parses from texts with floating point, the target price and the
-- minimal output, are fields of the form. The wallet and the other services are the record `OrderPorts`.
pub mod Market
pub mod Registered
use zstrategy.Base.{
  ℕ, zero, suc, ◌+◌, ◌-◌, ◌*◌, ◌^◌, Bool, not, ◌||◌, List, Option, none, some, if◌then◌else◌, ◌==◌,
}
use zstrategy.Base.Int.{ℤ, pos, negsuc}
use zstrategy.Base.Text.{Text}
use zstrategy.Base.Result.{Result, ok, ◌>>=◌}
use zstrategy.Js.{print_int, to_lower_case}
use zstrategy.Request.{Direction, buy, sell}
use zstrategy.Submitter.{direction_number}
use zstrategy.Shares.{Share}
use zstrategy.Keys.{KeeperPubkey}
use zstrategy.Commitment.{
  Hashing, commitment_hash, nullifier_hash, derive_strategy_id, derive_user_secret,
  strategy_id_signing_message,
}
use zstrategy.Dca.{is_zero}

pub data StrategyKind : Type 0 where
  limit market : StrategyKind

pub record OrderForm : Type 0 where
  pub is_connected : Bool
  pub address : Option Text
  pub chain_id : ℕ
  pub kind : StrategyKind
  pub direction : Direction
  pub token_in : Text
  pub token_out : Text
  -- `amountBig`, `minOutBig`, and the target price in units of 10^-8, 0 if it is not positive
  pub amount : ℤ
  pub min_out : ℤ
  pub target_price : ℤ
  -- the second that the form knows, and TIME_IN_FORCE of the chosen option
  pub now : Option ℕ
  pub time_in_force : ℕ
  pub nonce : Text

-- MARKET_PRICE_BUY and MARKET_PRICE_SELL
abbrev pub market_price : Direction → ℤ
market_price buy = pos (2 ^ 64 - 1)
market_price sell = pos 0

unfoldable pub price_big : OrderForm → ℤ
price_big f = elim f.kind [ market ↦ market_price f.direction | limit ↦ f.target_price ]

-- MARKET_EXPIRY_SECONDS
abbrev pub market_expiry_seconds : ℕ
market_expiry_seconds = 10 * 60

abbrev pub expiry_from : StrategyKind → ℕ → Option ℕ → Option ℕ
expiry_from kind tif none = none
expiry_from kind tif (some zero) = none
expiry_from market tif (some (suc n)) = some (suc n + market_expiry_seconds)
expiry_from limit tif (some (suc n)) = some (suc n + tif)

unfoldable pub expiry_of : OrderForm → Option ℕ
expiry_of f = expiry_from f.kind f.time_in_force f.now

pub record StrategyRecord : Type 0 where
  pub commitment_hash : Text
  pub owner : Text
  pub strategy_id : Text
  pub nonce : Text
  pub token_in : Text
  pub token_out : Text
  pub size : Text
  pub min_out : Text
  pub expiry : ℕ
  pub price : Text
  pub direction : Direction
  pub kind : StrategyKind
  pub created_at : ℕ

pub record PostStrategyBody : Type 0 where
  pub commitment_hash : Text
  pub kind : StrategyKind
  pub chain_id : ℕ
  pub token_in : Text
  pub token_out : Text
  pub size : Text
  pub min_out : Text
  pub expiry : ℕ
  pub limit_price : Text
  pub direction : Direction
  pub nonce : Text
  pub nullifier : Text
  pub encrypted_shares : List Share

-- The arguments of `register`.
pub record Registration : Type 0 where
  pub commitment_hash : Text
  pub token_in : Text
  pub token_out : Text
  pub size : ℤ
  pub min_out : ℤ
  pub expiry : ℕ
  pub kind : ℕ

pub record OrderPorts : Type 0 where
  pub hashing : Hashing
  -- `keeperApi.listKeepers`, `signMessageAsync`, `splitAndEncryptSecret`, `saveStrategy`
  pub list_keepers : Result (List KeeperPubkey)
  pub sign_message : Text → Result Text
  pub split_and_encrypt : Text → List KeeperPubkey → Result (List Share)
  pub save_strategy : StrategyRecord → Result {0} Unit
  -- the second that the clock shows when the record is made
  pub clock : ℕ

pub record Placed : Type 0 where
  pub saved : StrategyRecord
  pub post : PostStrategyBody
  pub registration : Registration

module _ (ports : OrderPorts) (f : OrderForm) where
  abbrev pub record_of : Text → ℕ → Text → Text → StrategyRecord
  record_of owner expiry strategy_id hash = record {
    commitment_hash = hash;
    owner = to_lower_case owner;
    strategy_id = strategy_id;
    nonce = f.nonce;
    token_in = f.token_in;
    token_out = f.token_out;
    size = print_int f.amount;
    min_out = print_int f.min_out;
    expiry = expiry;
    price = print_int (price_big f);
    direction = f.direction;
    kind = f.kind;
    created_at = ports.clock;
  }

  abbrev pub placed : ℕ → StrategyRecord → Text → List Share → Placed
  placed expiry saved nullifier shares = record {
    saved = saved;
    post = record {
      commitment_hash = saved.commitment_hash;
      kind = f.kind;
      chain_id = f.chain_id;
      token_in = f.token_in;
      token_out = f.token_out;
      size = print_int f.amount;
      min_out = print_int f.min_out;
      expiry = expiry;
      limit_price = print_int (price_big f);
      direction = f.direction;
      nonce = f.nonce;
      nullifier = nullifier;
      encrypted_shares = shares;
    };
    registration = record {
      commitment_hash = saved.commitment_hash;
      token_in = f.token_in;
      token_out = f.token_out;
      size = f.amount;
      min_out = f.min_out;
      expiry = expiry;
      kind = 0;
    };
  }

  -- The hash of the form's fields.
  abbrev pub order_hash : ℕ → Text → Result Text
  order_hash expiry user_secret = commitment_hash ports.hashing (record {
    token_in = f.token_in;
    token_out = f.token_out;
    size = f.amount;
    min_out = f.min_out;
    expiry = pos expiry;
    price = price_big f;
    direction = pos (direction_number f.direction);
    nonce = f.nonce;
    user_secret = user_secret;
  })

  -- The body of the try; what it throws becomes the form's error.
  unfoldable pub place_for : Text → ℕ → Result Placed
  place_for owner expiry = do
    strategy_id ← derive_strategy_id ports.hashing owner f.nonce
    keepers ← ports.list_keepers
    signature ← ports.sign_message (strategy_id_signing_message strategy_id)
    user_secret ← derive_user_secret ports.hashing signature
    nullifier ← nullifier_hash ports.hashing user_secret f.nonce
    hash ← order_hash expiry user_secret
    shares ← ports.split_and_encrypt user_secret keepers
    let saved = record_of owner expiry strategy_id hash
    done ← ports.save_strategy saved
    ok (placed expiry saved nullifier shares)

  abbrev pub place_if : Option Text → Option ℕ → Option (Result Placed)
  place_if none expiry = none
  place_if (some owner) none = none
  place_if (some owner) (some expiry) =
      if not f.is_connected || is_zero f.amount || is_zero (price_big f)
      then none
      else some (place_for owner expiry)

  -- `none` for the early return.
  unfoldable pub handle_order : Option (Result Placed)
  handle_order = place_if f.address (expiry_of f)
