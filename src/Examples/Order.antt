-- ===== src/Examples/Order.antt =====
-- A LIMIT order and two MARKET orders, submitted.
use zstrategy.Base.{
  ℕ, ◌*◌, ◌^◌, true, List, [], ◌∷◌, ◌++◌, replicate, Option, none, some, ◌≡◌, refl,
}
use zstrategy.Base.Int.{pos}
use zstrategy.Base.Text.{Text, codes}
use zstrategy.Base.Result.{ok}
use zstrategy.Commitment.{Hashing}
use zstrategy.Request.{Direction, buy, sell}
use zstrategy.ExecuteApi.{cond_met}
use zstrategy.Orders.{
  OrderForm, OrderPorts, StrategyKind, limit, market, Placed, placed, record_of, price_big,
  expiry_of, handle_order,
}
use zstrategy.Orders.Market.{cond_met-price_big}
use zstrategy.Orders.Registered.{IsOneOrder, handle_order-IsOneOrder}
use zstrategy.Examples.Prices.{two_feeds, ether_price}

abbrev ports : OrderPorts
ports = record {
  hashing = record {
    keccak256 = λ t. ok (codes "0x7f");
    encode_packed = λ fields. ok (codes "0x00");
  };
  list_keepers = ok [];
  sign_message = λ m. ok (codes "0x55");
  split_and_encrypt = λ secret keepers. ok [];
  save_strategy = λ r. ok tt;
  clock = 1000;
}

abbrev form : StrategyKind → Direction → OrderForm
form kind direction = record {
  is_connected = true;
  address = some (codes "0xAbc");
  chain_id = 421614;
  kind = kind;
  direction = direction;
  token_in = codes "0xE";
  token_out = codes "0xD";
  amount = pos 7;
  min_out = pos 3;
  target_price = pos 500;
  now = some 990;
  time_in_force = 3600;
  nonce = codes "0x01";
}

cond_met-price_big_example : cond_met sell (3000 * 10 ^ 8) (price_big (form market sell)) ≡ true
cond_met-price_big_example =
    cond_met-price_big (form market sell) two_feeds (codes "WETH") (codes "USDC") (3000 * 10 ^ 8)
      refl ether_price

-- 0x7f in 32 bytes.
abbrev field_7f : Text
field_7f = codes "0x" ++ (replicate 62 b'0' ++ codes "7f")

abbrev order_placed : Placed
order_placed =
    placed ports (form limit buy) 4590
      (record_of ports (form limit buy) (codes "0xAbc") 4590 (codes "0x7f") field_7f) field_7f []

goes_through : handle_order ports (form limit buy) ≡ some (ok order_placed)
unfolding handle_order expiry_of price_big zstrategy.Orders.place_for
    zstrategy.Commitment.derive_strategy_id zstrategy.Commitment.derive_user_secret
    zstrategy.Commitment.reduce_to_field zstrategy.Js.big_int zstrategy.Base.Digits.digit_value
    zstrategy.Commitment.nullifier_hash zstrategy.Commitment.commitment_hash
    zstrategy.Commitment.remainder_text zstrategy.Base.Digits.print
goes_through = refl

handle_order-IsOneOrder_example :
    (owner : Text) × (expiry : ℕ) × (some (codes "0xAbc") ≡ some owner)
    × (expiry_of (form limit buy) ≡ some expiry)
    × IsOneOrder ports (form limit buy) owner expiry order_placed
handle_order-IsOneOrder_example =
    handle_order-IsOneOrder ports (form limit buy) order_placed goes_through
