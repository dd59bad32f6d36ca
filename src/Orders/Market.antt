-- ===== src/Orders/Market.antt =====
-- MARKET orders (frontend/src/app/(dashboard)/orders/page.tsx) and the keeper's check of their price.
use zstrategy.Base.{ℕ, ◌≤◌, ◌||◌, Bool, Option, not, true, none, some, ◌≡◌, refl, arith}
use zstrategy.Base.Text.{Text}
use zstrategy.Base.Result.{ok}
use zstrategy.Request.{Direction, buy, sell}
use zstrategy.Oracle.{Feeds, fetch_pair_price, max_uint64}
use zstrategy.Oracle.Bounds.{fetch_pair_price_iff}
use zstrategy.ExecuteApi.{cond_met}
use zstrategy.Dca.{is_zero}
use zstrategy.Orders.{
  OrderForm, OrderPorts, market, market_price, price_big, handle_order, place_if, expiry_of,
}

market_price-met : (d : Direction) (p : ℕ) → p ≤ max_uint64 → cond_met d p (market_price d) ≡ true
unfolding cond_met
market_price-met buy p le = ground arith
market_price-met sell p le = ground arith

-- The sentinel price of a MARKET order passes the keeper's check against every price that the oracle can
-- give, for a purchase and for a sale.
pub cond_met-price_big :
    (f : OrderForm) (feeds : Feeds) (token_in token_out : Text) (p : ℕ)
    → f.kind ≡ market
    → fetch_pair_price feeds token_in token_out ≡ ok p
    → cond_met f.direction p (price_big f) ≡ true
unfolding price_big
cond_met-price_big f feeds token_in token_out p k h =
    let (fi, fo, q, q', (lo, hi, positive, small)) =
      (fetch_pair_price_iff feeds token_in token_out p).0 h in
    rw k (market_price-met f.direction p small)

or-true : (a b : Bool) → (a || b || true) ≡ true
or-true a b = ground arith

place_if_free :
    (ports : OrderPorts) (f : OrderForm) (address : Option Text) (expiry : Option ℕ)
    → is_zero (price_big f) ≡ true
    → place_if ports f address expiry ≡ none
place_if_free ports f none expiry z = refl
place_if_free ports f (some owner) none z = refl
place_if_free ports f (some owner) (some expiry) z =
    rw (z, or-true (not f.is_connected) (is_zero f.amount)) refl

free_sale : (f : OrderForm) → f.kind ≡ market → f.direction ≡ sell → is_zero (price_big f) ≡ true
unfolding price_big
free_sale f k d = rw (k, d) refl

-- Submitting a MARKET order that sells does nothing, whatever the form holds and the services answer: the
-- sentinel price of a sale is zero, and the form returns early at a price of zero.
pub handle_order-market_sell :
    (ports : OrderPorts) (f : OrderForm)
    → f.kind ≡ market
    → f.direction ≡ sell
    → handle_order ports f ≡ none
unfolding handle_order
handle_order-market_sell ports f k d =
    place_if_free ports f f.address (expiry_of f) (free_sale f k d)
