-- ===== src/ExecuteApi.antt =====
-- keeper/src/api/server.ts: the handler of POST /api/execute. It validates the body, checks the
-- condition again, reconstructs the secret, answers, and then submits. What ethers makes of an address and of a
-- hash is the record `AddressChecks`. The metrics and the log are not modelled.
pub mod Condition
pub mod Outcome
pub mod Unhandled
use zstrategy.Base.{
  ℕ, zero, suc, List, ◌++◌, ◌+◌, ◌/◌, Bool, true, false, not, ◌&&◌, ◌||◌, Option, none, some,
  if◌then◌else◌, leb,
}
use zstrategy.Base.Int.{ℤ, pos, negsuc, ltb_ℤ}
use zstrategy.Base.Text.{Text, codes}
use zstrategy.Base.Result.{Result, ok, throw, ◌>>=◌}
use zstrategy.Js.{Value, text, number, truthy, or_else, is_text, text_of, big_int, number_of}
use zstrategy.Shares.{Table}
use zstrategy.Keys.{Ecies, KeeperKeypair}
use zstrategy.Reconstruct.{Shamir, reconstruct_user_secret}
use zstrategy.Oracle.{Feeds, fetch_pair_price}
use zstrategy.Request.{ExecuteRequest, Direction, buy, sell, CircuitKind, order_fill, dca}
use zstrategy.Submitter.{SubmitConfig, World, Run, submit_execution}
use zstrategy.ShareApi.{Response, respond, executing, has_secret}

pub record ExecuteBody : Type 0 where
  pub commitment_hash : Value
  pub kind : Value
  pub token_in : Value
  pub token_out : Value
  pub size : Value
  pub min_out : Value
  pub expiry : Value
  pub limit_price : Value
  pub direction : Value
  pub nonce : Value
  pub nullifier : Value
  pub scheduled_lo : Value
  pub scheduled_hi : Value

-- `state` of keeper/src/keeper.ts, the two counters.
pub record Counters : Type 0 where
  pub executed_count : ℕ
  pub failed_count : ℕ

pub record AddressChecks : Type 0 where
  -- `ethers.isHexString(x, 32)`, `ethers.isAddress(x)` and `ethers.getAddress(x)`
  pub is_hash : Value → Bool
  pub is_address : Value → Bool
  pub get_address : Value → Result Text

abbrev pub is_dca : ExecuteBody → Bool
is_dca b = is_text (codes "DCA") b.kind

-- `direction === 1 ? "SELL" : "BUY"`
unfoldable pub direction_of : Value → Direction
direction_of (number (pos (suc zero))) = sell
direction_of _ = buy

-- The first test that fails, by its message.
unfoldable pub invalid : AddressChecks → ExecuteBody → Option Text
invalid checks b =
    if not (truthy b.commitment_hash) || not (checks.is_hash b.commitment_hash)
    then some (codes "Invalid commitmentHash")
    else if not (truthy b.token_in) || not (checks.is_address b.token_in)
    then some (codes "Invalid tokenIn")
    else if not (truthy b.token_out) || not (checks.is_address b.token_out)
    then some (codes "Invalid tokenOut")
    else if not (truthy b.size)
        || not (truthy b.min_out)
        || not (truthy b.nonce)
        || not (truthy b.nullifier)
    then some (codes "Missing required fields")
    else none

-- How checking the condition again ends: a response, or the execution timestamp to go on with.
pub data Reverified : Type 0 where
  refused : ℕ → Text → Reverified
  confirmed : Option ℕ → Reverified

abbrev pub not_met : Reverified
not_met = refused 422 (codes "Fill condition not met (re-verify)")

-- The window of a DCA round, in seconds.
unfoldable pub reverify_dca : ℕ → Value → Value → Reverified
reverify_dca now (number lo) (number hi) =
    if ltb_ℤ (pos now) lo || ltb_ℤ hi (pos now) then not_met else confirmed (some now)
reverify_dca now _ _ = refused 400 (codes "scheduledLo and scheduledHi required for DCA")

-- `pairPrice >= lp` for a sale and `pairPrice <= lp` for a purchase.
unfoldable pub cond_met : Direction → ℕ → ℤ → Bool
cond_met sell pair_price lp = not (ltb_ℤ (pos pair_price) lp)
cond_met buy pair_price lp = not (ltb_ℤ lp (pos pair_price))

-- The body of the try of an order.
unfoldable pub order_condition : Feeds → ExecuteBody → Result Bool
order_condition feeds b = do
  pair_price ← fetch_pair_price feeds (text_of b.token_in) (text_of b.token_out)
  lp ← big_int (or_else b.limit_price (text (codes "0")))
  ok (cond_met (direction_of b.direction) pair_price lp)

-- The test of the condition, and the catch.
abbrev pub reverify_order : Result Bool → Reverified
reverify_order (ok true) = confirmed none
reverify_order (ok false) = not_met
reverify_order (throw m) =
    refused 503 (codes "Oracle re-verification unavailable; refusing execution")

unfoldable pub reverify : ℕ → Feeds → ExecuteBody → Reverified
reverify now_ms feeds b =
    if is_dca b
    then reverify_dca (now_ms / 1000) b.scheduled_lo b.scheduled_hi
    else reverify_order (order_condition feeds b)

-- `typeof x === "number" ? x : undefined`
abbrev pub if_number : Value → Option ℤ
if_number (number z) = some z
if_number _ = none

-- The argument of `submitExecution`, whose conversions may throw.
unfoldable pub request_of : AddressChecks → ExecuteBody → Option ℕ → Text → Result ExecuteRequest
request_of checks b execution_timestamp user_secret = do
  token_in ← checks.get_address b.token_in
  token_out ← checks.get_address b.token_out
  size ← big_int b.size
  min_out ← big_int b.min_out
  limit_price ← big_int (or_else b.limit_price (text (codes "0")))
  ok (record {
    commitment_hash = text_of b.commitment_hash;
    kind = if is_dca b then dca else order_fill;
    token_in = token_in;
    token_out = token_out;
    size = size;
    min_out = min_out;
    expiry = number_of b.expiry;
    limit_price = limit_price;
    direction = direction_of b.direction;
    nonce = b.nonce;
    nullifier = b.nullifier;
    scheduled_lo = if_number b.scheduled_lo;
    scheduled_hi = if_number b.scheduled_hi;
    execution_timestamp = execution_timestamp;
    user_secret = user_secret;
  })

-- What a request does: the response, the counters once the submission has ended, the submission if there
-- was one, and the error that rejects the handler's promise if there is one.
pub record Execution : Type 0 where
  pub response : Response
  pub counters : Counters
  pub run : Option Run
  pub unhandled : Option Text

abbrev pub answered : Counters → ℕ → Text → Execution
answered s status message = record {
  response = respond status message;
  counters = s;
  run = none;
  unhandled = none;
}

-- `.then(…)` and `.catch(…)`
abbrev pub count : Result Text → Counters → Counters
count (ok hash) s = record s { executed_count = s.executed_count + 1 }
count (throw m) s = record s { failed_count = s.failed_count + 1 }

-- What the handler runs in, besides the request.
pub record Environment : Type 1 where
  pub ecies : Ecies
  pub shamir : Shamir
  pub checks : AddressChecks
  pub config : SubmitConfig
  pub api_secret : Text
  pub threshold_k : ℕ
  pub keys : List (KeeperKeypair ecies)
  pub feeds : Feeds
  pub now_ms : ℕ
  pub worlds : ℕ → World

module _ (env : Environment) where
  -- Below the response 202.
  abbrev pub submit_built : Counters → Response → Result ExecuteRequest → Execution
  submit_built s response (throw m) = record {
    response = response;
    counters = s;
    run = none;
    unhandled = some m;
  }
  submit_built s response (ok req) =
      let run = submit_execution env.config env.worlds req in
      record {
        response = response;
        counters = count run.result s;
        run = some run;
        unhandled = none;
      }

  abbrev pub accepted : ExecuteBody → Response
  accepted b = record { status = 202; body = executing (text_of b.commitment_hash) }

  -- The result of the reconstruction. What `combine` throws is taken for an Error.
  abbrev pub with_secret : ExecuteBody → Option ℕ → Counters → Result Text → Execution
  with_secret b execution_timestamp s (throw m) =
      answered s 500 (codes "Reconstruction failed: Error: " ++ m)
  with_secret b execution_timestamp s (ok user_secret) =
      submit_built s (accepted b) (request_of env.checks b execution_timestamp user_secret)

  abbrev pub with_condition : ExecuteBody → Table → Counters → Reverified → Execution
  with_condition b t s (refused status message) = answered s status message
  with_condition b t s (confirmed execution_timestamp) = with_secret b execution_timestamp s (
      reconstruct_user_secret env.ecies env.shamir env.threshold_k env.keys
        (text_of b.commitment_hash) t)

  abbrev pub validated : ExecuteBody → Table → Counters → Option Text → Execution
  validated b t s (some message) = answered s 400 message
  validated b t s none = with_condition b t s (reverify env.now_ms env.feeds b)

  unfoldable pub execute : Option Text → ExecuteBody → Table → Counters → Execution
  execute auth b t s =
      if has_secret env.api_secret auth
      then validated b t s (invalid env.checks b)
      else answered s 401 (codes "Unauthorized")
