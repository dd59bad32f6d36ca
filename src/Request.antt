-- ===== src/Request.antt =====
-- keeper/src/types.ts: what the handler of /api/execute hands to the submitter.
use zstrategy.Base.{ℕ, Option}
use zstrategy.Base.Int.{ℤ}
use zstrategy.Base.Text.{Text}
use zstrategy.Js.{Value}

pub data Direction : Type 0 where
  buy sell : Direction

pub data CircuitKind : Type 0 where
  order_fill dca : CircuitKind

pub record ExecuteRequest : Type 0 where
  pub commitment_hash : Text
  pub kind : CircuitKind
  pub token_in : Text
  pub token_out : Text
  pub size : ℤ
  pub min_out : ℤ
  -- a number, `none` for NaN
  pub expiry : Option ℤ
  pub limit_price : ℤ
  pub direction : Direction
  -- passed on as they came
  pub nonce : Value
  pub nullifier : Value
  pub scheduled_lo : Option ℤ
  pub scheduled_hi : Option ℤ
  pub execution_timestamp : Option ℕ
  pub user_secret : Text
