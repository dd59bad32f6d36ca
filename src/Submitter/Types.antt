-- ===== src/Submitter/Types.antt =====
-- What keeper/src/execution/submitter.ts works with: its configuration, the worlds of its attempts, and
-- the events that others see.
use zstrategy.Base.{ℕ, Option}
use zstrategy.Base.Text.{Text}
use zstrategy.Base.Result.{Result}
use zstrategy.Js.{Value}
use zstrategy.Oracle.{Feeds}
use zstrategy.Zk.{Prover, OrderFillInputs, DcaInputs}

-- What of the process's configuration (keeper/src/config.ts) the submitter reads.
pub record SubmitConfig : Type 0 where
  pub max_retries : ℕ
  pub retry_base_delay_ms : ℕ
  pub execution_gas_buffer_bps : ℕ
  pub gas_price_buffer : ℕ
  pub backend_url : Text

-- A transaction's receipt: its status and the number of its block.
pub record Receipt : Type 0 where
  pub status : ℕ
  pub block_number : ℕ

-- How `tx.wait(1)` ends: with a receipt or null, by an error that carries a receipt, by another.
pub data Wait : Type 0 where
  returned : Option Receipt → Wait
  failed_with : Receipt → Wait
  failed : Text → Wait

-- How the replay as eth_call fails: the message, and `.data` if there is one.
pub record ReplayError : Type 0 where
  pub message : Text
  pub revert_data : Option Text

-- The arguments of executeCommitment and the two overrides.
pub record Call : Type 0 where
  pub commitment_hash : Text
  pub nullifier : Value
  pub proof : Text
  pub fill_ref : ℕ
  pub gas_price : ℕ
  pub gas_limit : ℕ

pub record World : Type 1 where
  -- Date.now()
  pub now_ms : ℕ
  -- what the two modules' `loadCircuit` returns
  pub order_fill_prover : Result (Prover OrderFillInputs)
  pub dca_prover : Result (Prover DcaInputs)
  pub feeds : Feeds
  -- `getFeeData().gasPrice`
  pub fee_gas_price : Result (Option ℕ)
  -- `executeCommitment.estimateGas`, at a gas price
  pub estimate_gas : Text → Value → Text → ℕ → ℕ → Result ℕ
  -- the hash of the transaction that a call sends
  pub send : Call → Result Text
  pub wait : Text → Wait
  -- the replay at the block of a receipt; `none` if it does not fail
  pub replay : Call → Option Receipt → Option ReplayError

pub data Event : Type 0 where
  -- a transaction was sent
  sent : Call → Event
  -- the call was run again as eth_call
  replayed : Event
  -- POST of the reason to the URL of a commitment at the backend
  posted : Text → Text → Event
  -- a pause in milliseconds
  slept : ℕ → Event
