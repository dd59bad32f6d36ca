-- ===== src/Submitter.antt =====
-- keeper/src/execution/submitter.ts: executeCommitment with retries. What the proof systems, the
-- node and the clock answer in one attempt is the record `World`; an attempt has a world of its own.
-- The calls that others see are the events, in their order.
mod Types
pub use Types.*
mod Proof
unfoldable pub use Proof.*
pub mod Traces
pub mod Attempts
pub mod Posts
pub mod Outcome
pub mod Bounds
pub mod Gas
use zstrategy.Base.{
  ℕ, zero, suc, ◌+◌, ◌-◌, ◌*◌, ◌/◌, ◌^◌, Bool, true, false, ◌&&◌, ◌||◌, List, [], ◌∷◌, ◌++◌, Option,
  none, some, any, ◌==◌, if◌then◌else◌,
}
use mathlib.Core.List.{reverse}
use zstrategy.Base.Int.{ℤ, pos}
use zstrategy.Base.Text.{Text, codes, includes}
use zstrategy.Base.Digits.{print}
use zstrategy.Base.Result.{Result, ok, throw, ◌>>=◌}
use zstrategy.Js.{Value}
use zstrategy.Request.{ExecuteRequest, CircuitKind, Direction, buy, sell, order_fill, dca}
use zstrategy.Oracle.{Feeds, fetch_pair_price}
use zstrategy.Zk.{
  Prover, OrderFillInputs, DcaInputs, OrderFillWitness, DcaWitness, generate_order_fill_proof,
  generate_dca_proof,
}

-- isUserFixableRevert
unfoldable pub user_fixable_reason : Text
user_fixable_reason = codes "GasVault: insufficient gas balance"

unfoldable pub is_user_fixable_revert : Text → Bool
is_user_fixable_revert message = includes message user_fixable_reason

-- isDefinitiveRevert
unfoldable pub definitive_reasons : List Text
definitive_reasons =
    codes "Registry: not pending"
    ∷ codes "Registry: nullifier spent"
    ∷ codes "Registry: expired"
    ∷ codes "Registry: invalid proof"
    ∷ codes "Registry: paused"
    ∷ codes "Registry: stale oracle"
    ∷ codes "Registry: no price feed"
    ∷ []

unfoldable pub is_definitive_revert : Text → Bool
is_definitive_revert message = any (λ r. includes message r) definitive_reasons

-- `url.replace(/\/+$/, "")`, and the URL of the callback.
unfoldable pub drop_slashes : Text → Text
drop_slashes [] = []
drop_slashes (c ∷ s) = let rest = drop_slashes s in if c == b'/' then rest else c ∷ s

unfoldable pub done_url : Text → Text → Text
done_url backend_url hash =
    reverse (drop_slashes (reverse backend_url))
    ++ (codes "/api/v1/strategies/" ++ (hash ++ codes "/done"))

-- notifyBackendDone: without a backend URL nothing is posted, and a failed POST is only logged.
unfoldable pub notify_backend_done : SubmitConfig → Text → Text → List Event
notify_backend_done c hash reason = elim c.backend_url [
  | [] ↦ []
  | x ∷ s ↦ posted (done_url (x ∷ s) hash) reason ∷ []
]

-- `feeData.gasPrice ?? parseUnits("1", "gwei")`
abbrev pub base_gas_price : Option ℕ → ℕ
base_gas_price none = 10 ^ 9
base_gas_price (some p) = p

-- The transaction of an attempt: the proof, the gas price with its buffer, the gas limit with its.
unfoldable pub prepare : SubmitConfig → World → ExecuteRequest → Result Call
prepare c w req = do
  proof ← proof_for w req
  fee ← w.fee_gas_price
  let gas_price = base_gas_price fee * c.gas_price_buffer
  let fill_ref = fill_ref_of w req
  estimated ← w.estimate_gas req.commitment_hash req.nullifier proof fill_ref gas_price
  ok (record {
    commitment_hash = req.commitment_hash;
    nullifier = req.nullifier;
    proof = proof;
    fill_ref = fill_ref;
    gas_price = gas_price;
    gas_limit = estimated * c.execution_gas_buffer_bps / 10000;
  })

-- The receipt of either branch of the inner try.
unfoldable pub settle : Wait → Result (Option Receipt)
settle (returned r) = ok r
settle (failed_with r) = ok (some r)
settle (failed m) = throw m

-- ` (data=${data})`, for data that is there and not empty.
abbrev pub data_note : Option Text → Text
data_note none = []
data_note (some []) = []
data_note (some (c ∷ s)) = codes " (data=" ++ ((c ∷ s) ++ codes ")")

abbrev pub block_text : Option Receipt → Text
block_text none = codes "undefined"
block_text (some r) = print 10 r.block_number

-- The error of a transaction that did not succeed, after the replay.
unfoldable pub revert_message : Text → Option Receipt → Option ReplayError → Text
revert_message hash receipt (some e) =
    codes "Transaction reverted: "
    ++ (hash ++ (codes " — replay revert: " ++ (e.message ++ data_note e.revert_data)))
revert_message hash receipt none =
    codes "Transaction reverted: "
    ++ (hash
        ++ (codes " (replay at block "
            ++ (block_text receipt
                ++ codes
                    " did NOT reproduce — likely transient state, e.g. pool/oracle moved by the time we re-queried)")))

abbrev pub succeeded : Option Receipt → Bool
succeeded none = false
succeeded (some r) = r.status == 1

-- After the receipt.
unfoldable pub conclude : World → Call → Text → Option Receipt → List Event × Result Text
conclude w call hash receipt =
    if succeeded receipt
    then ([], ok hash)
    else (replayed ∷ [], throw (revert_message hash receipt (w.replay call receipt)))

abbrev pub after_wait : World → Call → Text → Result (Option Receipt) → List Event × Result Text
after_wait w call hash (ok receipt) = conclude w call hash receipt
after_wait w call hash (throw m) = ([], throw m)

abbrev pub with_event : Event → List Event × Result Text → List Event × Result Text
with_event e (events, r) = (e ∷ events, r)

-- After sending.
abbrev pub after_send : World → Call → Result Text → List Event × Result Text
after_send w call (ok hash) = with_event (sent call) (after_wait w call hash (settle (w.wait hash)))
after_send w call (throw m) = ([], throw m)

abbrev pub after_prepare : World → Result Call → List Event × Result Text
after_prepare w (ok call) = after_send w call (w.send call)
after_prepare w (throw m) = ([], throw m)

-- The body of the outer try: the events, and the hash or the message of the error.
unfoldable pub attempt : SubmitConfig → World → ExecuteRequest → List Event × Result Text
attempt c w req = after_prepare w (prepare c w req)

-- The events of a call, its variable `lastError` at the end, and its result.
pub record Run : Type 0 where
  pub events : List Event
  pub last_error : Text
  pub result : Result Text

abbrev pub before : List Event → Run → Run
before events r = record r { events = events ++ r.events }

unfoldable pub user_fixable_error : Text → Text → Text
user_fixable_error hash m =
    codes "[Submitter] user-fixable revert for " ++ (hash ++ (codes ": " ++ m))

unfoldable pub definitive_error : Text → Text → Text
definitive_error hash m = codes "[Submitter] definitive revert for " ++ (hash ++ (codes ": " ++ m))

unfoldable pub exhausted_error : Text → Text → Text
exhausted_error hash m =
    codes "[Submitter] max retries exceeded for " ++ (hash ++ (codes ": " ++ m))

-- Below the loop.
unfoldable pub exhausted : SubmitConfig → Text → Text → Run
exhausted c hash last = record {
  events =
      if is_user_fixable_revert last
      then []
      else notify_backend_done c hash (codes "max retries exceeded: " ++ last);
  last_error = last;
  result = throw (exhausted_error hash last);
}

-- The outer catch, for the number of the attempt; `retry` is the rest of the loop.
unfoldable pub caught : SubmitConfig → Text → ℕ → Text → Run → Run
caught c hash i m retry =
    if is_user_fixable_revert m
    then record { events = []; last_error = m; result = throw (user_fixable_error hash m) }
    else if is_definitive_revert m
    then record {
      events = notify_backend_done c hash m;
      last_error = m;
      result = throw (definitive_error hash m);
    }
    else before (slept (c.retry_base_delay_ms * 2 ^ i) ∷ []) retry

abbrev pub after_attempt : SubmitConfig → Text → ℕ → Text → List Event × Result Text → Run → Run
after_attempt c hash i last (events, ok tx) retry = record {
  events = events;
  last_error = last;
  result = ok tx;
}
after_attempt c hash i last (events, throw m) retry = before events (caught c hash i m retry)

abbrev pub next_error : Text → Result Text → Text
next_error last (ok tx) = last
next_error last (throw m) = m

-- The loop from attempt i on, with `left` attempts left.
unfoldable pub submit_from : SubmitConfig → (ℕ → World) → ExecuteRequest → ℕ → ℕ → Text → Run
submit_from c worlds req i zero last = exhausted c req.commitment_hash last
submit_from c worlds req i (suc left) last =
    let retry =
      submit_from c worlds req (i + 1) left (next_error last (attempt c (worlds i) req).1) in
    after_attempt c req.commitment_hash i last (attempt c (worlds i) req) retry

unfoldable pub submit_execution : SubmitConfig → (ℕ → World) → ExecuteRequest → Run
submit_execution c worlds req = submit_from c worlds req 0 c.max_retries (codes "unknown")
