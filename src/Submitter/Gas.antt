-- ===== src/Submitter/Gas.antt =====
-- The gas of the transactions that one call of `submitExecution` sends
-- (keeper/src/execution/submitter.ts).
use zstrategy.Base.{
  ℕ, ◌+◌, ◌*◌, ◌/◌, ◌^◌, ◌≤◌, ◌<◌, List, [], ◌∷◌, ◌++◌, Option, All, ◌≡◌, refl, arith, inl, inr,
}
use native.Mathlib.Nat.{le-div_iff_mul-le, mul-le-mul_left}
use mathlib.Core.Path.{subst}
use mathlib.Core.List.{append-nil}
use zstrategy.Base.Text.{Text, codes}
use zstrategy.Base.Result.{ok, >>=-eq-ok}
use zstrategy.Request.{ExecuteRequest}
use zstrategy.Submitter.{
  SubmitConfig, World, Call, Event, slept, notify_backend_done, base_gas_price, fill_ref_of,
  proof_for, prepare, attempt, submit_from, submit_execution,
}
use zstrategy.Submitter.Traces.{sent_calls, sent_calls-append, attempt-IsOneAttempt, posts_only}
use zstrategy.Submitter.Attempts.{submit_from_induction}
use zstrategy.Submitter.Bounds.{exhausted_events}

-- The call carries the request's hash, its nullifier and a proof that `proof_for` gave in a world,
-- the gas price of that world with the buffer, and a gas limit of at least what was estimated.
abbrev pub IsFunded : SubmitConfig → World → ExecuteRequest → Call → Type 0
IsFunded c w req call =
    (call.commitment_hash ≡ req.commitment_hash)
    × (call.nullifier ≡ req.nullifier)
    × (proof_for w req ≡ ok call.proof)
    × (call.fill_ref ≡ fill_ref_of w req)
    × ((fee : Option ℕ) × (w.fee_gas_price ≡ ok fee)
        × (call.gas_price ≡ base_gas_price fee * c.gas_price_buffer))
    × ((estimated : ℕ) × (w.estimate_gas req.commitment_hash req.nullifier call.proof call.fill_ref
            call.gas_price
          ≡ ok estimated)
        × (call.gas_limit ≡ estimated * c.execution_gas_buffer_bps / 10000)
        × (estimated ≤ call.gas_limit))

limit_covers : (estimated bps : ℕ) → 10000 ≤ bps → estimated ≤ estimated * bps / 10000
limit_covers estimated bps h =
    (le-div_iff_mul-le {k = 10000} {x = estimated} {y = estimated * bps} (omega arith)).1
      (mul-le-mul_left estimated h)

abbrev call_of : SubmitConfig → World → ExecuteRequest → Text → Option ℕ → ℕ → Call
call_of c w req proof fee estimated = record {
  commitment_hash = req.commitment_hash;
  nullifier = req.nullifier;
  proof = proof;
  fill_ref = fill_ref_of w req;
  gas_price = base_gas_price fee * c.gas_price_buffer;
  gas_limit = estimated * c.execution_gas_buffer_bps / 10000;
}

prepare-eq-ok :
    (c : SubmitConfig) (w : World) (req : ExecuteRequest) (call : Call)
    → prepare c w req ≡ ok call
    → (proof : Text) × (fee : Option ℕ) × (estimated : ℕ) × (proof_for w req ≡ ok proof)
      × (w.fee_gas_price ≡ ok fee)
      × (w.estimate_gas req.commitment_hash req.nullifier proof
            (fill_ref_of w req)
            (base_gas_price fee * c.gas_price_buffer)
          ≡ ok estimated)
      × (call_of c w req proof fee estimated ≡ call)
unfolding prepare
prepare-eq-ok c w req call e =
    let (proof, ep, e1) = >>=-eq-ok (proof_for w req) _ {b = call} e in
    let (fee, ef, e2) = >>=-eq-ok w.fee_gas_price _ {b = call} e1 in
    let (estimated, ee, e3) =
      >>=-eq-ok
        (w.estimate_gas req.commitment_hash req.nullifier proof (fill_ref_of w req)
          (base_gas_price fee * c.gas_price_buffer))
        _ {b = call} e2 in
    (proof, fee, estimated, ep, ef, ee, cc)

prepare-IsFunded :
    (c : SubmitConfig) (w : World) (req : ExecuteRequest) (call : Call)
    → 10000 ≤ c.execution_gas_buffer_bps
    → prepare c w req ≡ ok call
    → IsFunded c w req call
prepare-IsFunded c w req call h e =
    let (proof, fee, estimated, ep, ef, ee, same) = prepare-eq-ok c w req call e in
    subst (IsFunded c w req) same (
      refl,
      refl,
      ep,
      refl,
      (fee, ef, refl),
      (estimated, ee, refl, limit_covers estimated c.execution_gas_buffer_bps h),
    )

module _ (c : SubmitConfig) (worlds : ℕ → World) (req : ExecuteRequest)
    (h : 10000 ≤ c.execution_gas_buffer_bps) where
  -- The call was prepared in the world of an attempt before number n.
  abbrev IsFundedBefore : ℕ → Call → Type 0
  IsFundedBefore n call = (j : ℕ) × (j < n) × IsFunded c (worlds j) req call

  sent_attempt-IsFunded :
      (i n : ℕ) (events : List Event)
      → i < n
      → All (IsFundedBefore n) (sent_calls events)
      → All (IsFundedBefore n) (sent_calls ((attempt c (worlds i) req).0 ++ events))
  sent_attempt-IsFunded i n events lt rest =
      rw (sent_calls-append (attempt c (worlds i) req).0 events)
        (elim (attempt-IsOneAttempt c (worlds i) req).sends [
          | inl e ↦ rw e rest
          | inr (call, p, e) ↦ rw e ((i, lt, prepare-IsFunded c (worlds i) req call h p), rest)
        ])

  submit_from-IsFunded :
      (n i left : ℕ) (last : Text)
      → i + left ≤ n
      → All (IsFundedBefore n) (sent_calls (submit_from c worlds req i left last).events)
  submit_from-IsFunded n =
      submit_from_induction c worlds req
        (λ i left last run. i + left ≤ n → All (IsFundedBefore n) (sent_calls run.events))
        (λ i last le. rw ((exhausted_events c worlds req last).0) tt)
        (λ i left last tx e le.
          rw (← append-nil (attempt c (worlds i) req).0)
            (sent_attempt-IsFunded i n [] (omega arith) tt))
        (λ i left last m e f le. sent_attempt-IsFunded i n [] (omega arith) tt)
        (λ i left last m e f d le.
          sent_attempt-IsFunded i n (notify_backend_done c req.commitment_hash m) (omega arith)
            (rw ((posts_only c req.commitment_hash m).0) tt))
        (λ i left last m retry e f d ih le.
          sent_attempt-IsFunded i n (slept (c.retry_base_delay_ms * 2 ^ i) ∷ retry.events)
            (omega arith) (ih (omega arith)))

-- With a gas buffer of at least 100 percent, every transaction that a call sends carries the request's hash
-- and nullifier, a proof made for the request in that attempt, the attempt's gas price times the
-- buffer, and a gas limit that covers the estimate for that proof at that price.
pub submit_execution-IsFunded :
    (c : SubmitConfig) (worlds : ℕ → World) (req : ExecuteRequest)
    (h : 10000 ≤ c.execution_gas_buffer_bps)
    → All
        (λ call. (j : ℕ) × (j < c.max_retries) × IsFunded c (worlds j) req call)
        (sent_calls (submit_execution c worlds req).events)
unfolding submit_execution
submit_execution-IsFunded c worlds req h =
    submit_from-IsFunded c worlds req h c.max_retries 0 c.max_retries (codes "unknown")
      (omega arith)
