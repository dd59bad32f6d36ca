-- ===== src/Submitter/Bounds.antt =====
-- How much submitExecution (keeper/src/execution/submitter.ts) sends and sleeps.
use zstrategy.Base.{
  ℕ, suc, ◌+◌, ◌*◌, ◌^◌, ◌≤◌, List, [], ◌∷◌, ◌++◌, length, ◌≡◌, refl, ap, arith, inl, inr,
  Bool-cases, length-append,
}
use native.Mathlib.Nat.{pow-suc, mul-le-mul_left, pow-le-pow_right}
use zstrategy.Base.Text.{Text, codes}
use zstrategy.Request.{ExecuteRequest}
use zstrategy.Submitter.{
  SubmitConfig, World, Call, Event, slept, notify_backend_done, attempt, exhausted,
  is_user_fixable_revert, submit_from, submit_execution,
}
use zstrategy.Submitter.Traces.{
  sent_calls, slept_total, sent_calls-append, slept_total-append, attempt-IsOneAttempt, posts_only,
}
use zstrategy.Submitter.Attempts.{submit_from_induction}

pause_mono : (base i k : ℕ) → base * 2 ^ i ≤ base * 2 ^ (i + k)
pause_mono base i k = mul-le-mul_left base (pow-le-pow_right (omega arith) (omega arith))

pause_step : (base i : ℕ) → base * 2 ^ (i + 1) ≡ base * 2 ^ i + base * 2 ^ i
pause_step base i = let e : i + 1 ≡ suc i = omega arith in rw (e, pow-suc 2 i) (omega arith)

pause_shift : (base i left : ℕ) → base * 2 ^ (i + 1 + left) ≡ base * 2 ^ (i + suc left)
pause_shift base i left = ap (λ n. base * 2 ^ n) (omega arith)

pause_zero : (base n : ℕ) → base * 2 ^ (0 + n) ≡ base * 2 ^ n
pause_zero base n = ap (λ k. base * 2 ^ k) (omega arith)

module _ (c : SubmitConfig) (worlds : ℕ → World) (req : ExecuteRequest) where
  length-sent_attempt : (i : ℕ) → length (sent_calls (attempt c (worlds i) req).0) ≤ 1
  length-sent_attempt i = elim (attempt-IsOneAttempt c (worlds i) req).sends [
    | inl e ↦ rw e (omega arith)
    | inr (call, p, e) ↦ rw e (omega arith)
  ]

  length-sent_before :
      (i : ℕ) (events : List Event)
      → length (sent_calls ((attempt c (worlds i) req).0 ++ events))
        ≤ 1 + length (sent_calls events)
  length-sent_before i events = rw (sent_calls-append (attempt c (worlds i) req).0 events) (
      omega (
        arith,
        length-sent_attempt i,
        length-append {0} (sent_calls (attempt c (worlds i) req).0) (sent_calls events),
      ))

  pub exhausted_events :
      (last : Text)
      → (sent_calls (exhausted c req.commitment_hash last).events ≡ [])
        × (slept_total (exhausted c req.commitment_hash last).events ≡ 0)
  unfolding exhausted
  exhausted_events last = elim (Bool-cases (is_user_fixable_revert last)) [
    | inl fixable ↦ rw fixable (refl, refl)
    | inr final ↦
        let (no_sends, same, no_sleeps) =
          posts_only c req.commitment_hash (codes "max retries exceeded: " ++ last) in
        rw final (no_sends, no_sleeps)
  ]

  submit_from-sent :
      (i left : ℕ) (last : Text)
      → length (sent_calls (submit_from c worlds req i left last).events) ≤ left
  submit_from-sent =
      submit_from_induction c worlds req (λ i left last run. length (sent_calls run.events) ≤ left)
        (λ i last. rw ((exhausted_events last).0) (omega arith))
        (λ i left last tx e. omega (arith, length-sent_attempt i))
        (λ i left last m e f. omega (arith, length-sent_before i []))
        (λ i left last m e f d.
          let none_sent = (posts_only c req.commitment_hash m).0 in
          omega (
            arith,
            length-sent_before i (notify_backend_done c req.commitment_hash m),
            ap (λ (l : List Call). length l) none_sent,
          ))
        (λ i left last m retry e f d ih.
          omega
            (arith, length-sent_before i (slept (c.retry_base_delay_ms * 2 ^ i) ∷ retry.events)))

  slept_attempt :
      (i : ℕ) (events : List Event)
      → slept_total ((attempt c (worlds i) req).0 ++ events) ≡ slept_total events
  slept_attempt i events =
      rw
        (
          slept_total-append (attempt c (worlds i) req).0 events,
          (attempt-IsOneAttempt c (worlds i) req).sleeps_nothing,
        )
        (omega arith)

  submit_from-slept :
      (i left : ℕ) (last : Text)
      → slept_total (submit_from c worlds req i left last).events + c.retry_base_delay_ms * 2 ^ i
        ≤ c.retry_base_delay_ms * 2 ^ (i + left)
  submit_from-slept =
      submit_from_induction c worlds req
        (λ i left last run.
          slept_total run.events + c.retry_base_delay_ms * 2 ^ i
          ≤ c.retry_base_delay_ms * 2 ^ (i + left))
        (λ i last.
          rw ((exhausted_events last).1) (omega (arith, pause_mono c.retry_base_delay_ms i 0)))
        (λ i left last tx e.
          rw ((attempt-IsOneAttempt c (worlds i) req).sleeps_nothing)
            (omega (arith, pause_mono c.retry_base_delay_ms i (suc left))))
        (λ i left last m e f.
          omega (arith, slept_attempt i [], pause_mono c.retry_base_delay_ms i (suc left)))
        (λ i left last m e f d. omega (
          arith,
          slept_attempt i (notify_backend_done c req.commitment_hash m),
          (posts_only c req.commitment_hash m).2,
          pause_mono c.retry_base_delay_ms i (suc left),
        ))
        (λ i left last m retry e f d ih. omega (
          arith,
          slept_attempt i (slept (c.retry_base_delay_ms * 2 ^ i) ∷ retry.events),
          pause_step c.retry_base_delay_ms i,
          pause_shift c.retry_base_delay_ms i left,
          ih,
        ))

-- However the attempts end, one call sends at most MAX_RETRIES transactions, and sleeps less than
-- RETRY_BASE_DELAY_MS times 2 ^ MAX_RETRIES milliseconds in all, by at least one base delay.
pub submit_execution_bounds :
    (c : SubmitConfig) (worlds : ℕ → World) (req : ExecuteRequest)
    → (length (sent_calls (submit_execution c worlds req).events) ≤ c.max_retries)
      × (slept_total (submit_execution c worlds req).events + c.retry_base_delay_ms
          ≤ c.retry_base_delay_ms * 2 ^ c.max_retries)
unfolding submit_execution
submit_execution_bounds c worlds req = (
  submit_from-sent c worlds req 0 c.max_retries (codes "unknown"),
  omega (
    arith,
    submit_from-slept c worlds req 0 c.max_retries (codes "unknown"),
    pause_zero c.retry_base_delay_ms c.max_retries,
  ),
)
