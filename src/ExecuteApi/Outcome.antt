-- ===== src/ExecuteApi/Outcome.antt =====
-- When the handler of /api/execute accepts a request, and what it leaves (keeper/src/api/server.ts).
use zstrategy.Base.{
  ℕ, ◌+◌, ◌++◌, true, arith, Option, none, some, ◌≡◌, ◌↔◌, refl, ◌⊎◌, inl, inr, Bool-cases,
  Option-cases,
}
use zstrategy.Base.Text.{Text, codes}
use zstrategy.Base.Result.{Result, ok, throw, Result-cases}
use zstrategy.Js.{text_of}
use zstrategy.Shares.{Table}
use zstrategy.Reconstruct.{reconstruct_user_secret}
use zstrategy.Request.{ExecuteRequest}
use zstrategy.Submitter.{Run, submit_execution}
use zstrategy.ShareApi.{has_secret, executing}
use zstrategy.ExecuteApi.{
  ExecuteBody, Counters, invalid, Reverified, refused, confirmed, reverify, request_of, Execution,
  answered, count, Environment, submit_built, with_condition, execute, accepted,
}
use zstrategy.ExecuteApi.Condition.{ConditionHolds, reverify_iff}

Reverified-cases :
    (r : Reverified)
    → ((n : ℕ) × (m : Text) × (r ≡ refused n m)) ⊎ ((stamp : Option ℕ) × (r ≡ confirmed stamp))
Reverified-cases (refused n m) = inl (n, m, refl)
Reverified-cases (confirmed stamp) = inr (stamp, refl)

-- The response says that the execution has started.
abbrev pub IsAccepted : Execution → Type 0
IsAccepted x = (h : Text) × (x.response.body ≡ executing h)

module _ (env : Environment) (auth : Option Text) (b : ExecuteBody) (t : Table) (s : Counters) where
  -- The secret of the request's commitment, from the store.
  abbrev pub reconstructed : Result Text
  reconstructed =
      reconstruct_user_secret env.ecies env.shamir env.threshold_k env.keys
        (text_of b.commitment_hash) t

  -- The request passes the tests, its condition holds with a timestamp, and its secret is there.
  abbrev pub IsAcceptable : Option ℕ → Text → Type 0
  IsAcceptable stamp secret =
      (has_secret env.api_secret auth ≡ true)
      × (invalid env.checks b ≡ none)
      × ConditionHolds env.now_ms env.feeds b stamp
      × (reconstructed ≡ ok secret)

  pub execute_acceptable :
      (stamp : Option ℕ) (secret : Text)
      → IsAcceptable stamp secret
      → execute env auth b t s
        ≡ submit_built env s (accepted env b) (request_of env.checks b stamp secret)
  unfolding execute
  execute_acceptable stamp secret (a, v, c, r) =
      rw (a, v, (reverify_iff env.now_ms env.feeds b stamp).1 c, r) refl

  answered-refuses : (n : ℕ) (m : Text) → ¬ (IsAccepted (answered s n m))
  answered-refuses n m (h, e) = cc

  -- With a secret that does not come from the store the tests have no other end than a refusal.
  pub with_condition_sound :
      (r : Reverified)
      → IsAccepted (with_condition env b t s r)
      → (stamp : Option ℕ) × (secret : Text) × (r ≡ confirmed stamp) × (reconstructed ≡ ok secret)
  with_condition_sound (refused n m) a = absurd (answered-refuses n m a)
  with_condition_sound (confirmed stamp) (h, e) = elim (Result-cases reconstructed) [
    | inl (secret, r) ↦ (stamp, secret, refl, r)
    | inr (m, r) ↦
        absurd (answered-refuses 500 (codes "Reconstruction failed: Error: " ++ m) (h, rw r at e))
  ]

  execute_sound :
      IsAccepted (execute env auth b t s)
      → (stamp : Option ℕ) × (secret : Text) × IsAcceptable stamp secret
  unfolding execute
  execute_sound (h, e) = elim (Bool-cases (has_secret env.api_secret auth)) [
    | inl good ↦ elim (Option-cases (invalid env.checks b)) [
      | inl fine ↦
          let (stamp, secret, c, r) =
            with_condition_sound (reverify env.now_ms env.feeds b) (h, rw (good, fine) at e) in
          (stamp, secret, (good, fine, (reverify_iff env.now_ms env.feeds b stamp).0 c, r))
      | inr (m, bad) ↦ absurd (answered-refuses 400 m (h, rw (good, bad) at e))
    ]
    | inr bad ↦ absurd (answered-refuses 401 (codes "Unauthorized") (h, rw bad at e))
  ]

  pub submit_built-IsAccepted :
      (r : Result ExecuteRequest) → IsAccepted (submit_built env s (accepted env b) r)
  submit_built-IsAccepted (ok req) = (text_of b.commitment_hash, refl)
  submit_built-IsAccepted (throw m) = (text_of b.commitment_hash, refl)

  -- The request is accepted exactly when it carries the secret of the API, passes the tests of its fields, its
  -- condition holds on the handler's own check, and the secret of its commitment can be reconstructed.
  pub execute-IsAccepted_iff :
      IsAccepted (execute env auth b t s)
      ↔ ((stamp : Option ℕ) × (secret : Text) × IsAcceptable stamp secret)
  execute-IsAccepted_iff = (
    execute_sound,
    (λ (stamp, secret, a).
        rw (execute_acceptable stamp secret a)
          (submit_built-IsAccepted (request_of env.checks b stamp secret))),
  )

  -- How many submissions of a request return a hash, and how many throw.
  abbrev pub successes : Option Run → ℕ
  successes none = 0
  successes (some run) = elim run.result [ ok hash ↦ 1 | throw m ↦ 0 ]

  abbrev pub failures : Option Run → ℕ
  failures none = 0
  failures (some run) = elim run.result [ ok hash ↦ 0 | throw m ↦ 1 ]

  abbrev pub IsCounted : Execution → Type 0
  IsCounted x =
      (x.counters.executed_count ≡ s.executed_count + successes x.run)
      × (x.counters.failed_count ≡ s.failed_count + failures x.run)

  answered-IsCounted : (n : ℕ) (m : Text) → IsCounted (answered s n m)
  answered-IsCounted n m = (omega arith, omega arith)

  count_executed :
      (r : Result Text)
      → (count r s).executed_count ≡ s.executed_count + elim r [ ok hash ↦ 1 | throw m ↦ 0 ]
  count_executed (ok hash) = refl
  count_executed (throw m) = omega arith

  count_failed :
      (r : Result Text)
      → (count r s).failed_count ≡ s.failed_count + elim r [ ok hash ↦ 0 | throw m ↦ 1 ]
  count_failed (ok hash) = omega arith
  count_failed (throw m) = refl

  submit_built-IsCounted :
      (r : Result ExecuteRequest) → IsCounted (submit_built env s (accepted env b) r)
  submit_built-IsCounted (ok req) =
      let result = (submit_execution env.config env.worlds req).result in
      (count_executed result, count_failed result)
  submit_built-IsCounted (throw m) = (omega arith, omega arith)

  with_condition-IsCounted : (r : Reverified) → IsCounted (with_condition env b t s r)
  with_condition-IsCounted (refused n m) = answered-IsCounted n m
  with_condition-IsCounted (confirmed stamp) = elim (Result-cases reconstructed) [
    | inl (secret, r) ↦ rw r (submit_built-IsCounted (request_of env.checks b stamp secret))
    | inr (m, r) ↦ rw r (answered-IsCounted 500 (codes "Reconstruction failed: Error: " ++ m))
  ]

  -- On every path of the handler the counters change only by a submission: `executedCount` goes up by one when it
  -- returns a hash, and `failedCount` by one when it throws. Without a submission both stay.
  pub execute-IsCounted : IsCounted (execute env auth b t s)
  unfolding execute
  execute-IsCounted = elim (Bool-cases (has_secret env.api_secret auth)) [
    | inl good ↦ elim (Option-cases (invalid env.checks b)) [
      | inl fine ↦ rw (good, fine) (with_condition-IsCounted (reverify env.now_ms env.feeds b))
      | inr (m, bad) ↦ rw (good, bad) (answered-IsCounted 400 m)
    ]
    | inr bad ↦ rw bad (answered-IsCounted 401 (codes "Unauthorized"))
  ]

  -- When the handler's own check of the condition refuses a request, the store of shares has no part in what the
  -- request does: with any other table the response and the counters are the same, and nothing is submitted.
  pub execute-refused_blind :
      (t' : Table) (n : ℕ) (m : Text)
      → reverify env.now_ms env.feeds b ≡ refused n m
      → (execute env auth b t s ≡ execute env auth b t' s) × ((execute env auth b t s).run ≡ none)
  unfolding execute
  execute-refused_blind t' n m r = elim (Bool-cases (has_secret env.api_secret auth)) [
    | inl good ↦ elim (Option-cases (invalid env.checks b)) [
      | inl fine ↦ rw (good, fine, r) (refl, refl)
      | inr (message, bad) ↦ rw (good, bad) (refl, refl)
    ]
    | inr bad ↦ rw bad (refl, refl)
  ]
