-- ===== src/RateLimit/Bound.antt =====
-- What the token bucket of GET /api/keepers guarantees (keeper/src/api/server.ts).
use zstrategy.Base.{
  ℕ, ◌+◌, ◌*◌, ◌-◌, ◌/◌, ◌≤◌, ◌<◌, min, Bool, true, false, not, List, [], ◌∷◌, Option, none, some,
  ltb, ◌≡◌, refl, sym, ap, ◌∙◌, arith, inl, inr, Bool-cases,
}
use zstrategy.Base.Int.{pos, ltb_ℤ, ◌+ℤ◌, ◌-ℤ◌, pos_part, neg_part}
use zstrategy.Base.Text.{Text, text_eq, text_eq_iff, text_eq_refl}
use zstrategy.RateLimit.{
  Bucket, Buckets, one_token, full, bucket_or_full, set_bucket, refill, spend, keepers_rate_limit,
  swept_away, sweep, Tick, request, swept, time_of, count_if, granted,
}

-- A bucket holds no debt and was not updated after a time.
abbrev pub IsSound : ℕ → Option Bucket → Type 0
IsSound now none = Unit
IsSound now (some b) = (neg_part b.tokens ≡ 0) × (b.updated ≤ now)

-- The units that an address has at a time.
abbrev pub level : ℕ → Option Bucket → ℕ
level now none = full
level now (some b) = min full (pos_part b.tokens + (now - b.updated))

refill-level :
    (now : ℕ) (o : Option Bucket)
    → IsSound now o
    → refill (bucket_or_full o now) now ≡ pos (level now o)
unfolding refill ◌+ℤ◌ ◌-ℤ◌
refill-level now none s = ground arith
refill-level now (some b) s = ground arith

level-le-full : (now : ℕ) (o : Option Bucket) → level now o ≤ full
level-le-full now none = omega arith
level-le-full now (some b) = omega arith

spend_enough :
    (ip : Text) (now n : ℕ) (m : Buckets)
    → one_token ≤ n
    → spend ip now (pos n) m
      ≡ (true, set_bucket ip (record { tokens = pos (n - one_token); updated = now }) m)
unfolding ◌-ℤ◌
spend_enough ip now n m enough = ground arith

spend_few :
    (ip : Text) (now n : ℕ) (m : Buckets)
    → n < one_token
    → spend ip now (pos n) m ≡ (false, set_bucket ip (record { tokens = pos n; updated = now }) m)
spend_few ip now n m few = ground arith

limit-eq-spend :
    (ip : Text) (now : ℕ) (m : Buckets)
    → IsSound now (m ip)
    → keepers_rate_limit ip now m ≡ spend ip now (pos (level now (m ip))) m
unfolding keepers_rate_limit
limit-eq-spend ip now m s = ap (λ z. spend ip now z m) (refill-level now (m ip) s)

-- One request of the address: with a token's units it is let through and they go; else it is refused and nothing goes.
limit_step :
    (ip : Text) (now : ℕ) (m : Buckets)
    → IsSound now (m ip)
    → IsSound now ((keepers_rate_limit ip now m).1 ip)
      × (count_if (keepers_rate_limit ip now m).0 0 * one_token
            + level now ((keepers_rate_limit ip now m).1 ip)
          ≡ level now (m ip))
limit_step ip now m s = elim (Bool-cases (ltb (level now (m ip)) one_token)) [
  | inl few ↦
      rw
        (
          limit-eq-spend ip now m s,
          spend_few ip now (level now (m ip)) m (ground arith),
          text_eq_refl ip,
        )
        ((refl, omega arith), omega (arith, level-le-full now (m ip)))
  | inr enough ↦
      let enough_units : one_token ≤ level now (m ip) = ground arith in
      rw
        (
          limit-eq-spend ip now m s,
          spend_enough ip now (level now (m ip)) m (ground arith),
          text_eq_refl ip,
        )
        ((refl, omega arith), omega (arith, level-le-full now (m ip), enough_units))
]

-- A request of another address.
limit_other :
    (who ip : Text) (now : ℕ) (m : Buckets)
    → text_eq who ip ≡ false
    → (keepers_rate_limit who now m).1 ip ≡ m ip
unfolding keepers_rate_limit
limit_other who ip now m other =
    elim (Bool-cases (ltb_ℤ (refill (bucket_or_full (m who) now) now) (pos one_token))) [
      | inl few ↦ rw few (rw other refl)
      | inr enough ↦ rw enough (rw other refl)
    ]

level-swept :
    (now : ℕ) (o : Option Bucket) → IsSound now o → level now (swept_away now o) ≡ level now o
unfolding ◌-ℤ◌
level-swept now none s = refl
level-swept now (some b) s = ground arith

swept-IsSound : (now : ℕ) (o : Option Bucket) → IsSound now o → IsSound now (swept_away now o)
swept-IsSound now none s = tt
swept-IsSound now (some b) s = ground arith

later-IsSound : (now now' : ℕ) (o : Option Bucket) → now ≤ now' → IsSound now o → IsSound now' o
later-IsSound now now' none le s = tt
later-IsSound now now' (some b) le (debt, at) = (debt, omega arith)

level-later :
    (now now' : ℕ) (o : Option Bucket)
    → now ≤ now'
    → IsSound now o
    → level now' o ≤ level now o + (now' - now)
level-later now now' none le s = omega arith
level-later now now' (some b) le (debt, at) = omega arith

-- The times of a run do not go back, from a start on; and its last time.
abbrev pub IsOrdered : ℕ → List Tick → Type 0
IsOrdered start [] = Unit
IsOrdered start (t ∷ ticks) = (start ≤ time_of t) × IsOrdered (time_of t) ticks

abbrev pub last_time : ℕ → List Tick → ℕ
last_time start [] = start
last_time start (t ∷ ticks) = last_time (time_of t) ticks

last_time-le :
    (start : ℕ) (ticks : List Tick) → IsOrdered start ticks → start ≤ last_time start ticks
last_time-le start [] o = omega arith
last_time-le start (t ∷ ticks) (le, o) = omega (arith, last_time-le (time_of t) ticks o)

count_if_suc : (b : Bool) (n : ℕ) → count_if b n ≡ count_if b 0 + n
count_if_suc true n = omega arith
count_if_suc false n = omega arith

sweep_lem : (now : ℕ) (m : Buckets) (ip : Text) → sweep now m ip ≡ swept_away now (m ip)
unfolding sweep
sweep_lem now m ip = refl

-- What a run lets through, against the units at its start.
granted-le :
    (ip : Text) (ticks : List Tick) (start : ℕ) (m : Buckets)
    → IsOrdered start ticks
    → IsSound start (m ip)
    → granted ip ticks m * one_token ≤ level start (m ip) + (last_time start ticks - start)
unfolding granted
granted-le ip [] start m o s = omega arith
granted-le ip (request who now ∷ ticks) start m (le, o) s =
    let ih = granted-le ip ticks now (keepers_rate_limit who now m).1 o in
    let here = later-IsSound start now (m ip) le s in
    let rise = level-later start now (m ip) le s in
    let more = last_time-le now ticks o in
    elim (Bool-cases (text_eq who ip)) [
      | inl same ↦
          let p : who ≡ ip = (text_eq_iff who ip).0 same in
          let step : IsSound now ((keepers_rate_limit who now m).1 ip)
              × (count_if (keepers_rate_limit who now m).0 0 * one_token
                    + level now ((keepers_rate_limit who now m).1 ip)
                  ≡ level now (m ip)) =
            rw p (limit_step ip now m here) in
          let passed = (keepers_rate_limit who now m).0 in
          let n = granted ip ticks (keepers_rate_limit who now m).1 in
          rw (same, count_if_suc passed n) (omega (arith, ih step.0, step.1, rise, more))
      | inr other ↦ rw other (
          let e = limit_other who ip now m other in
          let ih' : granted ip ticks (keepers_rate_limit who now m).1 * one_token
              ≤ level now (m ip) + (last_time now ticks - now) =
            rw e at (ih (rw e here)) in
          omega (arith, ih', rise, more))
    ]
granted-le ip (swept now ∷ ticks) start m (le, o) s =
    let here = later-IsSound start now (m ip) le s in
    let m' = sweep now m in
    let at : m' ip ≡ swept_away now (m ip) = sweep_lem now m ip in
    let ih : granted ip ticks m' * one_token
        ≤ level now (swept_away now (m ip)) + (last_time now ticks - now) =
      rw at at (granted-le ip ticks now m' o (rw at (swept-IsSound now (m ip) here))) in
    omega (
      arith,
      ih,
      level-swept now (m ip) here,
      level-later start now (m ip) le s,
      last_time-le now ticks o,
    )

-- For every address and every run of requests and sweeps whose times do not go back, from an empty map on:
-- in the time from `start` to the last of them at most 30 requests of the address are let through, and one more for
-- each 2000 milliseconds of it, whatever the requests of other addresses and the sweeps.
pub granted_bound :
    (ip : Text) (ticks : List Tick) (start : ℕ)
    → IsOrdered start ticks
    → granted ip ticks (λ k. none) ≤ 30 + (last_time start ticks - start) / 2000
granted_bound ip ticks start o = omega (arith, granted-le ip ticks start (λ k. none) o tt)

spend-eq-test :
    (ip : Text) (now n : ℕ) (m : Buckets) → (spend ip now (pos n) m).0 ≡ not (ltb n one_token)
spend-eq-test ip now n m = ground arith

limit-eq-test :
    (ip : Text) (now : ℕ) (m : Buckets)
    → IsSound now (m ip)
    → (keepers_rate_limit ip now m).0 ≡ not (ltb (level now (m ip)) one_token)
limit-eq-test ip now m s =
    ap (λ r. r.0) (limit-eq-spend ip now m s) ∙ spend-eq-test ip now (level now (m ip)) m

-- When an address has no bucket, or one that holds no debt and was not updated later than the time, a sweep at that
-- time changes nothing for it: its request is let through after the sweep exactly if it is let through without it.
pub sweep_unobservable :
    (ip : Text) (now : ℕ) (m : Buckets)
    → IsSound now (m ip)
    → (keepers_rate_limit ip now (sweep now m)).0 ≡ (keepers_rate_limit ip now m).0
sweep_unobservable ip now m s =
    let at : sweep now m ip ≡ swept_away now (m ip) = sweep_lem now m ip in
    limit-eq-test ip now (sweep now m) (rw at (swept-IsSound now (m ip) s))
    ∙ ap (λ n. not (ltb n one_token)) (ap (λ b. level now b) at ∙ level-swept now (m ip) s)
    ∙ sym (limit-eq-test ip now m s)
