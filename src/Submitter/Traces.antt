-- ===== src/Submitter/Traces.antt =====
-- What an attempt of keeper/src/execution/submitter.ts sends, posts and sleeps.
use zstrategy.Base.{
  ℕ, ◌+◌, List, [], ◌∷◌, ◌++◌, Option, ◌≡◌, refl, ap, arith, ◌⊎◌, inl, inr, Bool-cases,
}
use zstrategy.Base.Text.{Text}
use zstrategy.Base.Result.{Result, ok, throw}
use zstrategy.Request.{ExecuteRequest}
use zstrategy.Submitter.{
  SubmitConfig, World, Call, Receipt, Event, sent, replayed, posted, slept, notify_backend_done,
  prepare, settle, succeeded, conclude, after_wait, after_send, after_prepare, attempt,
}

-- The calls that were sent, the posts, and the milliseconds slept.
abbrev pub sent_calls : List Event → List Call
sent_calls [] = []
sent_calls (sent call ∷ events) = call ∷ sent_calls events
sent_calls (replayed ∷ events) = sent_calls events
sent_calls (posted url reason ∷ events) = sent_calls events
sent_calls (slept ms ∷ events) = sent_calls events

abbrev pub posts : List Event → List Event
posts [] = []
posts (sent call ∷ events) = posts events
posts (replayed ∷ events) = posts events
posts (posted url reason ∷ events) = posted url reason ∷ posts events
posts (slept ms ∷ events) = posts events

abbrev pub slept_total : List Event → ℕ
slept_total [] = 0
slept_total (sent call ∷ events) = slept_total events
slept_total (replayed ∷ events) = slept_total events
slept_total (posted url reason ∷ events) = slept_total events
slept_total (slept ms ∷ events) = ms + slept_total events

pub sent_calls-append :
    (xs ys : List Event) → sent_calls (xs ++ ys) ≡ sent_calls xs ++ sent_calls ys
sent_calls-append [] ys = refl
sent_calls-append (sent call ∷ xs) ys = ap (λ l. call ∷ l) (sent_calls-append xs ys)
sent_calls-append (replayed ∷ xs) ys = sent_calls-append xs ys
sent_calls-append (posted url reason ∷ xs) ys = sent_calls-append xs ys
sent_calls-append (slept ms ∷ xs) ys = sent_calls-append xs ys

pub posts-append : (xs ys : List Event) → posts (xs ++ ys) ≡ posts xs ++ posts ys
posts-append [] ys = refl
posts-append (sent call ∷ xs) ys = posts-append xs ys
posts-append (replayed ∷ xs) ys = posts-append xs ys
posts-append (posted url reason ∷ xs) ys = ap (λ l. posted url reason ∷ l) (posts-append xs ys)
posts-append (slept ms ∷ xs) ys = posts-append xs ys

pub slept_total-append :
    (xs ys : List Event) → slept_total (xs ++ ys) ≡ slept_total xs + slept_total ys
slept_total-append [] ys = omega arith
slept_total-append (sent call ∷ xs) ys = slept_total-append xs ys
slept_total-append (replayed ∷ xs) ys = slept_total-append xs ys
slept_total-append (posted url reason ∷ xs) ys = slept_total-append xs ys
slept_total-append (slept ms ∷ xs) ys = omega (arith, slept_total-append xs ys)

-- One attempt sends at most the call that it prepared, posts nothing and does not pause.
pub record IsOneAttempt (events : List Event) (prepared : Result Call) : Type 0 where
  pub sends :
      (sent_calls events ≡ [])
      ⊎ ((call : Call) × (prepared ≡ ok call) × (sent_calls events ≡ call ∷ []))
  pub posts_nothing : posts events ≡ []
  pub sleeps_nothing : slept_total events ≡ 0

-- Events that send nothing, post nothing and do not pause.
abbrev IsQuiet : List Event → Type 0
IsQuiet events = (sent_calls events ≡ []) × (posts events ≡ []) × (slept_total events ≡ 0)

conclude-IsQuiet :
    (w : World) (call : Call) (hash : Text) (receipt : Option Receipt)
    → IsQuiet (conclude w call hash receipt).0
unfolding conclude
conclude-IsQuiet w call hash receipt = elim (Bool-cases (succeeded receipt)) [
  | inl good ↦ rw good (refl, refl, refl)
  | inr bad ↦ rw bad (refl, refl, refl)
]

after_wait-IsQuiet :
    (w : World) (call : Call) (hash : Text) (r : Result (Option Receipt))
    → IsQuiet (after_wait w call hash r).0
after_wait-IsQuiet w call hash (ok receipt) = conclude-IsQuiet w call hash receipt
after_wait-IsQuiet w call hash (throw m) = (refl, refl, refl)

after_send-IsOneAttempt :
    (w : World) (call : Call) (r : Result Text) → IsOneAttempt (after_send w call r).0 (ok call)
after_send-IsOneAttempt w call (throw m) = record {
  sends = inl refl;
  posts_nothing = refl;
  sleeps_nothing = refl;
}
after_send-IsOneAttempt w call (ok hash) =
    let (no_sends, no_posts, no_sleeps) = after_wait-IsQuiet w call hash (settle (w.wait hash)) in
    record {
      sends = inr (call, refl, ap (λ l. call ∷ l) no_sends);
      posts_nothing = no_posts;
      sleeps_nothing = no_sleeps;
    }

after_prepare-IsOneAttempt : (w : World) (r : Result Call) → IsOneAttempt (after_prepare w r).0 r
after_prepare-IsOneAttempt w (throw m) = record {
  sends = inl refl;
  posts_nothing = refl;
  sleeps_nothing = refl;
}
after_prepare-IsOneAttempt w (ok call) = after_send-IsOneAttempt w call (w.send call)

pub attempt-IsOneAttempt :
    (c : SubmitConfig) (w : World) (req : ExecuteRequest)
    → IsOneAttempt (attempt c w req).0 (prepare c w req)
unfolding attempt
attempt-IsOneAttempt c w req = after_prepare-IsOneAttempt w (prepare c w req)

-- A post to the backend sends no transaction and does not pause.
pub posts_only :
    (c : SubmitConfig) (hash reason : Text)
    → (sent_calls (notify_backend_done c hash reason) ≡ [])
      × (posts (notify_backend_done c hash reason) ≡ notify_backend_done c hash reason)
      × (slept_total (notify_backend_done c hash reason) ≡ 0)
unfolding notify_backend_done
posts_only c hash reason = ground arith
