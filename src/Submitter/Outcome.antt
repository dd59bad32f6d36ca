-- ===== src/Submitter/Outcome.antt =====
-- When `submitExecution` succeeds, and what it tells the backend (keeper/src/execution/submitter.ts).
use zstrategy.Base.{
  ℕ, zero, suc, ◌+◌, ◌≤◌, ◌<◌, Bool, true, false, ◌++◌, Option, none, some, ◌≡◌, ◌↔◌, refl, ap, ◌∙◌,
  arith, ◌⊎◌, inl, inr, Bool-cases, if◌then◌else◌,
}
use zstrategy.Base.Text.{Text, codes}
use zstrategy.Base.Result.{ok, throw}
use zstrategy.Request.{ExecuteRequest}
use zstrategy.Submitter.{
  SubmitConfig, World, Run, notify_backend_done, attempt, exhausted, is_user_fixable_revert,
  is_definitive_revert, submit_from, submit_execution,
}
use zstrategy.Submitter.Posts.{due_posts}
use zstrategy.Submitter.Traces.{posts, posts_only}
use zstrategy.Submitter.Attempts.{
  submit_from_induction, submit_from_ok, submit_from_throw, caught_transient,
}

abbrev IsLoopError : Text → Type 0
IsLoopError m = (is_user_fixable_revert m ≡ false) × (is_definitive_revert m ≡ false)

module _ (c : SubmitConfig) (worlds : ℕ → World) (req : ExecuteRequest) where
  exhausted-posts :
      (last : Text)
      → IsLoopError last
      → posts (exhausted c req.commitment_hash last).events
        ≡ notify_backend_done c req.commitment_hash (codes "max retries exceeded: " ++ last)
  unfolding exhausted
  exhausted-posts last (f, d) =
      rw f ((posts_only c req.commitment_hash (codes "max retries exceeded: " ++ last)).1)

  abbrev PostsAreDue : Run → Type 0
  PostsAreDue run = posts run.events ≡ due_posts c req.commitment_hash run.result run.last_error

  -- The hash that some attempt from `i` on, of those left, returns, when each attempt before it ends by an
  -- error that is neither user-fixable nor definitive.
  pub data ReturnsFrom : ℕ → ℕ → Text → Type 0 where
    now :
        (i left : ℕ) (tx : Text)
        → (attempt c (worlds i) req).1 ≡ ok tx
        → ReturnsFrom i (suc left) tx
    later :
        (i left : ℕ) (tx m : Text)
        → (attempt c (worlds i) req).1 ≡ throw m
        → IsLoopError m
        → ReturnsFrom (i + 1) left tx
        → ReturnsFrom i (suc left) tx

  exhausted-no_hash : (last tx : Text) → ¬ ((exhausted c req.commitment_hash last).result ≡ ok tx)
  unfolding exhausted
  exhausted-no_hash last tx h = cc

  submit_from-ReturnsFrom :
      (tx : Text) (i left : ℕ) (last : Text)
      → (submit_from c worlds req i left last).result ≡ ok tx
      → ReturnsFrom i left tx
  submit_from-ReturnsFrom tx =
      submit_from_induction c worlds req
        (λ i left last run. run.result ≡ ok tx → ReturnsFrom i left tx)
        (λ i last h. absurd (exhausted-no_hash last tx h))
        (λ i left last hash e h. now i left tx (e ∙ h)) (λ i left last m e f h. cc)
        (λ i left last m e f d h. cc)
        (λ i left last m retry e f d ih h. later i left tx m e (f, d) (ih h))

  ReturnsFrom-submit_from :
      (tx : Text) (i left : ℕ) (last : Text)
      → ReturnsFrom i left tx
      → (submit_from c worlds req i left last).result ≡ ok tx
  ReturnsFrom-submit_from tx i zero last r = elim r [ ]
  ReturnsFrom-submit_from tx i (suc left) last (now _ _ _ e) =
      rw (submit_from_ok c worlds req i left last tx e) refl
  ReturnsFrom-submit_from tx i (suc left) last (later _ _ _ m e (f, d) r) =
      let rest = submit_from c worlds req (i + 1) left m in
      rw
        (
          submit_from_throw c worlds req i left last m e,
          caught_transient c req.commitment_hash i m rest f d,
        )
        (ReturnsFrom-submit_from tx (i + 1) left m r)

  -- For any number of attempts, `submitExecution` returns a hash exactly when one of its attempts returns that
  -- hash and each attempt before it ended by an error that is neither user-fixable nor definitive.
  pub submit_execution-ok_iff :
      (tx : Text)
      → ((submit_execution c worlds req).result ≡ ok tx) ↔ ReturnsFrom 0 c.max_retries tx
  unfolding submit_execution
  submit_execution-ok_iff tx = (
    submit_from-ReturnsFrom tx 0 c.max_retries (codes "unknown"),
    ReturnsFrom-submit_from tx 0 c.max_retries (codes "unknown"),
  )
