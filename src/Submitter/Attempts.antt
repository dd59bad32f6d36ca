-- ===== src/Submitter/Attempts.antt =====
-- The steps of the loop of `submitExecution`, and induction on it
-- (keeper/src/execution/submitter.ts).
use zstrategy.Base.{
  ℕ, zero, suc, ◌+◌, ◌*◌, ◌^◌, true, false, [], ◌∷◌, ◌≡◌, refl, inl, inr, Bool-cases,
}
use zstrategy.Base.Text.{Text}
use zstrategy.Base.Result.{ok, throw, Result-cases}
use zstrategy.Request.{ExecuteRequest}
use zstrategy.Submitter.{
  SubmitConfig, World, slept, Run, before, is_user_fixable_revert, is_definitive_revert,
  notify_backend_done, attempt, exhausted, caught, user_fixable_error, definitive_error,
  submit_from,
}

module _ (c : SubmitConfig) (hash : Text) (i : ℕ) (m : Text) (retry : Run) where
  pub caught_fixable :
      is_user_fixable_revert m ≡ true
      → caught c hash i m retry
        ≡ record { events = []; last_error = m; result = throw (user_fixable_error hash m) }
  unfolding caught
  caught_fixable h = rw h refl

  pub caught_definitive :
      is_user_fixable_revert m ≡ false
      → is_definitive_revert m ≡ true
      → caught c hash i m retry ≡ record {
        events = notify_backend_done c hash m;
        last_error = m;
        result = throw (definitive_error hash m);
      }
  unfolding caught
  caught_definitive h k = rw (h, k) refl

  pub caught_transient :
      is_user_fixable_revert m ≡ false
      → is_definitive_revert m ≡ false
      → caught c hash i m retry ≡ before (slept (c.retry_base_delay_ms * 2 ^ i) ∷ []) retry
  unfolding caught
  caught_transient h k = rw (h, k) refl

module _ (c : SubmitConfig) (worlds : ℕ → World) (req : ExecuteRequest) where
  submit_from_zero :
      (i : ℕ) (last : Text)
      → submit_from c worlds req i 0 last ≡ exhausted c req.commitment_hash last
  unfolding submit_from
  submit_from_zero i last = refl

  pub submit_from_ok :
      (i left : ℕ) (last tx : Text)
      → (attempt c (worlds i) req).1 ≡ ok tx
      → submit_from c worlds req i (suc left) last
        ≡ record { events = (attempt c (worlds i) req).0; last_error = last; result = ok tx }
  unfolding submit_from
  submit_from_ok i left last tx h = rw h refl

  pub submit_from_throw :
      (i left : ℕ) (last m : Text)
      → (attempt c (worlds i) req).1 ≡ throw m
      → submit_from c worlds req i (suc left) last
        ≡ before
            (attempt c (worlds i) req).0
            (caught c req.commitment_hash i m (submit_from c worlds req (i + 1) left m))
  unfolding submit_from
  submit_from_throw i left last m h = rw h refl

  -- Induction over the loop: what holds below the loop and for each way in which an attempt can end
  -- holds of the loop from any attempt on.
  module _ {ℓ} (P : ℕ → ℕ → Text → Run → Type ℓ) where
    pub submit_from_induction :
        ((i : ℕ) (last : Text) → P i 0 last (exhausted c req.commitment_hash last))
        → ((i left : ℕ) (last tx : Text)
            → (attempt c (worlds i) req).1 ≡ ok tx
            → P i (suc left) last (record {
              events = (attempt c (worlds i) req).0;
              last_error = last;
              result = ok tx;
            }))
        → ((i left : ℕ) (last m : Text)
            → (attempt c (worlds i) req).1 ≡ throw m
            → is_user_fixable_revert m ≡ true
            → P i (suc left) last (
                before (attempt c (worlds i) req).0 (record {
                  events = [];
                  last_error = m;
                  result = throw (user_fixable_error req.commitment_hash m);
                })))
        → ((i left : ℕ) (last m : Text)
            → (attempt c (worlds i) req).1 ≡ throw m
            → is_user_fixable_revert m ≡ false
            → is_definitive_revert m ≡ true
            → P i (suc left) last (
                before (attempt c (worlds i) req).0 (record {
                  events = notify_backend_done c req.commitment_hash m;
                  last_error = m;
                  result = throw (definitive_error req.commitment_hash m);
                })))
        → ((i left : ℕ) (last m : Text) (retry : Run)
            → (attempt c (worlds i) req).1 ≡ throw m
            → is_user_fixable_revert m ≡ false
            → is_definitive_revert m ≡ false
            → P (i + 1) left m retry
            → P i (suc left) last (
                before
                  (attempt c (worlds i) req).0
                  (before (slept (c.retry_base_delay_ms * 2 ^ i) ∷ []) retry)))
        → (i left : ℕ) (last : Text) → P i left last (submit_from c worlds req i left last)
    submit_from_induction done success fixable definitive transient i zero last =
        rw (submit_from_zero i last) (done i last)
    submit_from_induction done success fixable definitive transient i (suc left) last =
        elim (Result-cases (attempt c (worlds i) req).1) [
          | inl (tx, e) ↦ rw (submit_from_ok i left last tx e) (success i left last tx e)
          | inr (m, e) ↦
              let retry : Run = submit_from c worlds req (i + 1) left m in
              let ih : P (i + 1) left m retry =
                submit_from_induction done success fixable definitive transient (i + 1) left m in
              rw (submit_from_throw i left last m e) (elim (Bool-cases (is_user_fixable_revert m)) [
                | inl yes_fixable ↦
                    rw (caught_fixable c req.commitment_hash i m retry yes_fixable)
                      (fixable i left last m e yes_fixable)
                | inr not_fixable ↦ elim (Bool-cases (is_definitive_revert m)) [
                  | inl final ↦
                      rw (caught_definitive c req.commitment_hash i m retry not_fixable final)
                        (definitive i left last m e not_fixable final)
                  | inr again ↦
                      rw (caught_transient c req.commitment_hash i m retry not_fixable again)
                        (transient i left last m retry e not_fixable again ih)
                ]
              ])
        ]
