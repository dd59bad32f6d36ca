-- ===== src/Dca/Consistent.antt =====
-- What a submitted DCA strategy registers, saves and posts (frontend/src/app/(dashboard)/dca/page.tsx).
use zstrategy.Base.{
  ℕ, suc, ◌+◌, ◌≤◌, not, ◌||◌, List, [], ◌∷◌, Option, none, some, map, length, ◌≡◌, refl, ap, sym,
  ◌∙◌, arith, inl, inr, Bool-cases, Option-cases, length-map, length-replicate,
}
use mathlib.Core.Path.{subst}
use zstrategy.Base.Int.{pos}
use zstrategy.Base.Text.{Text}
use zstrategy.Base.Result.{Result, ok, >>=-eq-ok}
use zstrategy.Commitment.{
  dca_commitment_hash, dca_nullifier_hash, derive_strategy_id, derive_user_secret,
  strategy_id_signing_message,
}
use zstrategy.Dca.{
  Window, build_schedule, DcaRoundRecord, Submission, DcaForm, DcaPorts, round_record,
  round_records, submit_for, handle_submit, is_zero, round_count_valid,
}
use zstrategy.Dca.Schedule.{length-windows_from}

-- The window of a record.
abbrev pub windows_of : DcaRoundRecord → Window
windows_of r = record {
  scheduled_lo = r.scheduled_lo;
  scheduled_hi = r.scheduled_hi;
  expiry = r.expiry;
}

none_is_some : {A : Type 0} {a : A} → ¬ (none ≡ some a)
none_is_some h = cc

some_injective : {A : Type 0} (a b : A) → ◌≡◌ {A = Option A} (some a) (some b) → a ≡ b
some_injective a b h = cc

ok_injective : {A : Type 0} (a b : A) → ◌≡◌ {A = Result A} (ok a) (ok b) → a ≡ b
ok_injective a b h = cc

module _ (ports : DcaPorts) (form : DcaForm) where
  round_record-window :
      (owner strategy_id user_secret : Text) (i : ℕ) (w : Window) (r : DcaRoundRecord)
      → round_record ports form owner strategy_id user_secret i w ≡ ok r
      → windows_of r ≡ w
  round_record-window owner strategy_id user_secret i w r h =
      let (hash, e, h1) = >>=-eq-ok (dca_commitment_hash ports.hashing _) _ {b = r} h in
      let (nullifier, e', h2) =
        >>=-eq-ok (dca_nullifier_hash ports.hashing user_secret (ports.round_nonce i)) _ {b = r}
          h1 in
      sym (ap windows_of (ok_injective _ r h2))

  -- The records have the windows of the schedule.
  round_records-windows :
      (owner strategy_id user_secret : Text) (i : ℕ) (ws : List Window) (rs : List DcaRoundRecord)
      → round_records ports form owner strategy_id user_secret i ws ≡ ok rs
      → (length rs ≡ length ws) × (map windows_of rs ≡ ws)
  unfolding round_records
  round_records-windows owner strategy_id user_secret i [] rs h = ground arith
  round_records-windows owner strategy_id user_secret i (w ∷ ws) rs h =
      let (r, e, h1) =
        >>=-eq-ok (round_record ports form owner strategy_id user_secret i w) _ {b = rs} h in
      let (more, e', h2) =
        >>=-eq-ok (round_records ports form owner strategy_id user_secret (i + 1) ws) _ {b = rs}
          h1 in
      let (len, same) = round_records-windows owner strategy_id user_secret (i + 1) ws more e' in
      let here : windows_of r ≡ w = round_record-window owner strategy_id user_secret i w r e in
      let all : r ∷ more ≡ rs = cc in rw (← all) (ap suc len, cc (here, same))

  -- What the batch and the records of a submission have to do with each other.
  abbrev pub IsConsistent : Submission → Type 0
  IsConsistent s =
      (map windows_of s.records ≡ build_schedule form.round_count form.interval ports.current_now)
      × (s.batch.hashes ≡ map (λ r. r.commitment_hash) s.records)
      × (s.batch.expiries ≡ map (λ r. pos r.expiry) s.records)
      × (length s.batch.hashes ≡ form.round_count)
      × (length s.batch.sizes ≡ form.round_count)
      × (length s.batch.min_outs ≡ form.round_count)

  expiries-windows :
      (rs : List DcaRoundRecord)
      → map (λ w. pos w.expiry) (map windows_of rs) ≡ map (λ r. pos r.expiry) rs
  expiries-windows [] = refl
  expiries-windows (r ∷ rs) = ap (λ l. pos r.expiry ∷ l) (expiries-windows rs)

  length-build_schedule :
      length (build_schedule form.round_count form.interval ports.current_now) ≡ form.round_count
  unfolding build_schedule
  length-build_schedule = length-windows_from form.interval ports.current_now 0 form.round_count

  submit_for-IsConsistent :
      (owner : Text) (s : Submission) → submit_for ports form owner ≡ ok s → IsConsistent s
  unfolding submit_for
  submit_for-IsConsistent owner s h =
      let (strategy_id, e1, h1) =
        >>=-eq-ok (derive_strategy_id ports.hashing owner form.shared_nonce) _ {b = s} h in
      let (keepers, e2, h2) = >>=-eq-ok ports.list_keepers _ {b = s} h1 in
      let (signature, e3, h3) =
        >>=-eq-ok (ports.sign_message (strategy_id_signing_message strategy_id)) _ {b = s} h2 in
      let (user_secret, e4, h4) =
        >>=-eq-ok (derive_user_secret ports.hashing signature) _ {b = s} h3 in
      let sched : List Window = build_schedule form.round_count form.interval ports.current_now in
      let (records, e5, h5) =
        >>=-eq-ok (round_records ports form _ strategy_id user_secret 0 sched) _ {b = s} h4 in
      let (shares, e6, h6) = >>=-eq-ok (ports.split_and_encrypt user_secret keepers) _ {b = s} h5 in
      let (saved, e7, h7) = >>=-eq-ok (ports.save_rounds records) _ {b = s} h6 in
      let (len, same) = round_records-windows _ strategy_id user_secret 0 sched records e5 in
      subst (λ x. IsConsistent x) (ok_injective _ s h7)
        (
          same,
          refl,
          ap (λ l. map (λ w. pos w.expiry) l) (sym same) ∙ expiries-windows records,
          length-map records _ ∙ len ∙ length-build_schedule,
          length-replicate form.round_count form.size,
          length-replicate form.round_count (pos 0),
        )

  -- What a strategy that goes through has: between 2 and 10 rounds; a hash, a size and a minimal output for each
  -- round in the batch; and the records that are saved have the windows of the schedule, and the batch their
  -- hashes and expiries.
  pub handle_submit-registers :
      (s : Submission)
      → handle_submit ports form ≡ some (ok s)
      → (2 ≤ form.round_count) × (form.round_count ≤ 10) × IsConsistent s
  unfolding handle_submit submit_for round_records
  handle_submit-registers s h = elim (Option-cases form.address) [
    | inl absent ↦ absurd (none_is_some (rw absent at h))
    | inr (owner, at) ↦
        elim (Bool-cases (
          not form.is_connected || is_zero form.size || not (round_count_valid form.round_count))) [
            | inl ignored ↦ absurd (none_is_some (rw (at, ignored) at h))
            | inr checked ↦
                let done : submit_for ports form owner ≡ ok s =
                  some_injective _ _ (rw (at, checked) at h) in
                (ground arith, ground arith, submit_for-IsConsistent owner s done)
          ]
  ]
