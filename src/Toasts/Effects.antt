-- ===== src/Toasts/Effects.antt =====
-- What each effect does to a toast that loads, and after one (frontend/src/hooks/useTxToast.ts).
use zstrategy.Base.{
  Bool, true, false, ℕ, ◌<◌, none, some, ◌≡◌, refl, sym, ◌∙◌, inl, inr, zero, suc, ◌==◌,
  if◌then◌else◌, arith, Bool-cases, Option-cases,
}
use zstrategy.Base.Text.{Text, text_eq_refl}
use zstrategy.Toasts.{
  ToastArgs, Toasts, ToastLibrary, Effect, submit, confirming, confirm, fail, show_in, is_handled,
  submitted_toast, on_submitted, truthy_id, on_confirming, dismiss_current, confirmed_content,
  on_confirmed, failed_content, on_failed, run_effect, is_loading, settles,
}

true_ne_false : true ≡ false → ⊥
true_ne_false h = cc

if_true : (b : Bool) → (if b then true else b) ≡ b
if_true true = refl
if_true false = refl

if_false : (b : Bool) → (if b then false else b) ≡ false
if_false true = refl
if_false false = refl

if_none : (b : Bool) → (if b then false else false) ≡ false
if_none true = refl
if_none false = refl

-- The toast i is the one that loads, and the ref holds it.
abbrev pub IsPending : Text → ℕ → Toasts → Type 0
IsPending h i t =
    (t.toast_id ≡ some i) × (t.handled_hash ≡ some h) × ((j : ℕ) → is_loading t.calls j ≡ (i == j))

-- No toast loads, and the ref is empty.
abbrev pub IsSettled : Text → Toasts → Type 0
IsSettled h t =
    (t.toast_id ≡ none) × (t.handled_hash ≡ some h) × ((j : ℕ) → is_loading t.calls j ≡ false)

module _ (lib : ToastLibrary) (h : Text) (p : ToastArgs) (is_for : p.hash ≡ some h) where
  submit-stays : (t : Toasts) → t.handled_hash ≡ some h → run_effect lib submit p t ≡ t
  unfolding run_effect on_submitted submitted_toast is_handled
  submit-stays t handled = rw (is_for, handled, text_eq_refl h) refl

  confirming-IsPending :
      (t : Toasts) (i : ℕ) → 0 < i → IsPending h i t → IsPending h i (run_effect lib confirming p t)
  unfolding run_effect on_confirming truthy_id is_loading
  confirming-IsPending t zero positive pending = absurd (omega (arith, positive))
  confirming-IsPending t (suc i) positive (ref, handled, loads) =
      elim (Bool-cases p.is_confirming) [
        | inl on ↦ rw (on, ref) (ref, handled, λ j. rw (loads j) (if_true (suc i == j)))
        | inr off ↦ rw off (ref, handled, loads)
      ]

  confirming-IsSettled : (t : Toasts) → IsSettled h t → IsSettled h (run_effect lib confirming p t)
  unfolding run_effect on_confirming truthy_id
  confirming-IsSettled t (ref, handled, loads) = elim (Bool-cases p.is_confirming) [
    | inl on ↦ rw (on, ref) (ref, handled, loads)
    | inr off ↦ rw off (ref, handled, loads)
  ]

  -- With nothing to tell, `confirm` and `fail` do nothing.
  confirm-stays : (t : Toasts) → settles confirm p ≡ false → run_effect lib confirm p t ≡ t
  unfolding run_effect on_confirmed settles
  confirm-stays t same = let no : p.is_success ≡ false = rw is_for at same in rw (is_for, no) refl

  fail-stays : (t : Toasts) → settles fail p ≡ false → run_effect lib fail p t ≡ t
  unfolding run_effect on_failed settles
  fail-stays t same = elim (Option-cases p.error) [
    | inl nothing ↦ rw nothing refl
    | inr (e, there) ↦ absurd (cc)
  ]

  confirm-settles :
      (t : Toasts) (i : ℕ)
      → 0 < i
      → IsPending h i t
      → settles confirm p ≡ true
      → IsSettled h (run_effect lib confirm p t)
  unfolding run_effect on_confirmed settles is_loading show_in dismiss_current truthy_id
      confirmed_content
  confirm-settles t zero positive pending closes = absurd (omega (arith, positive))
  confirm-settles t (suc i) positive (ref, handled, loads) closes =
      let done : p.is_success ≡ true = rw is_for at closes in
      elim (Bool-cases p.success_toast_enabled) [
        | inl on ↦
            rw (is_for, done, on, ref) (refl, handled, λ j. rw (loads j) (if_false (suc i == j)))
        | inr off ↦
            rw (is_for, done, off, ref) (refl, handled, λ j. rw (loads j) (if_false (suc i == j)))
      ]

  confirm-IsSettled :
      (t : Toasts)
      → IsSettled h t
      → settles confirm p ≡ true
      → IsSettled h (run_effect lib confirm p t)
  unfolding run_effect on_confirmed settles is_loading show_in dismiss_current truthy_id
      confirmed_content
  confirm-IsSettled t (ref, handled, loads) closes =
      let done : p.is_success ≡ true = rw is_for at closes in
      elim (Bool-cases p.success_toast_enabled) [
        | inl on ↦
            rw (is_for, done, on, ref)
              (refl, handled, λ j. rw (loads j) (if_none (lib.new_id t.calls == j)))
        | inr off ↦ rw (is_for, done, off, ref) (refl, handled, loads)
      ]

  fail-settles :
      (t : Toasts) (i : ℕ)
      → IsPending h i t
      → settles fail p ≡ true
      → IsSettled h (run_effect lib fail p t)
  unfolding run_effect on_failed settles is_loading show_in failed_content
  fail-settles t i (ref, handled, loads) closes = elim (Option-cases p.error) [
    | inl nothing ↦ absurd (true_ne_false (sym closes ∙ rw nothing refl))
    | inr (e, there) ↦ rw (there, ref) (refl, handled, λ j. rw (loads j) (if_false (i == j)))
  ]

  fail-IsSettled :
      (t : Toasts) → IsSettled h t → settles fail p ≡ true → IsSettled h (run_effect lib fail p t)
  unfolding run_effect on_failed settles is_loading show_in failed_content
  fail-IsSettled t (ref, handled, loads) closes = elim (Option-cases p.error) [
    | inl nothing ↦ absurd (true_ne_false (sym closes ∙ rw nothing refl))
    | inr (e, there) ↦
        rw (there, ref) (refl, handled, λ j. rw (loads j) (if_none (lib.new_id t.calls == j)))
  ]

  pub run_effect-IsPending :
      (e : Effect) (t : Toasts) (i : ℕ)
      → 0 < i
      → IsPending h i t
      → settles e p ≡ false
      → IsPending h i (run_effect lib e p t)
  run_effect-IsPending submit t i positive (ref, handled, loads) same =
      rw (submit-stays t handled) (ref, handled, loads)
  run_effect-IsPending confirming t i positive pending same =
      confirming-IsPending t i positive pending
  run_effect-IsPending confirm t i positive pending same = rw (confirm-stays t same) pending
  run_effect-IsPending fail t i positive pending same = rw (fail-stays t same) pending

  pub run_effect-settles :
      (e : Effect) (t : Toasts) (i : ℕ)
      → 0 < i
      → IsPending h i t
      → settles e p ≡ true
      → IsSettled h (run_effect lib e p t)
  unfolding settles
  run_effect-settles submit t i positive pending closes = absurd (true_ne_false (sym closes))
  run_effect-settles confirming t i positive pending closes = absurd (true_ne_false (sym closes))
  run_effect-settles confirm t i positive pending closes =
      confirm-settles t i positive pending closes
  run_effect-settles fail t i positive pending closes = fail-settles t i pending closes

  pub run_effect-IsSettled :
      (e : Effect) (t : Toasts) → IsSettled h t → IsSettled h (run_effect lib e p t)
  run_effect-IsSettled submit t (ref, handled, loads) =
      rw (submit-stays t handled) (ref, handled, loads)
  run_effect-IsSettled confirming t settled = confirming-IsSettled t settled
  run_effect-IsSettled confirm t settled = elim (Bool-cases (settles confirm p)) [
    | inl closes ↦ confirm-IsSettled t settled closes
    | inr same ↦ rw (confirm-stays t same) settled
  ]
  run_effect-IsSettled fail t settled = elim (Bool-cases (settles fail p)) [
    | inl closes ↦ fail-IsSettled t settled closes
    | inr same ↦ rw (fail-stays t same) settled
  ]
