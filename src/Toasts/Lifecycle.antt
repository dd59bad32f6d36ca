-- ===== src/Toasts/Lifecycle.antt =====
-- The course of a transaction's toast (frontend/src/hooks/useTxToast.ts).
use zstrategy.Base.{
  Bool, true, false, ℕ, ◌<◌, List, [], ◌∷◌, some, ◌≡◌, refl, sym, ◌∙◌, inl, inr, ◌==◌,
  if◌then◌else◌, not, ◌&&◌, All, Bool-cases,
}
use zstrategy.Base.Text.{Text}
use zstrategy.Toasts.{
  ToastArgs, Toasts, ToastLibrary, Effect, submit, is_handled, submitted_toast, on_submitted,
  run_effect, run_effects, is_loading, settles, any_settles,
}
use zstrategy.Toasts.Effects.{
  IsPending, IsSettled, run_effect-IsPending, run_effect-settles, run_effect-IsSettled,
}

if_self : (b : Bool) → (if b then true else false) ≡ b
if_self true = refl
if_self false = refl

and_true : (b : Bool) → (b && true) ≡ b
and_true true = refl
and_true false = refl

and_false : (b : Bool) → (b && false) ≡ false
and_false true = refl
and_false false = refl

-- Each effect is one of a render with that hash.
abbrev pub IsFor : Text → List (Effect × ToastArgs) → Type 0
IsFor h es = All (λ x. x.1.hash ≡ some h) es

module _ (lib : ToastLibrary) (h : Text) where
  run_effects-IsSettled :
      (es : List (Effect × ToastArgs)) (t : Toasts)
      → IsFor h es
      → IsSettled h t
      → (j : ℕ) → is_loading (run_effects lib es t).calls j ≡ false
  unfolding run_effects
  run_effects-IsSettled [] t are_for (ref, handled, loads) j = loads j
  run_effects-IsSettled ((e, p) ∷ es) t (is_for, are_for) settled j =
      run_effects-IsSettled es (run_effect lib e p t) are_for
        (run_effect-IsSettled lib h p is_for e t settled) j

  run_effects-IsPending :
      (es : List (Effect × ToastArgs)) (t : Toasts) (i : ℕ)
      → IsFor h es
      → 0 < i
      → IsPending h i t
      → (j : ℕ) → is_loading (run_effects lib es t).calls j ≡ (i == j && not (any_settles es))
  unfolding run_effects any_settles
  run_effects-IsPending [] t i are_for positive (ref, handled, loads) j =
      rw (loads j) (sym (and_true (i == j)))
  run_effects-IsPending ((e, p) ∷ es) t i (is_for, are_for) positive pending j =
      elim (Bool-cases (settles e p)) [
        | inl closes ↦
            run_effects-IsSettled es (run_effect lib e p t) are_for
              (run_effect-settles lib h p is_for e t i positive pending closes) j
            ∙ rw closes (sym (and_false (i == j)))
        | inr same ↦ rw same (
            run_effects-IsPending es (run_effect lib e p t) i are_for positive
              (run_effect-IsPending lib h p is_for e t i positive pending same) j)
      ]

  -- When no toast loads and a render has a hash that the hook has not handled, its effect `submit`
  -- opens one loading toast. After any further effects of renders with that hash, in any order and
  -- number, no other toast loads; and this one still does exactly when none of them had `isSuccess`
  -- or an error to tell. Required is that sonner's id of the toast is not 0.
  pub run_effects_lem :
      (p : ToastArgs) (es : List (Effect × ToastArgs)) (t : Toasts)
      → p.hash ≡ some h
      → is_handled h t.handled_hash ≡ false
      → ((j : ℕ) → is_loading t.calls j ≡ false)
      → 0 < lib.new_id t.calls
      → IsFor h es
      → (j : ℕ)
      → is_loading (run_effects lib ((submit, p) ∷ es) t).calls j
        ≡ (lib.new_id t.calls == j && not (any_settles es))
  unfolding run_effects run_effect on_submitted submitted_toast is_loading
  run_effects_lem p es t is_for new quiet positive are_for j =
      let opened = submitted_toast lib h p.label t in
      let after : IsPending h (lib.new_id t.calls) opened =
        rw new (refl, refl, λ k. rw (quiet k) (if_self (lib.new_id t.calls == k))) in
      rw is_for (run_effects-IsPending es opened (lib.new_id t.calls) are_for positive after j)
