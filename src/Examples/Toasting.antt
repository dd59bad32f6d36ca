-- ===== src/Examples/Toasting.antt =====
-- A deposit's toast, through its confirmation.
use zstrategy.Base.{
  true, false, List, [], ◌∷◌, none, some, ◌≡◌, refl, length, ◌+◌, ◌==◌, not, ◌&&◌, arith,
}
use zstrategy.Base.Text.{codes}
use zstrategy.Toasts.{
  ToastArgs, Toasts, ToastLibrary, Effect, submit, confirming, confirm, run_effects, is_loading,
  any_settles, is_handled,
}
use zstrategy.Toasts.Lifecycle.{run_effects_lem}

abbrev sonner : ToastLibrary
sonner = record {
  arbitrum_sepolia = 421614;
  base_sepolia = 84532;
  hardhat = 31337;
  new_id = λ calls. 1 + length calls;
}

abbrev sent : ToastArgs
sent = record {
  hash = some (codes "0x12");
  is_confirming = true;
  is_success = false;
  error = none;
  label = codes "Vault deposit";
  success_toast_enabled = true;
  chain_id = 421614;
}

abbrev mined : ToastArgs
mined = record sent { is_confirming = false; is_success = true }

abbrev quiet : Toasts
quiet = record { toast_id = none; handled_hash = none; calls = [] }

abbrev course : List (Effect × ToastArgs)
course = (confirming, sent) ∷ (confirm, sent) ∷ (confirming, mined) ∷ (confirm, mined) ∷ []

run_effects_lem_example :
    is_loading (run_effects sonner ((submit, sent) ∷ course) quiet).calls 1
    ≡ (1 == 1 && not (any_settles course))
unfolding is_handled is_loading
run_effects_lem_example =
    run_effects_lem sonner (codes "0x12") sent course quiet refl refl (λ j. refl) (omega arith)
      (refl, (refl, (refl, (refl, tt)))) 1
