-- ===== src/Scripts/Redeploy/Refused.antt =====
-- The settings with which redeploy-registry.ts sends no transaction (contracts/scripts/redeploy-registry.ts).
use zstrategy.Base.{
  [], ◌∷◌, ◌++◌, Bool, true, false, List, Option, none, some, ◌≡◌, refl, sym, ap, ◌∙◌, ==_iff, inl,
  inr, Bool-cases,
}
use mathlib.Core.Path.{subst}
use zstrategy.Base.Text.{Text, codes, text_eq_sound}
use zstrategy.Base.Result.{Result, ok, throw}
use zstrategy.Scripts.Run.{Script, give, lift, require, ◌>>=◌}
use zstrategy.Scripts.Chain.{Setting, World, Deployment}
use zstrategy.Scripts.Settings.{
  PriceFeedConfig, or_previous, require_address, address_from_env_or_deployment,
}
use zstrategy.Scripts.Redeploy.Defects.{
  first_of, first_of_lem, IsNoAddress, guardian_setting, FileDefect, Defect, no_chain, other_chain,
  bad_guardian, other_signer, bad_order_fill_verifier, bad_dca_verifier, bad_dex_adapter, bad_feed,
  no_file, in_file, Throws, require_address-Throws, setting-Throws, bad_feed-Throws,
}
use zstrategy.Js.{to_lower_case}
use zstrategy.Scripts.Deploy.{is_deployer}
use zstrategy.Scripts.Redeploy.{
  is_chain, file_or_fail, previous_deployment, guardian_address, order_fill_verifier_address,
  dca_verifier_address, dex_adapter_address, collect_price_feeds, main,
}

-- A run that throws and leaves the world, the chain and the file, as it was.
abbrev pub Refuses {κ ι} :
    {World : Type κ} {Value : Type ι} → Script World Value → World → Type (κ ⊔ ι)
Refuses run w = (message : Text) × (run w ≡ (throw message, w))

module _ {κ ι ρ} {World : Type κ} {Value : Type ι} {Next : Type ρ} where
  lift-Refuses :
      (r : Result Value) (after : Value → Script World Next) (w : World)
      → ((v : Value) → r ≡ ok v → Refuses (after v) w)
      → Refuses (lift r >>= after) w
  lift-Refuses (throw message) after w h = (message, refl)
  lift-Refuses (ok v) after w h = h v refl

module _ {κ ι} {World : Type κ} {Next : Type ι} where
  require-Refuses :
      (test : Bool) (message : Text) (after : Unit → Script World Next) (w : World)
      → (test ≡ true → Refuses (after tt) w)
      → Refuses (require test message >>= after) w
  require-Refuses true message after w h = h refl
  require-Refuses false message after w h = (message, refl)

ok_ne_throw {κ} :
    {Value : Type κ} {v : Value} {m : Text} → ◌≡◌ {A = Result Value} (ok v) (throw m) → ⊥
ok_ne_throw h = cc

ok_injective : (t u : Text) → ◌≡◌ {A = Result Text} (ok t) (ok u) → t ≡ u
ok_injective t u h = cc

never {κ} : {Value : Type κ} {r : Result Value} {v : Value} → r ≡ ok v → Throws r → ⊥
never e (m, h) = ok_ne_throw (sym e ∙ h)

deployment_injective : (d d' : Deployment) → ◌≡◌ {A = Option Deployment} (some d) (some d') → d ≡ d'
deployment_injective d d' h = cc

true_ne_false : true ≡ false → ⊥
true_ne_false h = cc

module _ (s : Setting) where
  guardian_lem :
      (d : Deployment)
      → guardian_setting s d
        ≡ or_previous (or_previous (s.env (codes "GUARDIAN_ADDRESS")) d.guardian) (some s.deployer)
  guardian_lem d = sym (
      first_of_lem (or_previous (s.env (codes "GUARDIAN_ADDRESS")) d.guardian) (some s.deployer)
      ∙ ap (λ z. first_of z (some s.deployer))
          (first_of_lem (s.env (codes "GUARDIAN_ADDRESS")) d.guardian))

  -- What `require_address` gives is what it was given.
  require_address_ok_lem : (label t v : Text) → require_address s label (some t) ≡ ok v → v ≡ t
  unfolding require_address
  require_address_ok_lem label [] v h = absurd (ok_ne_throw (sym h))
  require_address_ok_lem label (c ∷ t) v h = elim (Bool-cases (s.is_address (c ∷ t))) [
    | inl valid ↦ sym (ok_injective (c ∷ t) v (rw valid at h))
    | inr bad ↦ absurd (ok_ne_throw (sym (rw bad at h)))
  ]

  checked-Refuses {ι} :
      {Next : Type ι} (o : Option Deployment) (after : Deployment → Script World Next) (w : World)
      → ((d : Deployment)
          → o ≡ some d
          → is_chain s.chain_id d.chain_id ≡ true
          → Refuses (after d) w)
      → Refuses
          (file_or_fail o
            >>= (λ d.
                require (is_chain s.chain_id d.chain_id) (codes "Network mismatch") >>= λ same.
                give d)
            >>= after)
          w
  checked-Refuses none after w h = (codes "No deployment found", refl)
  checked-Refuses (some d) after w h = elim (Bool-cases (is_chain s.chain_id d.chain_id)) [
    | inl right ↦ rw right (h d refl right)
    | inr wrong ↦ rw wrong (codes "Network mismatch", refl)
  ]

  previous-Refuses {ι} :
      {Next : Type ι} (after : Deployment → Script World Next) (w : World)
      → ((d : Deployment)
          → w.file ≡ some d
          → is_chain s.chain_id d.chain_id ≡ true
          → Refuses (after d) w)
      → Refuses (previous_deployment s >>= after) w
  unfolding previous_deployment
  previous-Refuses after w h = checked-Refuses w.file after w h

  -- With the file's settings in order there is no defect in it.
  in_order :
      (d : Deployment) (guardian ofv dca dex : Text) {feeds : List PriceFeedConfig}
      → is_chain s.chain_id d.chain_id ≡ true
      → guardian_address s d ≡ ok guardian
      → is_deployer s guardian ≡ true
      → order_fill_verifier_address s d ≡ ok ofv
      → dca_verifier_address s d ≡ ok dca
      → dex_adapter_address s d ≡ ok dex
      → collect_price_feeds s d ≡ ok feeds
      → FileDefect s d
      → ⊥
  unfolding collect_price_feeds address_from_env_or_deployment
  in_order d guardian ofv dca dex right e1 guarded e2 e3 e4 e5 (no_chain h) =
      true_ne_false (sym right ∙ rw h refl)
  in_order d guardian ofv dca dex right e1 guarded e2 e3 e4 e5 (other_chain n h other) =
      other ((==_iff n s.chain_id).0 (rw h at right))
  in_order d guardian ofv dca dex right e1 guarded e2 e3 e4 e5 (bad_guardian bad) = never e1 (
      require_address-Throws s (codes "GUARDIAN_ADDRESS") _
        (subst (IsNoAddress s) (guardian_lem d) bad))
  in_order d guardian ofv dca dex right e1 guarded e2 e3 e4 e5 (other_signer g h other) =
      let same : guardian ≡ g =
        require_address_ok_lem (codes "GUARDIAN_ADDRESS") g guardian (
          ap (require_address s (codes "GUARDIAN_ADDRESS")) (sym (sym (guardian_lem d) ∙ h))
          ∙ e1) in
      other (
        ap to_lower_case (sym same)
        ∙ text_eq_sound (to_lower_case guardian) (to_lower_case s.deployer) guarded)
  in_order d guardian ofv dca dex right e1 guarded e2 e3 e4 e5 (bad_order_fill_verifier bad) =
      never e2 (
        setting-Throws s
          (codes "ORDER_FILL_VERIFIER_ADDRESS"
            ++ codes " or deployments."
            ++ codes "orderFillVerifier")
          (s.env (codes "ORDER_FILL_VERIFIER_ADDRESS")) _ bad)
  in_order d guardian ofv dca dex right e1 guarded e2 e3 e4 e5 (bad_dca_verifier bad) = never e3 (
      setting-Throws s
        (codes "DCA_VERIFIER_ADDRESS" ++ codes " or deployments." ++ codes "dcaVerifier")
        (s.env (codes "DCA_VERIFIER_ADDRESS")) _ bad)
  in_order d guardian ofv dca dex right e1 guarded e2 e3 e4 e5 (bad_dex_adapter bad) = never e4 (
      setting-Throws s
        (codes "DEX_ADAPTER_ADDRESS" ++ codes " or deployments." ++ codes "dexAdapter")
        (s.env (codes "DEX_ADAPTER_ADDRESS")) _ bad)
  in_order d guardian ofv dca dex right e1 guarded e2 e3 e4 e5 (bad_feed j spec there used bad) =
      never e5 (bad_feed-Throws s d j spec there used bad)

  sound :
      (file : Option Deployment) (d : Deployment)
      → file ≡ some d
      → (FileDefect s d → ⊥)
      → Defect s file
      → ⊥
  sound file d there fine (no_file h) = cc
  sound file d there fine (in_file d' h bad) =
      fine (subst (FileDefect s) (deployment_injective d' d (sym h ∙ there)) bad)

  -- A run of redeploy-registry.ts throws, and the chain and the file are as before, whatever else the environment
  -- holds, when there is no deployment file, or when the file's chain is missing or another one; when the
  -- guardian's address, from the environment, the file or else the signer's, is empty or no address or is not the
  -- signer's; when the address of a verifier or of the adapter, from the environment or else the file, is missing,
  -- empty or no address; or when of a price feed that is required, or of which either text is given, the token's or
  -- the feed's address is missing, empty or no address.
  pub main-Refuses : (w : World) → Defect s w.file → Refuses (main s) w
  unfolding main
  main-Refuses w defect = previous-Refuses _ w λ d there right.
      lift-Refuses (guardian_address s d) _ w λ guardian e1.
        require-Refuses (is_deployer s guardian) _ _ w λ guarded.
          lift-Refuses (order_fill_verifier_address s d) _ w λ ofv e2.
            lift-Refuses (dca_verifier_address s d) _ w λ dca e3.
              lift-Refuses (dex_adapter_address s d) _ w λ dex e4.
                lift-Refuses (collect_price_feeds s d) _ w λ feeds e5. absurd (
                  sound w.file d there
                    (in_order d guardian ofv dca dex right e1 guarded e2 e3 e4 e5) defect)
