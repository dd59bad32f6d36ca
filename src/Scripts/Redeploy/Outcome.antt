-- ===== src/Scripts/Redeploy/Outcome.antt =====
-- What redeploy-registry.ts has done when it ends well (contracts/scripts/redeploy-registry.ts).
use zstrategy.Base.{true, Option, none, some, ◌≡◌, refl, sym, ap, ◌∙◌, inl, inr, Bool-cases}
use zstrategy.Base.Text.{codes}
use zstrategy.Base.Result.{ok}
use zstrategy.Scripts.Run.{
  Script, give, require, lift_ok, require_ok, continue-eq-ok, throw_ne_ok, ◌>>=◌,
}
use zstrategy.Scripts.Chain.{Setting, IsEthers, World, Deployment, with_file, next_address}
use zstrategy.Scripts.Wiring.{Wires, deploy_registry}
use zstrategy.Scripts.Wiring.Spec.{wired}
use zstrategy.Scripts.Wiring.Whole.{deploy_registry_lem}
use zstrategy.Scripts.Deploy.{is_deployer}
use zstrategy.Scripts.Redeploy.{
  is_chain, file_or_fail, previous_deployment, guardian_address, order_fill_verifier_address,
  dca_verifier_address, dex_adapter_address, collect_price_feeds, collateral_vault_or_new,
  gas_vault_or_new, next_deployment, finish, main,
}

module _ (s : Setting) where
  checked_ok {ι} :
      {Next : Type ι} (o : Option Deployment) (after : Deployment → Script World Next) (b : Next)
      (w w' : World)
      → (file_or_fail o
            >>= (λ d.
                require (is_chain s.chain_id d.chain_id) (codes "Network mismatch") >>= λ same.
                give d)
            >>= after)
          w
        ≡ (ok b, w')
      → (d : Deployment) × (o ≡ some d)
        × (is_chain s.chain_id d.chain_id ≡ true)
        × (after d w ≡ (ok b, w'))
  checked_ok none after b w w' same = absurd (throw_ne_ok same)
  checked_ok (some d) after b w w' same = elim (Bool-cases (is_chain s.chain_id d.chain_id)) [
    | inl right ↦ (d, refl, right, rw right at same)
    | inr wrong ↦ absurd (throw_ne_ok (rw wrong at same))
  ]

  pub previous_deployment_ok {ι} :
      {Next : Type ι} (after : Deployment → Script World Next) (b : Next) (w w' : World)
      → (previous_deployment s >>= after) w ≡ (ok b, w')
      → (d : Deployment) × (w.file ≡ some d)
        × (is_chain s.chain_id d.chain_id ≡ true)
        × (after d w ≡ (ok b, w'))
  unfolding previous_deployment
  previous_deployment_ok after b w w' same = checked_ok w.file after b w w' same

module _ (s : Setting) (laws : IsEthers s.ethers) where
  finish_ok :
      (previous : Deployment) (x : Wires) (w w' : World)
      → finish s previous x w ≡ (ok tt, w')
      → w' ≡ with_file (next_deployment s previous x (s.shown (next_address s w))) (wired s x w)
  finish_ok previous x w w' same =
      let (t, u, e, h) = continue-eq-ok (deploy_registry s x w) _ same in
      let (named, there) = deploy_registry_lem s laws x t w u e in
      sym (ap (λ p. p.1) h)
      ∙ ap (with_file (next_deployment s previous x t)) there
      ∙ ap (λ z. with_file (next_deployment s previous x z) (wired s x w)) named

  -- The world that a run leaves: the wired registry, and the file that tells of it.
  pub main_ok :
      (w w' : World)
      → main s w ≡ (ok tt, w')
      → (d : Deployment) × (x : Wires) × (u : World) × (w.file ≡ some d)
        × (is_deployer s x.guardian ≡ true)
        × (collect_price_feeds s d ≡ ok x.price_feeds)
        × (w' ≡ with_file (next_deployment s d x (s.shown (next_address s u))) (wired s x u))
  unfolding main
  main_ok w w' same =
      let (d, there, right_chain, h0) = previous_deployment_ok s _ tt w w' same in
      let (guardian, e1, h1) = lift_ok (guardian_address s d) _ tt w w' h0 in
      let (guarded, h2) = require_ok (is_deployer s guardian) _ _ tt w w' h1 in
      let (ofv, e3, h3) = lift_ok (order_fill_verifier_address s d) _ tt w w' h2 in
      let (dca, e4, h4) = lift_ok (dca_verifier_address s d) _ tt w w' h3 in
      let (dex, e5, h5) = lift_ok (dex_adapter_address s d) _ tt w w' h4 in
      let (feeds, e6, h6) = lift_ok (collect_price_feeds s d) _ tt w w' h5 in
      let (coll, w7, e7, h7) = continue-eq-ok (collateral_vault_or_new s d w) _ h6 in
      let (gas, w8, e8, h8) = continue-eq-ok (gas_vault_or_new s d w7) _ h7 in
      let x : Wires = record {
        gas_vault = gas;
        collateral_vault = coll;
        dex_adapter = dex;
        guardian = guardian;
        order_fill_verifier = ofv;
        dca_verifier = dca;
        price_feeds = feeds;
      } in
      (d, x, w8, there, guarded, e6, finish_ok d x w8 w' h8)
