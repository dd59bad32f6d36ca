-- ===== src/Scripts/Deploy/Outcome.antt =====
-- What deploy.ts has done when it ends well (contracts/scripts/deploy.ts).
use zstrategy.Base.{true, ◌≡◌, sym, ap, ◌∙◌}
use zstrategy.Base.Result.{ok}
use zstrategy.Scripts.Run.{lift_ok, require_ok, continue-eq-ok}
use zstrategy.Scripts.Chain.{Setting, IsEthers, World, with_file, next_address}
use zstrategy.Scripts.Wiring.{Wires, deploy_registry}
use zstrategy.Scripts.Wiring.Spec.{wired}
use zstrategy.Scripts.Wiring.Whole.{deploy_registry_lem}
use zstrategy.Scripts.Deploy.{
  collect_price_feeds, is_deployer, deployment, finish, guardian_address,
  order_fill_verifier_or_new, dca_verifier_or_new, dex_adapter_or_new, collateral_vault_or_new,
  gas_vault_or_new, main,
}

module _ (s : Setting) (laws : IsEthers s.ethers) where
  finish_ok :
      (x : Wires) (w w' : World)
      → finish s x w ≡ (ok tt, w')
      → w' ≡ with_file (deployment s x (s.shown (next_address s w))) (wired s x w)
  finish_ok x w w' same =
      let (t, u, e, h) = continue-eq-ok (deploy_registry s x w) _ same in
      let (named, there) = deploy_registry_lem s laws x t w u e in
      sym (ap (λ p. p.1) h)
      ∙ ap (with_file (deployment s x t)) there
      ∙ ap (λ z. with_file (deployment s x z) (wired s x w)) named

  -- The world that a run leaves: the wired registry, and the file that tells of it.
  pub main_ok :
      (w w' : World)
      → main s w ≡ (ok tt, w')
      → (x : Wires) × (u : World) × (is_deployer s x.guardian ≡ true)
        × (collect_price_feeds s ≡ ok x.price_feeds)
        × (w' ≡ with_file (deployment s x (s.shown (next_address s u))) (wired s x u))
  unfolding main
  main_ok w w' same =
      let (guardian, e1, h1) = lift_ok (guardian_address s) _ tt w w' same in
      let (guarded, h2) = require_ok (is_deployer s guardian) _ _ tt w w' h1 in
      let (feeds, e3, h3) = lift_ok (collect_price_feeds s) _ tt w w' h2 in
      let (ofv, w4, e4, h4) = continue-eq-ok (order_fill_verifier_or_new s w) _ h3 in
      let (dca, w5, e5, h5) = continue-eq-ok (dca_verifier_or_new s w4) _ h4 in
      let (dex, w6, e6, h6) = continue-eq-ok (dex_adapter_or_new s w5) _ h5 in
      let (coll, w7, e7, h7) = continue-eq-ok (collateral_vault_or_new s w6) _ h6 in
      let (gas, w8, e8, h8) = continue-eq-ok (gas_vault_or_new s w7) _ h7 in
      let x : Wires = record {
        gas_vault = gas;
        collateral_vault = coll;
        dex_adapter = dex;
        guardian = guardian;
        order_fill_verifier = ofv;
        dca_verifier = dca;
        price_feeds = feeds;
      } in
      (x, w8, guarded, e3, finish_ok x w8 w' h8)
