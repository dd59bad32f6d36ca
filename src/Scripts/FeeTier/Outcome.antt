-- ===== src/Scripts/FeeTier/Outcome.antt =====
-- What swap-dex-fee-tier.ts does to a file and a chain that agree (contracts/scripts/swap-dex-fee-tier.ts).
use mathlib.Core.Path.{subst}
use zstrategy.Base.{ℕ, Bool, Option, some, ◌≡◌, refl, sym, ap, ◌∙◌, arith}
use zstrategy.Base.Int.{ℤ}
use zstrategy.Base.Text.{Text, codes}
use zstrategy.Base.Result.{Result, ok}
use zstrategy.Js.ParseInt.{parse_int}
use zstrategy.Scripts.Run.{require, require_ok, continue-eq-ok, step_ok, ◌>>=◌}
use zstrategy.Scripts.Chain.{
  Setting, IsEthers, World, Deployment, Registry, with_nonce, with_adapter, with_registry,
  next_address, set_dex_adapter, deploy_adapter, resolved,
}
use zstrategy.Scripts.Settings.{is_address?}
use zstrategy.Scripts.Wiring.Effect.{registry_there, resolved_ok}
use zstrategy.Scripts.Deploy.{is_deployer, write_file}
use zstrategy.Scripts.Redeploy.Outcome.{previous_deployment_ok}
use zstrategy.Scripts.Verifiers.{defined_or_fail, registry_of}
use zstrategy.Scripts.Verifiers.Outcome.{defined_ok, registry_of_ok, some_injective}
use zstrategy.Scripts.FeeTier.{known_tier, tier_text, router_or_old, swap_dex_fee_tier}
use zstrategy.Scripts.Agreement.{IsAgreed, agreed, HasAgreed, has}

module _ (s : Setting) (laws : IsEthers s.ethers) where
  known_tier_ok :
      (o : Option ℤ) (n : ℕ) (w u : World)
      → ◌≡◌ {A = Result ℕ × World} (known_tier o w) (ok n, u)
      → u ≡ w
  known_tier_ok o n w u same = ground arith

  router_or_old_ok :
      (is_given : Bool) (given old : Option Text) (t : Text) (w u : World)
      → router_or_old s is_given given old w ≡ (ok t, u)
      → u ≡ w
  router_or_old_ok is_given given old t w u same = ground arith

  set_dex_adapter_ok :
      (a adapter : ℕ) (r : Registry) (w w' : World)
      → w.chain.registries a ≡ some r
      → set_dex_adapter s a adapter w ≡ (ok tt, w')
      → w' ≡ with_registry a (record r { dex_adapter = adapter }) w
  unfolding set_dex_adapter
  set_dex_adapter_ok a adapter r w w' there same = ground arith

  rest-HasAgreed :
      (d : Deployment) (t : Text) (tier : ℕ) (w w' : World)
      → IsAgreed s.ethers d w.chain
      → (do
        guardian ← defined_or_fail d.guardian
        guarded ← require (is_deployer s guardian) (codes "Deployer is not the registry guardian")
        router_address ← resolved s t
        adapter ← deploy_adapter s router_address tier
        registry ← registry_of s d
        a ← resolved s adapter
        swapped ← set_dex_adapter s registry a
        write_file s (record d { dex_adapter = some adapter }))
          w
        ≡ (ok tt, w')
      → HasAgreed s.ethers w'
  unfolding deploy_adapter
  rest-HasAgreed d t tier w w' (agreed registry vault gas dex order_fill dca e1 e2 e3 e4 e5 e6 i)
        same =
      let r = s.address_of registry in
      let adapter = s.shown (next_address s w) in
      let a = s.address_of adapter in
      let u =
        with_adapter (next_address s w) (record { router = s.address_of t; fee_tier = tier })
          (with_nonce w) in
      let q = record i.parts { dex_adapter = a } in
      let (guardian, e, h1) = defined_ok d.guardian _ tt w w' same in
      let (guarded, h2) = require_ok (is_deployer s guardian) _ _ tt w w' h1 in
      let h3 = resolved_ok s laws t _ tt w w' h2 in
      let h4 = registry_of_ok s laws d registry _ tt u w' e1 h3 in
      let h5 = resolved_ok s laws adapter _ tt u w' h4 in
      let h6 =
        step_ok (set_dex_adapter s r a) _ (with_registry r q u) tt u w'
          (λ v. set_dex_adapter_ok r a i.parts u v i.there) h5 in
      subst (HasAgreed s.ethers) (ap (λ p. p.1) h6) (
        has (record d { dex_adapter = some adapter }) refl
          (agreed registry vault gas adapter order_fill dca e1 e2 e3 refl e5 e6 (record {
            parts = q;
            there = registry_there r q u;
            vault_part = i.vault_part;
            gas_vault_part = i.gas_vault_part;
            dex_adapter_part = refl;
            order_fill_part = i.order_fill_part;
            dca_part = i.dca_part;
            vault_points = i.vault_points;
            gas_vault_points = i.gas_vault_points;
          })))

  -- After a run of swap-dex-fee-tier.ts that ends well the file agrees with the chain if it did before.
  pub swap_dex_fee_tier-HasAgreed :
      (w w' : World)
      → HasAgreed s.ethers w
      → swap_dex_fee_tier s w ≡ (ok tt, w')
      → HasAgreed s.ethers w'
  unfolding swap_dex_fee_tier
  swap_dex_fee_tier-HasAgreed w w' (has d there a) same =
      let router = s.env (codes "UNISWAP_ROUTER_ADDRESS") in
      let tier = parse_int (tier_text (s.env (codes "FEE_TIER"))) in
      let (d', there', right, h1) = previous_deployment_ok s _ tt w w' same in
      let (n, w2, e2, h2) = continue-eq-ok (known_tier tier w) _ h1 in
      let (t, w3, e3, h3) =
        continue-eq-ok (router_or_old s (is_address? s router) router d'.dex_adapter w2) _ h2 in
      let back : w3 ≡ w =
        router_or_old_ok (is_address? s router) router d'.dex_adapter t w2 w3 e3
        ∙ known_tier_ok tier n w w2 e2 in
      let a' : IsAgreed s.ethers d' w.chain =
        subst (λ z. IsAgreed s.ethers z w.chain) (some_injective d d' (sym there ∙ there')) a in
      rest-HasAgreed d' t n w3 w' (subst (λ z. IsAgreed s.ethers d' z.chain) (sym back) a') h3
