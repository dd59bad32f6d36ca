-- ===== src/Scripts/Verifiers/Outcome.antt =====
-- What redeploy-verifiers.ts and swap-dex-fee-tier.ts do to a file and a chain that agree (contracts/scripts).
use mathlib.Core.Path.{subst}
use zstrategy.Base.{
  ℕ, Bool, true, false, not, ◌&&◌, Option, none, some, ◌≡◌, refl, sym, ap, ◌∙◌, ◌⊎◌, inl, inr,
}
use zstrategy.Base.Text.{Text, codes}
use zstrategy.Base.Result.{ok}
use zstrategy.Scripts.Run.{
  Script, give, continue, continue_assoc, require, require_ok, continue-eq-ok, throw_ne_ok, step_ok,
  ◌>>=◌,
}
use zstrategy.Scripts.Chain.{
  Setting, IsEthers, World, Action, Deployment, Registry, set_at, with_nonce, with_registry,
  next_address, resolved, deploy,
}
use zstrategy.Scripts.Wiring.Effect.{set_verifier_ok, registry_there, resolved_ok}
use zstrategy.Scripts.Deploy.{is_deployer, write_file}
use zstrategy.Scripts.Redeploy.Outcome.{previous_deployment_ok}
use zstrategy.Scripts.Verifiers.{
  defined_or_fail, guarded_deployment, deploy_verifier, point_verifier, renew_verifier, registry_of,
  skip_order_fill, skip_dca, redeploy_verifiers,
}
use zstrategy.Scripts.Agreement.{IsWired, IsAgreed, agreed, HasAgreed, has}

pub defined_ok {ι} :
    {Next : Type ι} (o : Option Text) (after : Text → Script World Next) (b : Next) (w w' : World)
    → (defined_or_fail o >>= after) w ≡ (ok b, w')
    → (t : Text) × (o ≡ some t) × (after t w ≡ (ok b, w'))
defined_ok none after b w w' same = absurd (throw_ne_ok same)
defined_ok (some t) after b w w' same = (t, refl, same)

pub some_injective {κ} : {A : Type κ} (a b : A) → ◌≡◌ {A = Option A} (some a) (some b) → a ≡ b
some_injective a b same = cc

module _ (s : Setting) (laws : IsEthers s.ethers) where
  point_verifier_ok {ι} :
      {Next : Type ι} (a kind : ℕ) (v : Text) (r : Registry) (after : Unit → Script World Next)
      (b : Next) (w w' : World)
      → w.chain.registries a ≡ some r
      → (point_verifier s a kind v >>= after) w ≡ (ok b, w')
      → after tt
          (with_registry a (record r { verifiers = set_at kind (s.address_of v) r.verifiers }) w)
        ≡ (ok b, w')
  unfolding point_verifier
  point_verifier_ok a kind v r after b w w' there same =
      step_ok (point_verifier s a kind v) after
        (with_registry a (record r { verifiers = set_at kind (s.address_of v) r.verifiers }) w) b w
        w'
        (λ u e.
          set_verifier_ok s laws a kind (s.address_of v) r w u there
            (resolved_ok s laws v _ tt w u e))
        same

  -- A kind of verifier that is skipped stays, else the registry has a new one, which is the text that is given.
  renew_verifier_ok {ι} :
      {Next : Type ι} (skip : Bool) (a kind : ℕ) (previous : Option Text) (r : Registry)
      (after : Option Text → Script World Next) (b : Next) (w w' : World)
      → w.chain.registries a ≡ some r
      → (renew_verifier s skip a kind previous >>= after) w ≡ (ok b, w')
      → (after previous w ≡ (ok b, w'))
        ⊎ ((v : Text) × (after (some v) (
                with_registry a
                  (record r { verifiers = set_at kind (s.address_of v) r.verifiers })
                  (with_nonce (with_nonce w)))
              ≡ (ok b, w')))
  unfolding renew_verifier deploy_verifier deploy
  renew_verifier_ok true a kind previous r after b w w' there same = inl same
  renew_verifier_ok false a kind previous r after b w w' there same =
      let v = s.shown (next_address s (with_nonce w)) in
      let u = with_nonce (with_nonce w) in
      let flat : continue (point_verifier s a kind v u) (λ done. after (some v)) ≡ (ok b, w') =
        sym (continue_assoc (point_verifier s a kind v u) (λ done. give (some v)) after) ∙ same in
      inr (v, point_verifier_ok a kind v r (λ done. after (some v)) b u w' there flat)

  -- A pair of verifiers' texts that a registry has, whatever else it has.
  abbrev IsWiredWith : Text → Text → Text → Text → Text → Text → World → Type 0
  IsWiredWith registry vault gas dex order_fill dca w =
      IsWired s.ethers registry vault gas dex order_fill dca w.chain

  renewed_order_fill :
      (registry vault gas dex order_fill dca v : Text) (w : World)
      (i : IsWiredWith registry vault gas dex order_fill dca w)
      → IsWiredWith registry vault gas dex v dca (
          with_registry
            (s.address_of registry)
            (record i.parts { verifiers = set_at 0 (s.address_of v) i.parts.verifiers })
            (with_nonce (with_nonce w)))
  renewed_order_fill registry vault gas dex order_fill dca v w i = record {
    parts = record i.parts { verifiers = set_at 0 (s.address_of v) i.parts.verifiers };
    there = registry_there (s.address_of registry) _ (with_nonce (with_nonce w));
    vault_part = i.vault_part;
    gas_vault_part = i.gas_vault_part;
    dex_adapter_part = i.dex_adapter_part;
    order_fill_part = refl;
    dca_part = i.dca_part;
    vault_points = i.vault_points;
    gas_vault_points = i.gas_vault_points;
  }

  renewed_dca :
      (registry vault gas dex order_fill dca v : Text) (w : World)
      (i : IsWiredWith registry vault gas dex order_fill dca w)
      → IsWiredWith registry vault gas dex order_fill v (
          with_registry
            (s.address_of registry)
            (record i.parts { verifiers = set_at 1 (s.address_of v) i.parts.verifiers })
            (with_nonce (with_nonce w)))
  renewed_dca registry vault gas dex order_fill dca v w i = record {
    parts = record i.parts { verifiers = set_at 1 (s.address_of v) i.parts.verifiers };
    there = registry_there (s.address_of registry) _ (with_nonce (with_nonce w));
    vault_part = i.vault_part;
    gas_vault_part = i.gas_vault_part;
    dex_adapter_part = i.dex_adapter_part;
    order_fill_part = i.order_fill_part;
    dca_part = refl;
    vault_points = i.vault_points;
    gas_vault_points = i.gas_vault_points;
  }

  given_ok : (d d' : Deployment) (w u : World) → give d w ≡ (ok d', u) → (d ≡ d') × (w ≡ u)
  given_ok d d' w u same = (cc, cc)

  guarded_ok {ι} :
      {Next : Type ι} (after : Deployment → Script World Next) (b : Next) (w w' : World)
      → (guarded_deployment s >>= after) w ≡ (ok b, w')
      → (d : Deployment) × (w.file ≡ some d) × (after d w ≡ (ok b, w'))
  unfolding guarded_deployment
  guarded_ok after b w w' same =
      let (d, u, e, h) = continue-eq-ok (guarded_deployment s w) after same in
      let (d0, there, right, h1) = previous_deployment_ok s _ d w u e in
      let (guardian, e2, h2) = defined_ok d0.guardian _ d w u h1 in
      let (guarded, h3) = require_ok (is_deployer s guardian) _ _ d w u h2 in
      let (e4, e5) = given_ok d0 d w u h3 in
      (d, there ∙ ap some e4, subst (λ z. after d z ≡ (ok b, w')) (sym e5) h)

  named_ok {ι} :
      {Next : Type ι} (o : Option Text) (t : Text) (after : ℕ → Script World Next) (b : Next)
      (w w' : World)
      → o ≡ some t
      → (defined_or_fail o >>= resolved s >>= after) w ≡ (ok b, w')
      → after (s.address_of t) w ≡ (ok b, w')
  named_ok o t after b w w' named same = resolved_ok s laws t after b w w' (rw named at same)

  pub registry_of_ok {ι} :
      {Next : Type ι} (d : Deployment) (registry : Text) (after : ℕ → Script World Next) (b : Next)
      (w w' : World)
      → d.commitment_registry ≡ some registry
      → (registry_of s d >>= after) w ≡ (ok b, w')
      → after (s.address_of registry) w ≡ (ok b, w')
  registry_of_ok d registry after b w w' = named_ok d.commitment_registry registry after b w w'

  abbrev rest : Deployment → Action
  rest d = do
    registry ← registry_of s d
    something ←
        require (not (skip_order_fill s && skip_dca s))
          (codes "Both SKIP_ORDER_FILL and SKIP_DCA are set")
    order_fill ← renew_verifier s (skip_order_fill s) registry 0 d.order_fill_verifier
    dca ← renew_verifier s (skip_dca s) registry 1 d.dca_verifier
    write_file s (record d {
      order_fill_verifier = order_fill;
      dca_verifier = dca;
      deployed_at = some s.now;
    })

  abbrev renewed : Deployment → Option Text → Option Text → Deployment
  renewed d order_fill dca = record d {
    order_fill_verifier = order_fill;
    dca_verifier = dca;
    deployed_at = some s.now;
  }

  -- From the second verifier on, when the registry has the first.
  second-HasAgreed :
      (d : Deployment) (registry vault gas dex order_fill dca : Text) (w w' : World)
      → d.commitment_registry ≡ some registry
      → d.collateral_vault ≡ some vault
      → d.gas_vault ≡ some gas
      → d.dex_adapter ≡ some dex
      → d.dca_verifier ≡ some dca
      → IsWiredWith registry vault gas dex order_fill dca w
      → (renew_verifier s (skip_dca s) (s.address_of registry) 1 d.dca_verifier >>= λ v.
            write_file s (renewed d (some order_fill) v))
          w
        ≡ (ok tt, w')
      → HasAgreed s.ethers w'
  second-HasAgreed d registry vault gas dex order_fill dca w w' e1 e2 e3 e4 e6 i same =
      elim (renew_verifier_ok (skip_dca s) (s.address_of registry) 1 d.dca_verifier i.parts _ tt w
        w' i.there same) [
          | inl kept ↦ subst (HasAgreed s.ethers) (ap (λ p. p.1) kept) (
              has (renewed d (some order_fill) d.dca_verifier) refl
                (agreed registry vault gas dex order_fill dca e1 e2 e3 e4 refl e6 i))
          | inr (v, new) ↦ subst (HasAgreed s.ethers) (ap (λ p. p.1) new) (
              has (renewed d (some order_fill) (some v)) refl (
                agreed registry vault gas dex order_fill v e1 e2 e3 e4 refl refl
                  (renewed_dca registry vault gas dex order_fill dca v w i)))
        ]

  rest-HasAgreed :
      (d : Deployment) (w w' : World)
      → IsAgreed s.ethers d w.chain
      → rest d w ≡ (ok tt, w')
      → HasAgreed s.ethers w'
  rest-HasAgreed d w w' (agreed registry vault gas dex order_fill dca e1 e2 e3 e4 e5 e6 i) same =
      let a = s.address_of registry in
      let h2 = registry_of_ok d registry _ tt w w' e1 same in
      let (something, h3) = require_ok (not (skip_order_fill s && skip_dca s)) _ _ tt w w' h2 in
      elim (renew_verifier_ok (skip_order_fill s) a 0 d.order_fill_verifier i.parts _ tt w w'
        i.there h3) [
          | inl kept ↦
              second-HasAgreed d registry vault gas dex order_fill dca w w' e1 e2 e3 e4 e6 i (
                subst
                  (λ o.
                    (renew_verifier s (skip_dca s) a 1 d.dca_verifier >>= λ v.
                    write_file s (renewed d o v))
                      w
                    ≡ (ok tt, w'))
                  e5 kept)
          | inr (v, new) ↦
              second-HasAgreed d registry vault gas dex v dca _ w' e1 e2 e3 e4 e6
                (renewed_order_fill registry vault gas dex order_fill dca v w i) new
        ]

  -- After a run of redeploy-verifiers.ts that ends well the file agrees with the chain if it did before.
  pub redeploy_verifiers-HasAgreed :
      (w w' : World)
      → HasAgreed s.ethers w
      → redeploy_verifiers s w ≡ (ok tt, w')
      → HasAgreed s.ethers w'
  unfolding redeploy_verifiers
  redeploy_verifiers-HasAgreed w w' (has d there a) same =
      let (d', there', h1) = guarded_ok _ tt w w' same in
      rest-HasAgreed d' w w'
        (subst (λ z. IsAgreed s.ethers z w.chain) (some_injective d d' (sym there ∙ there')) a) h1
