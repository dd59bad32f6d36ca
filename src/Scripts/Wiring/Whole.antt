-- ===== src/Scripts/Wiring/Whole.antt =====
-- A deployment of a registry as one step (contracts/scripts/deploy.ts, redeploy-registry.ts).
use zstrategy.Base.{ℕ, some, ◌≡◌, sym, ap, ◌∙◌, arith}
use zstrategy.Base.Text.{Text}
use zstrategy.Base.Result.{Result, ok}
use zstrategy.Scripts.Run.{Script, give, step_ok, ◌>>=◌}
use zstrategy.Scripts.Chain.{
  Setting, IsEthers, World, Registry, construct_registry, set_at, with_vault, with_registry,
  with_nonce, next_address, new_registry,
}
use zstrategy.Scripts.Wiring.{
  Wires, set_vault_registry, set_verifier_if_needed, set_price_feeds, deploy_registry,
}
use zstrategy.Scripts.Wiring.Spec.{wired, wired_registry}
use zstrategy.Scripts.Wiring.Effect.{
  resolved_ok, registry_there, with_registry_twice, set_vault_registry_ok,
  set_verifier_if_needed_ok, set_price_feeds_ok,
}

ok_injective :
    (u t : Text) (w w' : World) → ◌≡◌ {A = Result Text × World} (ok u, w) (ok t, w') → u ≡ t
ok_injective u t w w' same = cc

module _ (s : Setting) (laws : IsEthers s.ethers) where
  construct_registry_ok {ι} :
      {Next : Type ι} (gas vault dex guardian : ℕ) (after : Text → Script World Next) (b : Next)
      (w w' : World)
      → (construct_registry s gas vault dex guardian >>= after) w ≡ (ok b, w')
      → after
          (s.shown (next_address s w))
          (with_registry (next_address s w) (new_registry s gas vault dex guardian) (with_nonce w))
        ≡ (ok b, w')
  unfolding construct_registry
  construct_registry_ok gas vault dex guardian after b w w' same = ground arith

  -- The registry at an address with its verifiers and feeds, and the vaults' pointers to it.
  abbrev wired_at : Wires → ℕ → World → World
  wired_at x a w =
      with_registry a (wired_registry s x)
        (with_vault (s.address_of x.gas_vault) a (with_vault (s.address_of x.collateral_vault) a w))

  abbrev wire_up : Wires → Text → Script World Text
  wire_up x registry = do
    first ← set_vault_registry s x.collateral_vault registry
    second ← set_vault_registry s x.gas_vault registry
    order_fill ← set_verifier_if_needed s registry 0 x.order_fill_verifier
    dca ← set_verifier_if_needed s registry 1 x.dca_verifier
    feeds ← set_price_feeds s registry x.price_feeds
    give registry

  abbrev bare : Wires → Registry
  bare x =
      new_registry s (s.address_of x.gas_vault) (s.address_of x.collateral_vault)
        (s.address_of x.dex_adapter) (s.address_of x.guardian)

  wire_ok :
      (x : Wires) (registry t : Text) (w w' : World)
      → w.chain.registries (s.address_of registry) ≡ some (bare x)
      → wire_up x registry w ≡ (ok t, w')
      → (t ≡ registry) × (w' ≡ wired_at x (s.address_of registry) w)
  wire_ok x registry t w w' there same =
      let a = s.address_of registry in
      let r1 = record (bare x) {
        verifiers = set_at 0 (s.address_of x.order_fill_verifier) (λ kind. 0);
      } in
      let r2 = record r1 { verifiers = set_at 1 (s.address_of x.dca_verifier) r1.verifiers } in
      let w1 = with_vault (s.address_of x.collateral_vault) a w in
      let w2 = with_vault (s.address_of x.gas_vault) a w1 in
      let w3 = with_registry a r1 w2 in
      let w4 = with_registry a r2 w3 in
      let w5 = with_registry a (wired_registry s x) w4 in
      let h1 =
        step_ok (set_vault_registry s x.collateral_vault registry) _ w1 t w w'
          (set_vault_registry_ok s laws x.collateral_vault registry w) same in
      let h2 =
        step_ok (set_vault_registry s x.gas_vault registry) _ w2 t w1 w'
          (set_vault_registry_ok s laws x.gas_vault registry w1) h1 in
      let h3 =
        step_ok (set_verifier_if_needed s registry 0 x.order_fill_verifier) _ w3 t w2 w'
          (λ u.
            set_verifier_if_needed_ok s laws registry 0 x.order_fill_verifier (bare x) w2 u there)
          h2 in
      let h4 =
        step_ok (set_verifier_if_needed s registry 1 x.dca_verifier) _ w4 t w3 w'
          (λ u.
            set_verifier_if_needed_ok s laws registry 1 x.dca_verifier r1 w3 u
              (registry_there a r1 w2))
          h3 in
      let h5 =
        step_ok (set_price_feeds s registry x.price_feeds) _ w5 t w4 w'
          (λ u. set_price_feeds_ok s laws registry x.price_feeds r2 w4 u (registry_there a r2 w3))
          h4 in
      (
        sym (ok_injective registry t w5 w' h5),
        sym (ap (λ p. p.1) h5)
            ∙ with_registry_twice a r2 (wired_registry s x) w3
            ∙ with_registry_twice a r1 (wired_registry s x) w2,
      )

  -- When the steps from the new registry to its feeds end well, the registry's address is the next one that the
  -- deployer creates, and the world is the one before, but for the nonce, a registry at that address with the
  -- vaults, the adapter, the guardian, both verifiers and the feeds that are wanted, and both vaults pointing to it;
  -- so skipping a setting that is already as wanted makes no difference.
  pub deploy_registry_lem :
      (x : Wires) (t : Text) (w w' : World)
      → deploy_registry s x w ≡ (ok t, w')
      → (t ≡ s.shown (next_address s w)) × (w' ≡ wired s x w)
  unfolding deploy_registry
  deploy_registry_lem x t w w' same =
      let a = next_address s w in
      let coll = s.address_of x.collateral_vault in
      let gas = s.address_of x.gas_vault in
      let r0 = new_registry s gas coll (s.address_of x.dex_adapter) (s.address_of x.guardian) in
      let h1 = resolved_ok s laws x.gas_vault _ t w w' same in
      let h2 = resolved_ok s laws x.guardian _ t w w' (
        resolved_ok s laws x.dex_adapter _ t w w'
          (resolved_ok s laws x.collateral_vault _ t w w' h1)) in
      let h3 =
        construct_registry_ok gas coll (s.address_of x.dex_adapter) (s.address_of x.guardian) _ t w
          w' h2 in
      let at = laws.address_of-shown a in
      let new = with_registry a r0 (with_nonce w) in
      let there = ap new.chain.registries at ∙ registry_there a r0 (with_nonce w) in
      let (e, e') = wire_ok x (s.shown a) t new w' there h3 in
      (e, e' ∙ ap (λ c. wired_at x c new) at ∙ with_registry_twice a r0 (wired_registry s x) _)
