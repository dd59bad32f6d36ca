-- ===== src/Scripts/Wiring/Spec.antt =====
-- The world that a deployment aims at (contracts/scripts/deploy.ts, redeploy-registry.ts).
use zstrategy.Base.{ℕ, List, [], ◌∷◌, if◌then◌else◌, ◌==◌, ◌≡◌, refl}
use zstrategy.Scripts.Chain.{
  Setting, World, Registry, set_at, with_vault, with_registry, with_nonce, next_address,
}
use zstrategy.Scripts.Settings.{PriceFeedConfig}
use zstrategy.Scripts.Wiring.{Wires}

module _ (s : Setting) where
  -- The feeds after each of the configured ones is set, in their order.
  abbrev pub feeds_after : List PriceFeedConfig → (ℕ → ℕ) → ℕ → ℕ
  feeds_after [] f = f
  feeds_after (c ∷ configs) f =
      feeds_after configs (set_at (s.address_of c.token) (s.address_of c.feed) f)

  -- A registry with everything that it is deployed with.
  abbrev pub wired_registry : Wires → Registry
  wired_registry x = record {
    gas_vault = s.address_of x.gas_vault;
    vault = s.address_of x.collateral_vault;
    dex_adapter = s.address_of x.dex_adapter;
    guardian = s.address_of x.guardian;
    verifiers =
        set_at 1 (s.address_of x.dca_verifier)
          (set_at 0 (s.address_of x.order_fill_verifier) (λ kind. 0));
    price_feeds = feeds_after x.price_feeds (λ token. 0);
  }

  -- The world with a new registry at an address, to which both vaults point.
  abbrev pub wired : Wires → World → World
  wired x w =
      let a = next_address s w in
      with_vault (s.address_of x.gas_vault) a (
        with_vault (s.address_of x.collateral_vault) a
          (with_registry a (wired_registry x) (with_nonce w)))

  -- The last feed that is configured for a token.
  abbrev pub last_feed : List PriceFeedConfig → ℕ → ℕ → ℕ
  last_feed [] token feed = feed
  last_feed (c ∷ configs) token feed =
      last_feed configs token (if s.address_of c.token == token then s.address_of c.feed else feed)

  pub feeds_after_lem :
      (configs : List PriceFeedConfig) (f : ℕ → ℕ) (token : ℕ)
      → feeds_after configs f token ≡ last_feed configs token (f token)
  feeds_after_lem [] f token = refl
  feeds_after_lem (c ∷ configs) f token =
      feeds_after_lem configs (set_at (s.address_of c.token) (s.address_of c.feed) f) token
