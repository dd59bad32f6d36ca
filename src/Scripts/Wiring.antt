-- ===== src/Scripts/Wiring.antt =====
-- contracts/scripts/deploy.ts: the steps that deploy a registry and wire it, which redeploy-registry.ts repeats.
pub mod Spec
pub mod Effect
pub mod Whole
use zstrategy.Base.{ℕ, List, [], ◌∷◌, if◌then◌else◌}
use zstrategy.Base.Text.{Text, text_eq}
use zstrategy.Js.{to_lower_case}
use zstrategy.Scripts.Run.{Script, give, ◌>>=◌}
use zstrategy.Scripts.Chain.{
  Setting, World, Action, Registry, resolved, vault_registry, set_registry, registry_at,
  set_verifier, set_price_feed, construct_registry,
}
use zstrategy.Scripts.Settings.{PriceFeedConfig}

-- What a registry is deployed with.
pub record Wires : Type 0 where
  pub gas_vault : Text
  pub collateral_vault : Text
  pub dex_adapter : Text
  pub guardian : Text
  pub order_fill_verifier : Text
  pub dca_verifier : Text
  pub price_feeds : List PriceFeedConfig

module _ (s : Setting) where
  -- `current.toLowerCase() === wanted.toLowerCase()`, where a call returned `current`
  abbrev pub is_current : ℕ → Text → Action → Action
  is_current current wanted act =
      if text_eq (to_lower_case (s.shown current)) (to_lower_case wanted) then give tt else act

  unfoldable pub set_vault_registry : Text → Text → Action
  unfolding set_registry
  set_vault_registry address registry = do
    vault ← resolved s address
    current ← vault_registry s vault
    is_current current registry (do r ← resolved s registry; set_registry s vault r)

  unfoldable pub set_verifier_if_needed : Text → ℕ → Text → Action
  unfolding set_verifier
  set_verifier_if_needed registry kind verifier = do
    a ← resolved s registry
    r ← registry_at s a
    is_current (r.verifiers kind) verifier (do v ← resolved s verifier; set_verifier s a kind v)

  unfoldable pub set_price_feed_if_needed : Text → PriceFeedConfig → Action
  unfolding set_price_feed
  set_price_feed_if_needed registry config = do
    a ← resolved s registry
    token ← resolved s config.token
    r ← registry_at s a
    is_current (r.price_feeds token) config.feed
        (do feed ← resolved s config.feed; set_price_feed s a token feed)

  unfoldable pub set_price_feeds : Text → List PriceFeedConfig → Action
  unfolding set_price_feed_if_needed
  set_price_feeds registry [] = give tt
  set_price_feeds registry (c ∷ configs) =
      set_price_feed_if_needed registry c >>= λ done. set_price_feeds registry configs

  -- The new registry, the two vaults that point to it, its two verifiers and its feeds.
  unfoldable pub deploy_registry : Wires → Script World Text
  unfolding construct_registry set_vault_registry set_verifier_if_needed set_price_feeds
  deploy_registry w = do
    gas ← resolved s w.gas_vault
    collateral ← resolved s w.collateral_vault
    dex ← resolved s w.dex_adapter
    guardian ← resolved s w.guardian
    registry ← construct_registry s gas collateral dex guardian
    first ← set_vault_registry w.collateral_vault registry
    second ← set_vault_registry w.gas_vault registry
    order_fill ← set_verifier_if_needed registry 0 w.order_fill_verifier
    dca ← set_verifier_if_needed registry 1 w.dca_verifier
    feeds ← set_price_feeds registry w.price_feeds
    give registry
