-- ===== src/Scripts/Redeploy.antt =====
-- contracts/scripts/redeploy-registry.ts. Its requireAddress, setVaultRegistry, setVerifierIfNeeded,
-- setPriceFeedIfNeeded and the steps that they make up are those of deploy.ts. Its deploymentPriceFeedMap is
-- called nowhere.
pub mod Outcome
pub mod Defects
pub mod Refused
pub mod Rewired
use zstrategy.Base.{ℕ, Bool, false, List, Option, none, some, ◌==◌, if◌then◌else◌}
use zstrategy.Base.Text.{Text, codes, text_eq}
use zstrategy.Base.Result.{Result}
use zstrategy.Js.{to_lower_case}
use zstrategy.Scripts.Run.{Script, give, fail, lift, read, require, ◌>>=◌}
use zstrategy.Scripts.Chain.{Setting, World, Action, Deployment, deploy_vault_contract}
use zstrategy.Scripts.Settings.{
  PriceFeedConfig, price_feed_specs, or_previous, is_one, require_address,
  address_from_env_or_deployment, collect_from, feed_of, feeds_or_none,
}
use zstrategy.Scripts.Wiring.{Wires, deploy_registry}
use zstrategy.Scripts.Deploy.{is_deployer, write_file}

abbrev pub is_chain : ℕ → Option ℕ → Bool
is_chain connected none = false
is_chain connected (some n) = n == connected

abbrev pub file_or_fail : Option Deployment → Script World Deployment
file_or_fail none = fail (codes "No deployment found")
file_or_fail (some d) = give d

module _ (s : Setting) where
  -- `fs.existsSync`, the parsed file and its chain, with which every script but deploy.ts starts
  unfoldable pub previous_deployment : Script World Deployment
  previous_deployment = do
    file ← read (λ w. w.file)
    previous ← file_or_fail file
    same ← require (is_chain s.chain_id previous.chain_id) (codes "Network mismatch")
    give previous

  unfoldable pub collect_price_feeds : Deployment → Result (List PriceFeedConfig)
  collect_price_feeds previous =
      collect_from s (feed_of (feeds_or_none previous.price_feeds)) price_feed_specs

  abbrev pub vault_or_new : Bool → Result Text → Script World Text
  vault_or_new skip reused = if skip then lift reused else deploy_vault_contract s

  -- `next`
  abbrev pub next_deployment : Deployment → Wires → Text → Deployment
  next_deployment previous w registry = record previous {
    network = some s.network;
    chain_id = some s.chain_id;
    deployer = some s.deployer;
    guardian = some w.guardian;
    order_fill_verifier = some w.order_fill_verifier;
    dca_verifier = some w.dca_verifier;
    commitment_registry = some registry;
    collateral_vault = some w.collateral_vault;
    gas_vault = some w.gas_vault;
    dex_adapter = some w.dex_adapter;
    deployed_at = some s.now;
  }

  -- The settings that are read before the first transaction.
  abbrev pub guardian_address : Deployment → Result Text
  guardian_address previous = require_address s (codes "GUARDIAN_ADDRESS") (
      or_previous (or_previous (s.env (codes "GUARDIAN_ADDRESS")) previous.guardian)
        (some s.deployer))

  abbrev pub order_fill_verifier_address : Deployment → Result Text
  order_fill_verifier_address previous =
      address_from_env_or_deployment s (codes "ORDER_FILL_VERIFIER_ADDRESS")
        (codes "orderFillVerifier") previous.order_fill_verifier

  abbrev pub dca_verifier_address : Deployment → Result Text
  dca_verifier_address previous =
      address_from_env_or_deployment s (codes "DCA_VERIFIER_ADDRESS") (codes "dcaVerifier")
        previous.dca_verifier

  abbrev pub dex_adapter_address : Deployment → Result Text
  dex_adapter_address previous =
      address_from_env_or_deployment s (codes "DEX_ADAPTER_ADDRESS") (codes "dexAdapter")
        previous.dex_adapter

  -- The vaults, whose addresses are looked at only where they are reused.
  abbrev pub collateral_vault_or_new : Deployment → Script World Text
  collateral_vault_or_new previous = vault_or_new (is_one (s.env (codes "SKIP_COLLATERAL_VAULT"))) (
      address_from_env_or_deployment s (codes "COLLATERAL_VAULT_ADDRESS") (codes "collateralVault")
        previous.collateral_vault)

  abbrev pub gas_vault_or_new : Deployment → Script World Text
  gas_vault_or_new previous = vault_or_new (is_one (s.env (codes "SKIP_GAS_VAULT"))) (
      address_from_env_or_deployment s (codes "GAS_VAULT_ADDRESS") (codes "gasVault")
        previous.gas_vault)

  -- From the new registry to the file.
  abbrev pub finish : Deployment → Wires → Action
  finish previous wires = do
    registry ← deploy_registry s wires
    write_file s (next_deployment previous wires registry)

  unfoldable pub main : Action
  unfolding previous_deployment collect_price_feeds
  main = do
    previous ← previous_deployment
    guardian ← lift (guardian_address previous)
    guarded ← require (is_deployer s guardian) (codes "Deployer is not the registry guardian")
    order_fill_verifier ← lift (order_fill_verifier_address previous)
    dca_verifier ← lift (dca_verifier_address previous)
    dex_adapter ← lift (dex_adapter_address previous)
    price_feeds ← lift (collect_price_feeds previous)
    collateral_vault ← collateral_vault_or_new previous
    gas_vault ← gas_vault_or_new previous
    finish previous (record {
      gas_vault = gas_vault;
      collateral_vault = collateral_vault;
      dex_adapter = dex_adapter;
      guardian = guardian;
      order_fill_verifier = order_fill_verifier;
      dca_verifier = dca_verifier;
      price_feeds = price_feeds;
    })
