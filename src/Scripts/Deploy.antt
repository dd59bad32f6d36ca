-- ===== src/Scripts/Deploy.antt =====
-- contracts/scripts/deploy.ts
pub mod Outcome
use zstrategy.Base.{ℕ, ◌^◌, Bool, not, List, [], Option, none, some, ltb, if◌then◌else◌}
use zstrategy.Base.Int.{ℤ, pos, negsuc}
use zstrategy.Base.Text.{Text, codes, text_eq}
use zstrategy.Base.Result.{Result, ok, throw}
use zstrategy.Js.{to_lower_case}
use zstrategy.Js.ParseInt.{parse_int}
use zstrategy.Scripts.Run.{Script, give, fail, lift, change, require, ◌>>=◌}
use zstrategy.Scripts.Chain.{
  Setting, World, Action, Deployment, PriceFeed, resolved, deploy, deploy_vault_contract,
  deploy_adapter, with_file,
}
use zstrategy.Scripts.Settings.{
  PriceFeedConfig, price_feed_specs, or_previous, is_set, require_address, collect_from,
  price_feed_map,
}
use zstrategy.Scripts.Wiring.{Wires, deploy_registry}

abbrev pub text_or : Option Text → Text → Text
text_or none d = d
text_or (some t) d = t

-- An argument of type uint24.
abbrev pub as_uint24 : Option ℤ → Script World ℕ
as_uint24 none = fail (codes "invalid BigNumberish")
as_uint24 (some (negsuc n)) = fail (codes "value out-of-bounds")
as_uint24 (some (pos n)) = if ltb n (2 ^ 24) then give n else fail (codes "value out-of-bounds")

module _ (s : Setting) where
  unfoldable pub optional_address : Text → Option Text → Result (Option Text)
  optional_address label none = ok none
  optional_address label (some value) =
      if not (is_set (some value))
      then ok none
      else if not (s.is_address value)
      then throw label
      else ok (some value)

  abbrev reused_or : Script World Text → Option Text → Script World Text
  reused_or factory none = factory
  reused_or factory (some address) = give address

  unfoldable pub deploy_if_missing : Text → Script World Text → Script World Text
  unfolding optional_address
  deploy_if_missing env_name factory =
      lift (optional_address env_name (s.env env_name)) >>= reused_or factory

  unfoldable pub collect_price_feeds : Result (List PriceFeedConfig)
  collect_price_feeds =
      collect_from s (λ symbol. record { token = none; feed = none }) price_feed_specs

  -- A verifier of either kind is linked with a library that is deployed first.
  unfoldable pub deploy_order_fill_verifier : Script World Text
  deploy_order_fill_verifier = do library ← deploy s; deploy s

  unfoldable pub deploy_dca_verifier : Script World Text
  deploy_dca_verifier = do library ← deploy s; deploy s

  unfoldable pub deploy_uniswap_adapter : Script World Text
  deploy_uniswap_adapter = do
    router ← lift (
        require_address s (codes "UNISWAP_ROUTER_ADDRESS") (s.env (codes "UNISWAP_ROUTER_ADDRESS")))
    fee_tier ← as_uint24 (parse_int (text_or (s.env (codes "UNISWAP_FEE_TIER")) (codes "500")))
    a ← resolved s router
    deploy_adapter s a fee_tier

  abbrev pub is_deployer : Text → Bool
  is_deployer guardian = text_eq (to_lower_case guardian) (to_lower_case s.deployer)

  -- The file as it is written.
  abbrev pub deployment : Wires → Text → Deployment
  deployment w registry = record {
    network = some s.network;
    chain_id = some s.chain_id;
    deployer = some s.deployer;
    guardian = some w.guardian;
    order_fill_verifier = some w.order_fill_verifier;
    dca_verifier = some w.dca_verifier;
    collateral_vault = some w.collateral_vault;
    commitment_registry = some registry;
    gas_vault = some w.gas_vault;
    dex_adapter = some w.dex_adapter;
    price_feeds = some (price_feed_map [] w.price_feeds);
    mock_verifier = none;
    deployed_at = some s.now;
  }

  abbrev pub write_file : Deployment → Action
  write_file d = change (with_file d)

  abbrev pub guardian_address : Result Text
  guardian_address =
      require_address s (codes "GUARDIAN_ADDRESS")
        (some (text_or (s.env (codes "GUARDIAN_ADDRESS")) s.deployer))

  -- The contracts that are reused if the environment names them.
  abbrev pub order_fill_verifier_or_new : Script World Text
  order_fill_verifier_or_new =
      deploy_if_missing (codes "ORDER_FILL_VERIFIER_ADDRESS") deploy_order_fill_verifier

  abbrev pub dca_verifier_or_new : Script World Text
  dca_verifier_or_new = deploy_if_missing (codes "DCA_VERIFIER_ADDRESS") deploy_dca_verifier

  abbrev pub dex_adapter_or_new : Script World Text
  dex_adapter_or_new = deploy_if_missing (codes "DEX_ADAPTER_ADDRESS") deploy_uniswap_adapter

  abbrev pub collateral_vault_or_new : Script World Text
  collateral_vault_or_new =
      deploy_if_missing (codes "COLLATERAL_VAULT_ADDRESS") (deploy_vault_contract s)

  abbrev pub gas_vault_or_new : Script World Text
  gas_vault_or_new = deploy_if_missing (codes "GAS_VAULT_ADDRESS") (deploy_vault_contract s)

  -- From the new registry to the file.
  abbrev pub finish : Wires → Action
  finish wires = do registry ← deploy_registry s wires; write_file (deployment wires registry)

  unfoldable pub main : Action
  unfolding deploy_if_missing collect_price_feeds deploy_order_fill_verifier deploy_dca_verifier
      deploy_uniswap_adapter
  main = do
    guardian ← lift guardian_address
    guarded ←
        require (is_deployer guardian)
          (codes "GUARDIAN_ADDRESS must be the deployer for this script to run setup transactions")
    price_feeds ← lift collect_price_feeds
    order_fill_verifier ← order_fill_verifier_or_new
    dca_verifier ← dca_verifier_or_new
    dex_adapter ← dex_adapter_or_new
    collateral_vault ← collateral_vault_or_new
    gas_vault ← gas_vault_or_new
    finish (record {
      gas_vault = gas_vault;
      collateral_vault = collateral_vault;
      dex_adapter = dex_adapter;
      guardian = guardian;
      order_fill_verifier = order_fill_verifier;
      dca_verifier = dca_verifier;
      price_feeds = price_feeds;
    })
