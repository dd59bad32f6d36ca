-- ===== src/Examples/Deploying.antt =====
-- Deployments with a toy library: an address is "0x" and as many letters as its number.
use zstrategy.Base.{
  ℕ, suc, ◌+◌, ◌-◌, true, List, [], ◌∷◌, Option, none, some, length, replicate, length-replicate,
  if◌then◌else◌, ltb, ◌≡◌, refl, sym, ap, ◌∙◌, arith,
}
use zstrategy.Base.Text.{Text, codes, text_eq}
use zstrategy.Base.Result.{ok}
use zstrategy.Js.{to_lower_case}
use zstrategy.Scripts.Chain.{Ethers, IsEthers, Setting, World, Deployment}
use zstrategy.Scripts.Deploy
use zstrategy.Scripts.Redeploy
use zstrategy.Scripts.Settings.{
  require_address, collect_from, address_from_env_or_deployment, feed_of, price_feed_map,
  PriceFeedConfig,
}
use zstrategy.Js.{trim}
use zstrategy.Js.ParseInt.{parse_int}
use zstrategy.Scripts.Chain.{deploy, deploy_adapter, deploy_vault_contract, set_dex_adapter}
use zstrategy.Scripts.Wiring.{Wires, deploy_registry}
use zstrategy.Scripts.Wiring.Spec.{wired}
use zstrategy.Scripts.Wiring.Whole.{deploy_registry_lem}
use zstrategy.Scripts.Redeploy.Rewired.{HasFeeds, main-HasFeeds}
use zstrategy.Scripts.Verifiers.{redeploy_verifiers}
use zstrategy.Scripts.FeeTier.{swap_dex_fee_tier}
use zstrategy.Scripts.Agreement.{HasAgreed}
use zstrategy.Scripts.Agreement.Runs.{
  first, further, redeployed, verifiers_redeployed, fee_tier_swapped, Reached-HasAgreed,
}
use zstrategy.Scripts.Redeploy.Refused.{Refuses, main-Refuses}
use zstrategy.Scripts.Redeploy.Defects.{in_file, bad_dex_adapter, invalid}

abbrev pub toy_address : ℕ → Text
toy_address n = b'0' ∷ b'x' ∷ replicate n b'a'

abbrev pub toy_ethers : Ethers
toy_ethers = record {
  is_address = λ t. ltb 2 (length t);
  address_of = λ t. length t - 2;
  shown = toy_address;
  is_owner = λ vault sender. true;
  create_address = λ sender nonce. 20 + nonce;
}

pub length-to_lower_case : (t : Text) → length (to_lower_case t) ≡ length t
unfolding to_lower_case
length-to_lower_case [] = refl
length-to_lower_case (c ∷ t) = ap (λ n. suc n) (length-to_lower_case t)

pub toy_ethers-IsEthers : IsEthers toy_ethers
toy_ethers-IsEthers = record {
  address_of-shown = λ a. omega (arith, length-replicate {0} {A = ℕ} a b'a');
  address_of-lower = λ s t same.
      ap (λ n. n - 2) (sym (length-to_lower_case s) ∙ ap length same ∙ length-to_lower_case t);
}

abbrev pub lookup : List (Text × Text) → Text → Option Text
lookup [] name = none
lookup ((key, value) ∷ rest) name =
    let later = lookup rest name in if text_eq key name then some value else later

abbrev pub signed_setting : List (Text × Text) → Setting
signed_setting env = record {
  ethers = toy_ethers;
  env = lookup env;
  network = codes "arbitrumSepolia";
  chain_id = 421614;
  deployer = toy_address 1;
  now = codes "2026-01-01T00:00:00.000Z";
}

abbrev feed_variables : List (Text × Text)
feed_variables =
    (codes "WETH_ADDRESS", toy_address 2)
    ∷ (codes "CHAINLINK_PRICE_FEED_WETH_USD", toy_address 3)
    ∷ (codes "USDC_ADDRESS", toy_address 4)
    ∷ (codes "CHAINLINK_PRICE_FEED_USDC_USD", toy_address 5)
    ∷ []

abbrev pub empty_world : World
empty_world = record {
  chain = record { vaults = λ a. none; registries = λ a. none; adapters = λ a. none; nonce = 0 };
  file = none;
}

abbrev deploying : Setting
deploying = signed_setting ((codes "UNISWAP_ROUTER_ADDRESS", toy_address 6) ∷ feed_variables)

abbrev world_1 : World
world_1 = (Deploy.main deploying empty_world).1

-- The registry again, with both vaults reused; then a new DCA verifier; then another fee tier.
abbrev redeploying : Setting
redeploying = signed_setting (
    (codes "SKIP_COLLATERAL_VAULT", codes "1")
    ∷ (codes "SKIP_GAS_VAULT", codes "1")
    ∷ feed_variables)

abbrev world_2 : World
world_2 = (Redeploy.main redeploying world_1).1

abbrev renewing : Setting
renewing = signed_setting ((codes "SKIP_ORDER_FILL", codes "1") ∷ [])

abbrev world_3 : World
world_3 = (redeploy_verifiers renewing world_2).1

abbrev swapping : Setting
swapping = signed_setting ((codes "FEE_TIER", codes "500") ∷ [])

abbrev world_4 : World
world_4 = (swap_dex_fee_tier swapping world_3).1

deploy_runs : Deploy.main deploying empty_world ≡ (ok tt, world_1)
unfolding Deploy.main Redeploy.main redeploy_verifiers swap_dex_fee_tier require_address text_eq
    to_lower_case collect_from deploy parse_int trim deploy_adapter deploy_vault_contract
    deploy_registry address_from_env_or_deployment feed_of price_feed_map set_dex_adapter
deploy_runs = refl

redeploy_runs : Redeploy.main redeploying world_1 ≡ (ok tt, world_2)
unfolding Deploy.main Redeploy.main redeploy_verifiers swap_dex_fee_tier require_address text_eq
    to_lower_case collect_from deploy parse_int trim deploy_adapter deploy_vault_contract
    deploy_registry address_from_env_or_deployment feed_of price_feed_map set_dex_adapter
redeploy_runs = refl

verifiers_run : redeploy_verifiers renewing world_2 ≡ (ok tt, world_3)
unfolding Deploy.main Redeploy.main redeploy_verifiers swap_dex_fee_tier require_address text_eq
    to_lower_case collect_from deploy parse_int trim deploy_adapter deploy_vault_contract
    deploy_registry address_from_env_or_deployment feed_of price_feed_map set_dex_adapter
verifiers_run = refl

fee_tier_runs : swap_dex_fee_tier swapping world_3 ≡ (ok tt, world_4)
unfolding Deploy.main Redeploy.main redeploy_verifiers swap_dex_fee_tier require_address text_eq
    to_lower_case collect_from deploy parse_int trim deploy_adapter deploy_vault_contract
    deploy_registry address_from_env_or_deployment feed_of price_feed_map set_dex_adapter
fee_tier_runs = refl

Reached-HasAgreed_example : HasAgreed toy_ethers world_4
Reached-HasAgreed_example = Reached-HasAgreed toy_ethers toy_ethers-IsEthers (
    further
      (further
        (further (first deploying empty_world deploy_runs) (redeployed redeploying redeploy_runs))
        (verifiers_redeployed renewing verifiers_run))
      (fee_tier_swapped swapping fee_tier_runs))

-- What the deployment wired.
abbrev wires_1 : Wires
wires_1 = record {
  gas_vault = toy_address 26;
  collateral_vault = toy_address 25;
  dex_adapter = toy_address 24;
  guardian = toy_address 1;
  order_fill_verifier = toy_address 21;
  dca_verifier = toy_address 23;
  price_feeds = record { symbol = codes "WETH"; token = toy_address 2; feed = toy_address 3 } ∷ [];
}

abbrev file_0 : Deployment
file_0 = Deploy.deployment deploying wires_1 (toy_address 27)

abbrev world_0 : World
world_0 = record empty_world { file = some file_0 }

abbrev rewired : World
rewired = (deploy_registry deploying wires_1 world_1).1

deploy_registry_runs : deploy_registry deploying wires_1 world_1 ≡ (ok (toy_address 28), rewired)
unfolding Deploy.main require_address text_eq to_lower_case collect_from deploy parse_int trim
    deploy_adapter deploy_vault_contract deploy_registry
deploy_registry_runs = refl

deploy_registry_lem_example :
    (toy_address 28 ≡ toy_address 28) × (rewired ≡ wired deploying wires_1 world_1)
unfolding Deploy.main require_address text_eq to_lower_case collect_from deploy parse_int trim
    deploy_adapter deploy_vault_contract deploy_registry
deploy_registry_lem_example =
    deploy_registry_lem deploying toy_ethers-IsEthers wires_1 (toy_address 28) world_1 rewired
      deploy_registry_runs

main-HasFeeds_example :
    (d d' : Deployment) × (configs : List PriceFeedConfig) × (registry : Text) × (world_1.file
      ≡ some d)
    × (Redeploy.collect_price_feeds redeploying d ≡ ok configs)
    × (world_2.file ≡ some d')
    × (d'.commitment_registry ≡ some registry)
    × HasFeeds redeploying configs registry world_2
    × (d'.price_feeds ≡ d.price_feeds)
main-HasFeeds_example = main-HasFeeds redeploying toy_ethers-IsEthers world_1 world_2 redeploy_runs

-- An adapter's address that is too short.
abbrev mistaken : Setting
mistaken = signed_setting ((codes "DEX_ADAPTER_ADDRESS", codes "0x") ∷ feed_variables)

main-Refuses_example : Refuses (Redeploy.main mistaken) world_0
unfolding Deploy.main text_eq
main-Refuses_example =
    main-Refuses mistaken world_0
      (in_file file_0 refl (bad_dex_adapter (invalid (codes "0x") refl refl)))
