-- ===== src/Scripts/FeeTier.antt =====
-- contracts/scripts/swap-dex-fee-tier.ts
pub mod Outcome
use zstrategy.Base.{
  ℕ, Bool, true, false, ◌&&◌, ◌||◌, List, [], ◌∷◌, Option, none, some, ◌==◌, if◌then◌else◌,
}
use zstrategy.Base.Int.{ℤ, pos, negsuc}
use zstrategy.Base.Text.{Text, codes}
use zstrategy.Js.ParseInt.{parse_int}
use zstrategy.Scripts.Run.{Script, give, fail, lift, read, require, ◌>>=◌}
use zstrategy.Scripts.Chain.{
  Setting, World, Action, Adapter, Deployment, resolved, adapter_at, deploy_adapter,
  set_dex_adapter,
}
use zstrategy.Scripts.Deploy.{is_deployer, write_file}
use zstrategy.Scripts.Redeploy.{previous_deployment}
use zstrategy.Scripts.Settings.{is_set, is_address?}
use zstrategy.Scripts.Verifiers.{defined_or_fail, registry_of}

-- `process.env.FEE_TIER || "3000"`
abbrev pub tier_text : Option Text → Text
tier_text none = codes "3000"
tier_text (some []) = codes "3000"
tier_text (some (c ∷ t)) = c ∷ t

abbrev pub known_tier : Option ℤ → Script World ℕ
known_tier none = fail (codes "FEE_TIER must be one of {100, 500, 3000, 10000}")
known_tier (some (negsuc n)) = fail (codes "FEE_TIER must be one of {100, 500, 3000, 10000}")
known_tier (some (pos n)) =
    if n == 100 || n == 500 || n == 3000 || n == 10000
    then give n
    else fail (codes "FEE_TIER must be one of {100, 500, 3000, 10000}")

module _ (s : Setting) where
  -- The router that the environment names, or that of the adapter in the file.
  abbrev pub router_or_old : Bool → Option Text → Option Text → Script World Text
  router_or_old is_given given old = if is_given then defined_or_fail given else (do
    t ← defined_or_fail old
    a ← resolved s t
    adapter ← adapter_at s a
    give (s.shown adapter.router))

  unfoldable pub swap_dex_fee_tier : Action
  unfolding previous_deployment
  swap_dex_fee_tier = do
    previous ← previous_deployment s
    fee_tier ← known_tier (parse_int (tier_text (s.env (codes "FEE_TIER"))))
    router ←
        router_or_old (is_address? s (s.env (codes "UNISWAP_ROUTER_ADDRESS")))
          (s.env (codes "UNISWAP_ROUTER_ADDRESS")) previous.dex_adapter
    guardian ← defined_or_fail previous.guardian
    guarded ← require (is_deployer s guardian) (codes "Deployer is not the registry guardian")
    router_address ← resolved s router
    adapter ← deploy_adapter s router_address fee_tier
    registry ← registry_of s previous
    a ← resolved s adapter
    swapped ← set_dex_adapter s registry a
    write_file s (record previous { dex_adapter = some adapter })
