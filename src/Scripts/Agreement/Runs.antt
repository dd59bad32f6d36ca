-- ===== src/Scripts/Agreement/Runs.antt =====
-- Runs of the scripts of contracts/scripts, one after the other.
use zstrategy.Base.{◌≡◌}
use zstrategy.Base.Result.{ok}
use zstrategy.Scripts.Chain.{Ethers, IsEthers, Setting, World}
use zstrategy.Scripts.Deploy
use zstrategy.Scripts.Deploy.Outcome as Deployed
use zstrategy.Scripts.Redeploy
use zstrategy.Scripts.Redeploy.Outcome as Redeployed
use zstrategy.Scripts.Verifiers.{redeploy_verifiers}
use zstrategy.Scripts.Verifiers.Outcome.{redeploy_verifiers-HasAgreed}
use zstrategy.Scripts.FeeTier.{swap_dex_fee_tier}
use zstrategy.Scripts.FeeTier.Outcome.{swap_dex_fee_tier-HasAgreed}
use zstrategy.Scripts.Agreement.{HasAgreed, deployed-HasAgreed, redeployed-HasAgreed}

-- Settings with a given library.
abbrev pub on : Ethers → Setting → Setting
on e s = record s { ethers = e }

-- One run that ends well, with settings of its own.
pub data Step (e : Ethers) : World → World → Type 0 where
  deployed : (s : Setting) {w w' : World} → Deploy.main (on e s) w ≡ (ok tt, w') → Step e w w'
  redeployed : (s : Setting) {w w' : World} → Redeploy.main (on e s) w ≡ (ok tt, w') → Step e w w'
  verifiers_redeployed :
      (s : Setting) {w w' : World} → redeploy_verifiers (on e s) w ≡ (ok tt, w') → Step e w w'
  fee_tier_swapped :
      (s : Setting) {w w' : World} → swap_dex_fee_tier (on e s) w ≡ (ok tt, w') → Step e w w'

-- The worlds after a deployment and any number of runs.
pub data Reached (e : Ethers) : World → Type 0 where
  first :
      (s : Setting) (w : World) {w' : World} → Deploy.main (on e s) w ≡ (ok tt, w') → Reached e w'
  further : {w w' : World} → Reached e w → Step e w w' → Reached e w'

module _ (e : Ethers) (laws : IsEthers e) where
  main-HasAgreed :
      (s : Setting) (w w' : World) → Deploy.main (on e s) w ≡ (ok tt, w') → HasAgreed e w'
  main-HasAgreed s w w' same =
      let (x, u, guarded, feeds, result) = Deployed.main_ok (on e s) laws w w' same in
      deployed-HasAgreed (on e s) laws x u w' result

  Step-HasAgreed : {w w' : World} → Step e w w' → HasAgreed e w → HasAgreed e w'
  Step-HasAgreed {w} {w'} (deployed s same) h = main-HasAgreed s w w' same
  Step-HasAgreed {w} {w'} (redeployed s same) h =
      let (d, x, u, there, guarded, feeds, result) = Redeployed.main_ok (on e s) laws w w' same in
      redeployed-HasAgreed (on e s) laws d x u w' result
  Step-HasAgreed {w} {w'} (verifiers_redeployed s same) h =
      redeploy_verifiers-HasAgreed (on e s) laws w w' h same
  Step-HasAgreed {w} {w'} (fee_tier_swapped s same) h =
      swap_dex_fee_tier-HasAgreed (on e s) laws w w' h same

  -- After a run of deploy.ts on any chain, and then any number of runs of deploy.ts, redeploy-registry.ts,
  -- redeploy-verifiers.ts and swap-dex-fee-tier.ts that all end well, each with its own environment and signer:
  -- the deployment file names a registry, two vaults, an adapter and two verifiers, the registry at that address
  -- has these as its parts, and both vaults point to that registry.
  pub Reached-HasAgreed : {w : World} → Reached e w → HasAgreed e w
  Reached-HasAgreed (first s w {w'} same) = main-HasAgreed s w w' same
  Reached-HasAgreed (further r st) = Step-HasAgreed st (Reached-HasAgreed r)
