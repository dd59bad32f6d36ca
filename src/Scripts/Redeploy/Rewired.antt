-- ===== src/Scripts/Redeploy/Rewired.antt =====
-- The registry and the file that redeploy-registry.ts leaves (contracts/scripts/redeploy-registry.ts).
use mathlib.Core.Path.{subst}
use zstrategy.Base.{ℕ, List, some, ◌≡◌, refl, sym, ap}
use zstrategy.Base.Text.{Text, text_eq_sound}
use zstrategy.Base.Result.{ok}
use zstrategy.Scripts.Chain.{
  Setting, IsEthers, World, Deployment, Registry, with_file, next_address, sender,
}
use zstrategy.Scripts.Settings.{PriceFeedConfig}
use zstrategy.Scripts.Wiring.{Wires}
use zstrategy.Scripts.Wiring.Spec.{wired, wired_registry, last_feed, feeds_after_lem}
use zstrategy.Scripts.Redeploy.{collect_price_feeds, next_deployment, main}
use zstrategy.Scripts.Redeploy.Outcome.{main_ok}
use zstrategy.Scripts.Agreement.{wired_there}

-- The registry of a file on a chain: guarded by the signer, and with the feeds of a configuration.
pub record HasFeeds (s : Setting) (configs : List PriceFeedConfig) (registry : Text) (w : World)
    : Type 0 where
  pub parts : Registry
  pub there : w.chain.registries (s.address_of registry) ≡ some parts
  pub guarded : parts.guardian ≡ sender s
  pub feeds : (token : ℕ) → parts.price_feeds token ≡ last_feed s configs token 0

module _ (s : Setting) (laws : IsEthers s.ethers) where
  rewired-HasFeeds :
      (x : Wires) (d : Deployment) (w : World)
      → s.address_of x.guardian ≡ sender s
      → HasFeeds s x.price_feeds (s.shown (next_address s w)) (with_file d (wired s x w))
  rewired-HasFeeds x d w own = record {
    parts = wired_registry s x;
    there = wired_there s laws x w;
    guarded = own;
    feeds = λ token. feeds_after_lem s x.price_feeds (λ t. 0) token;
  }

  -- After a run of redeploy-registry.ts that ends well there was a deployment file, the new file names a registry
  -- whose guardian is the signer and whose price feed for every token is the last one that collectPriceFeeds gave for
  -- that token, none for the others; and the new file's priceFeeds are those of the old one, whatever
  -- collectPriceFeeds gave.
  pub main-HasFeeds :
      (w w' : World)
      → main s w ≡ (ok tt, w')
      → (d d' : Deployment) × (configs : List PriceFeedConfig) × (registry : Text) × (w.file
          ≡ some d)
        × (collect_price_feeds s d ≡ ok configs)
        × (w'.file ≡ some d')
        × (d'.commitment_registry ≡ some registry)
        × HasFeeds s configs registry w'
        × (d'.price_feeds ≡ d.price_feeds)
  main-HasFeeds w w' same =
      let (d, x, u, there, guarded, feeds, result) = main_ok s laws w w' same in
      let registry = s.shown (next_address s u) in
      let d' = next_deployment s d x registry in
      let own : s.address_of x.guardian ≡ sender s =
        laws.address_of-lower x.guardian s.deployer (text_eq_sound _ _ guarded) in
      (
        d,
        d',
        x.price_feeds,
        registry,
        there,
        feeds,
        ap (λ z. z.file) result,
        refl,
        subst (HasFeeds s x.price_feeds registry) (sym result) (rewired-HasFeeds x d' u own),
        refl,
      )
