-- ===== src/Scripts/Redeploy/Defects.antt =====
-- What makes the settings of redeploy-registry.ts unusable (contracts/scripts/redeploy-registry.ts).
use zstrategy.Base.{
  ℕ, zero, suc, true, false, List, [], ◌∷◌, Option, none, some, get_elem?, ◌≡◌, ◌≢◌, refl, sym, ◌⊎◌,
  inl, inr,
}
use mathlib.Core.Path.{subst}
use zstrategy.Base.Text.{Text, codes}
use zstrategy.Base.Result.{Result, ok, throw, ◌>>=◌, Result-cases}
use zstrategy.Js.{to_lower_case}
use zstrategy.Scripts.Chain.{Setting, PriceFeed, Deployment}
use zstrategy.Scripts.Settings.{
  PriceFeedSpec, PriceFeedConfig, price_feed_specs, or_previous, require_address, feed_config,
  collect_from, feed_of, feeds_or_none,
}

-- The first that is there.
abbrev pub first_of : Option Text → Option Text → Option Text
first_of none b = b
first_of (some a) b = some a

pub first_of_lem : (a b : Option Text) → or_previous a b ≡ first_of a b
first_of_lem none b = refl
first_of_lem (some a) b = refl

-- A computation that throws.
abbrev pub Throws {κ} : {Value : Type κ} → Result Value → Type κ
Throws {Value} r = (message : Text) × (r ≡ throw message)

text_injective : (t u : Text) → ◌≡◌ {A = Option Text} (some t) (some u) → t ≡ u
text_injective t u h = cc

empty_given : (t : Text) → ◌≡◌ {A = Option Text} (some []) (some t) → t ≢ [] → ⊥
empty_given t e h = h (text_injective t [] (sym e))

some_injective : (x y : PriceFeedSpec) → ◌≡◌ {A = Option PriceFeedSpec} (some x) (some y) → x ≡ y
some_injective x y h = cc

module _ (s : Setting) where
  -- Undefined, empty, or no address for ethers.
  pub data IsNoAddress (value : Option Text) : Type 0 where
    missing : value ≡ none → IsNoAddress value
    empty : value ≡ some [] → IsNoAddress value
    invalid : (t : Text) → value ≡ some t → s.is_address t ≡ false → IsNoAddress value

  -- The text of a variable of the environment, or else that of the deployment file.
  abbrev pub setting : Text → Option Text → Option Text
  setting name previous = first_of (s.env name) previous

  -- The price feed has to be complete: it is required, or one of its two texts is not empty.
  pub data IsUsed (spec : PriceFeedSpec) (token feed : Option Text) : Type 0 where
    is_required : spec.required ≡ true → IsUsed spec token feed
    token_given : (t : Text) → token ≡ some t → t ≢ [] → IsUsed spec token feed
    feed_given : (t : Text) → feed ≡ some t → t ≢ [] → IsUsed spec token feed

  abbrev pub guardian_setting : Deployment → Option Text
  guardian_setting d = first_of (setting (codes "GUARDIAN_ADDRESS") d.guardian) (some s.deployer)

  abbrev pub token_setting : Deployment → PriceFeedSpec → Option Text
  token_setting d spec =
      setting spec.token_env (feed_of (feeds_or_none d.price_feeds) spec.symbol).token

  abbrev pub feed_setting : Deployment → PriceFeedSpec → Option Text
  feed_setting d spec =
      setting spec.feed_env (feed_of (feeds_or_none d.price_feeds) spec.symbol).feed

  -- What is wrong with the chain, the signer or an address, when the deployment file is there.
  pub data FileDefect (d : Deployment) : Type 0 where
    no_chain : d.chain_id ≡ none → FileDefect d
    other_chain : (n : ℕ) → d.chain_id ≡ some n → n ≢ s.chain_id → FileDefect d
    bad_guardian : IsNoAddress (guardian_setting d) → FileDefect d
    other_signer :
        (guardian : Text)
        → guardian_setting d ≡ some guardian
        → to_lower_case guardian ≢ to_lower_case s.deployer
        → FileDefect d
    bad_order_fill_verifier :
        IsNoAddress (setting (codes "ORDER_FILL_VERIFIER_ADDRESS") d.order_fill_verifier)
        → FileDefect d
    bad_dca_verifier :
        IsNoAddress (setting (codes "DCA_VERIFIER_ADDRESS") d.dca_verifier) → FileDefect d
    bad_dex_adapter :
        IsNoAddress (setting (codes "DEX_ADAPTER_ADDRESS") d.dex_adapter) → FileDefect d
    bad_feed :
        (j : ℕ) (spec : PriceFeedSpec)
        → get_elem? price_feed_specs j ≡ some spec
        → IsUsed spec (token_setting d spec) (feed_setting d spec)
        → IsNoAddress (token_setting d spec) ⊎ IsNoAddress (feed_setting d spec)
        → FileDefect d

  pub data Defect (file : Option Deployment) : Type 0 where
    no_file : file ≡ none → Defect file
    in_file : (d : Deployment) → file ≡ some d → FileDefect d → Defect file

  pub require_address-Throws :
      (label : Text) (value : Option Text)
      → IsNoAddress value
      → Throws (require_address s label value)
  unfolding require_address
  require_address-Throws label value (missing e) = rw e (_, refl)
  require_address-Throws label value (empty e) = rw e (_, refl)
  require_address-Throws label value (invalid [] e bad) = rw e (_, refl)
  require_address-Throws label value (invalid (c ∷ t) e bad) = rw (e, bad) (_, refl)

  -- The same for what the environment or the file gives.
  pub setting-Throws :
      (label : Text) (a b : Option Text)
      → IsNoAddress (first_of a b)
      → Throws (require_address s label (or_previous a b))
  setting-Throws label a b bad =
      require_address-Throws label (or_previous a b)
        (subst IsNoAddress (sym (first_of_lem a b)) bad)

  pair-Throws :
      (l l' : Text) (token feed : Option Text) (symbol : Text)
      → IsNoAddress token ⊎ IsNoAddress feed
      → Throws (do
        t ← require_address s l token
        f ← require_address s l' feed
        ok (some (let c : PriceFeedConfig = record { symbol = symbol; token = t; feed = f } in c)))
  pair-Throws l l' token feed symbol (inl bad) =
      let (m, e) = require_address-Throws l token bad in rw e (m, refl)
  pair-Throws l l' token feed symbol (inr bad) =
      let (m, e) = require_address-Throws l' feed bad in
      elim (Result-cases (require_address s l token)) [
        | inl (t, there) ↦ rw (there, e) (m, refl)
        | inr (m', throws) ↦ rw throws (m', refl)
      ]

  -- Of a feed that is used, neither text may be missing or empty.
  feed_config-Throws :
      (spec : PriceFeedSpec) (p : PriceFeed) (token feed : Option Text)
      → or_previous (s.env spec.token_env) p.token ≡ token
      → or_previous (s.env spec.feed_env) p.feed ≡ feed
      → IsUsed spec token feed
      → IsNoAddress token ⊎ IsNoAddress feed
      → Throws (feed_config s spec p)
  unfolding feed_config
  feed_config-Throws spec p none none et ef (is_required r) bad = rw (et, ef, r) (_, refl)
  feed_config-Throws spec p none none et ef (token_given t e h) bad = cc
  feed_config-Throws spec p none none et ef (feed_given t e h) bad = cc
  feed_config-Throws spec p none (some []) et ef (is_required r) bad = rw (et, ef, r) (_, refl)
  feed_config-Throws spec p none (some []) et ef (token_given t e h) bad = cc
  feed_config-Throws spec p none (some []) et ef (feed_given t e h) bad = absurd (empty_given t e h)
  feed_config-Throws spec p (some []) none et ef (is_required r) bad = rw (et, ef, r) (_, refl)
  feed_config-Throws spec p (some []) none et ef (token_given t e h) bad =
      absurd (empty_given t e h)
  feed_config-Throws spec p (some []) none et ef (feed_given t e h) bad = cc
  feed_config-Throws spec p (some []) (some []) et ef (is_required r) bad = rw (et, ef, r) (_, refl)
  feed_config-Throws spec p (some []) (some []) et ef (token_given t e h) bad =
      absurd (empty_given t e h)
  feed_config-Throws spec p (some []) (some []) et ef (feed_given t e h) bad =
      absurd (empty_given t e h)
  feed_config-Throws spec p none (some (c ∷ u)) et ef used bad = rw (et, ef) (_, refl)
  feed_config-Throws spec p (some []) (some (c ∷ u)) et ef used bad = rw (et, ef) (_, refl)
  feed_config-Throws spec p (some (c ∷ t)) none et ef used bad = rw (et, ef) (_, refl)
  feed_config-Throws spec p (some (c ∷ t)) (some []) et ef used bad = rw (et, ef) (_, refl)
  feed_config-Throws spec p (some (c ∷ t)) (some (d ∷ u)) et ef used bad =
      rw (et, ef)
        (pair-Throws spec.token_env spec.feed_env (some (c ∷ t)) (some (d ∷ u)) spec.symbol bad)

  collect_from-Throws :
      (previous : Text → PriceFeed) (specs : List PriceFeedSpec) (j : ℕ) (spec : PriceFeedSpec)
      → get_elem? specs j ≡ some spec
      → Throws (feed_config s spec (previous spec.symbol))
      → Throws (collect_from s previous specs)
  unfolding collect_from
  collect_from-Throws previous [] j spec there h = cc
  collect_from-Throws previous (x ∷ specs) zero spec there (m, e) =
      let same : x ≡ spec = some_injective x spec there in rw (same, e) (m, refl)
  collect_from-Throws previous (x ∷ specs) (suc j) spec there h =
      let (m, e) = collect_from-Throws previous specs j spec there h in
      elim (Result-cases (feed_config s x (previous x.symbol))) [
        | inl (config, good) ↦ rw (good, e) (m, refl)
        | inr (m', bad) ↦ rw bad (m', refl)
      ]

  -- The feeds are not collected when one that is used is not complete.
  pub bad_feed-Throws :
      (d : Deployment) (j : ℕ) (spec : PriceFeedSpec)
      → get_elem? price_feed_specs j ≡ some spec
      → IsUsed spec (token_setting d spec) (feed_setting d spec)
      → IsNoAddress (token_setting d spec) ⊎ IsNoAddress (feed_setting d spec)
      → Throws (collect_from s (feed_of (feeds_or_none d.price_feeds)) price_feed_specs)
  bad_feed-Throws d j spec there used bad =
      let p = feed_of (feeds_or_none d.price_feeds) spec.symbol in
      collect_from-Throws (feed_of (feeds_or_none d.price_feeds)) price_feed_specs j spec there (
        feed_config-Throws spec p (token_setting d spec) (feed_setting d spec)
          (first_of_lem (s.env spec.token_env) p.token) (first_of_lem (s.env spec.feed_env) p.feed)
          used bad)
