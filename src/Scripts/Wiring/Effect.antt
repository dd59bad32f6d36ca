-- ===== src/Scripts/Wiring/Effect.antt =====
-- What the steps of a deployment do to the world when they end well.
use mathlib.Core.Path.{fun_ext}
use zstrategy.Base.{
  ℕ, true, List, [], ◌∷◌, some, ◌==◌, ◌≡◌, refl, sym, ap, ◌∙◌, inl, inr, ◌⊎◌, arith, Bool-cases,
  Option-cases, ==_iff, ==_refl,
}
use zstrategy.Base.Text.{Text, text_eq, text_eq_sound}
use zstrategy.Base.Result.{ok}
use zstrategy.Js.{to_lower_case}
use zstrategy.Scripts.Run.{Script, continue-eq-ok, throw_ne_ok, ◌>>=◌}
use zstrategy.Scripts.Chain.{
  Setting, IsEthers, World, Action, Registry, resolved, vault_registry, set_registry, registry_at,
  set_verifier, set_price_feed, set_at, with_vault, with_registry,
}
use zstrategy.Scripts.Settings.{PriceFeedConfig}
use zstrategy.Scripts.Wiring.{
  is_current, set_vault_registry, set_verifier_if_needed, set_price_feed_if_needed, set_price_feeds,
}
use zstrategy.Scripts.Wiring.Spec.{feeds_after}

set_at_same {κ} : {A : Type κ} (a : ℕ) (v : A) (f : ℕ → A) → f a ≡ v → set_at a v f ≡ f
set_at_same a v f same = fun_ext λ b. elim (Bool-cases (a == b)) [
  | inl here ↦ rw here (sym same ∙ ap f ((==_iff a b).0 here))
  | inr other ↦ rw other refl
]

set_at_twice {κ} :
    {A : Type κ} (a : ℕ) (u v : A) (f : ℕ → A) → set_at a v (set_at a u f) ≡ set_at a v f
set_at_twice a u v f =
    fun_ext λ b. elim (Bool-cases (a == b)) [ inl here ↦ rw here refl | inr other ↦ rw other refl ]

with_vault_same : (a r : ℕ) (w : World) → w.chain.vaults a ≡ some r → with_vault a r w ≡ w
with_vault_same a r w same =
    ap (λ f. record w { chain = record w.chain { vaults = f } })
      (set_at_same a (some r) w.chain.vaults same)

with_registry_same :
    (a : ℕ) (r : Registry) (w : World) → w.chain.registries a ≡ some r → with_registry a r w ≡ w
with_registry_same a r w same =
    ap (λ f. record w { chain = record w.chain { registries = f } })
      (set_at_same a (some r) w.chain.registries same)

pub with_registry_twice :
    (a : ℕ) (q r : Registry) (w : World)
    → with_registry a r (with_registry a q w) ≡ with_registry a r w
with_registry_twice a q r w =
    ap (λ f. record w { chain = record w.chain { registries = f } })
      (set_at_twice a (some q) (some r) w.chain.registries)

pub registry_there :
    (a : ℕ) (r : Registry) (w : World) → (with_registry a r w).chain.registries a ≡ some r
registry_there a r w = rw (==_refl a) refl

module _ (s : Setting) (laws : IsEthers s.ethers) where
  current_lem :
      (current : ℕ) (wanted : Text)
      → text_eq (to_lower_case (s.shown current)) (to_lower_case wanted) ≡ true
      → current ≡ s.address_of wanted
  current_lem current wanted same =
      sym (laws.address_of-shown current) ∙ laws.address_of-lower _ _ (text_eq_sound _ _ same)

  -- What a statement tells of a run that ends well: the run went on after it as written.
  pub resolved_ok {ι} :
      {Next : Type ι} (t : Text) (after : ℕ → Script World Next) (b : Next) (w w' : World)
      → (resolved s t >>= after) w ≡ (ok b, w')
      → after (s.address_of t) w ≡ (ok b, w')
  resolved_ok t after b w w' same = ground arith

  pub vault_registry_ok {ι} :
      {Next : Type ι} (a : ℕ) (after : ℕ → Script World Next) (b : Next) (w w' : World)
      → (vault_registry s a >>= after) w ≡ (ok b, w')
      → (r : ℕ) × (w.chain.vaults a ≡ some r) × (after r w ≡ (ok b, w'))
  vault_registry_ok a after b w w' same = elim (Option-cases (w.chain.vaults a)) [
    | inl missing ↦ absurd (throw_ne_ok (rw missing at same))
    | inr (r, there) ↦ (r, there, rw there at same)
  ]

  pub registry_at_ok {ι} :
      {Next : Type ι} (a : ℕ) (after : Registry → Script World Next) (r : Registry) (b : Next)
      (w w' : World)
      → w.chain.registries a ≡ some r
      → (registry_at s a >>= after) w ≡ (ok b, w')
      → after r w ≡ (ok b, w')
  registry_at_ok a after r b w w' there same = rw there at same

  is_current_ok :
      (current : ℕ) (wanted : Text) (act : Action) (w w' : World)
      → is_current s current wanted act w ≡ (ok tt, w')
      → ((current ≡ s.address_of wanted) × (w' ≡ w)) ⊎ (act w ≡ (ok tt, w'))
  is_current_ok current wanted act w w' same =
      elim (Bool-cases (text_eq (to_lower_case (s.shown current)) (to_lower_case wanted))) [
        | inl yes_it_is ↦ inl (current_lem current wanted yes_it_is, ground arith)
        | inr other ↦ inr (rw other at same)
      ]

  set_registry_ok :
      (a r : ℕ) (w w' : World) → set_registry s a r w ≡ (ok tt, w') → w' ≡ with_vault a r w
  unfolding set_registry
  set_registry_ok a r w w' same = ground arith

  pub set_verifier_ok :
      (a kind verifier : ℕ) (r : Registry) (w w' : World)
      → w.chain.registries a ≡ some r
      → set_verifier s a kind verifier w ≡ (ok tt, w')
      → w' ≡ with_registry a (record r { verifiers = set_at kind verifier r.verifiers }) w
  unfolding set_verifier
  set_verifier_ok a kind verifier r w w' there same = ground arith

  set_price_feed_ok :
      (a token feed : ℕ) (r : Registry) (w w' : World)
      → w.chain.registries a ≡ some r
      → set_price_feed s a token feed w ≡ (ok tt, w')
      → w' ≡ with_registry a (record r { price_feeds = set_at token feed r.price_feeds }) w
  unfolding set_price_feed
  set_price_feed_ok a token feed r w w' there same = ground arith

  pub set_vault_registry_ok :
      (address registry : Text) (w w' : World)
      → set_vault_registry s address registry w ≡ (ok tt, w')
      → w' ≡ with_vault (s.address_of address) (s.address_of registry) w
  unfolding set_vault_registry
  set_vault_registry_ok address registry w w' same =
      let h1 = resolved_ok address _ tt w w' same in
      let (current, there, h2) = vault_registry_ok (s.address_of address) _ tt w w' h1 in
      elim (is_current_ok current registry _ w w' h2) [
        | inl (it_is, unchanged) ↦
            unchanged
            ∙ sym (
                with_vault_same (s.address_of address) (s.address_of registry) w
                  (there ∙ ap some it_is))
        | inr h3 ↦
            set_registry_ok (s.address_of address) (s.address_of registry) w w'
              (resolved_ok registry _ tt w w' h3)
      ]

  verifier_same :
      (a kind verifier : ℕ) (r : Registry) (w : World)
      → w.chain.registries a ≡ some r
      → r.verifiers kind ≡ verifier
      → with_registry a (record r { verifiers = set_at kind verifier r.verifiers }) w ≡ w
  verifier_same a kind verifier r w there same =
      ap (λ f. with_registry a (record r { verifiers = f }) w)
        (set_at_same kind verifier r.verifiers same)
      ∙ with_registry_same a r w there

  price_feed_same :
      (a token feed : ℕ) (r : Registry) (w : World)
      → w.chain.registries a ≡ some r
      → r.price_feeds token ≡ feed
      → with_registry a (record r { price_feeds = set_at token feed r.price_feeds }) w ≡ w
  price_feed_same a token feed r w there same =
      ap (λ f. with_registry a (record r { price_feeds = f }) w)
        (set_at_same token feed r.price_feeds same)
      ∙ with_registry_same a r w there

  pub set_verifier_if_needed_ok :
      (registry : Text) (kind : ℕ) (verifier : Text) (r : Registry) (w w' : World)
      → w.chain.registries (s.address_of registry) ≡ some r
      → set_verifier_if_needed s registry kind verifier w ≡ (ok tt, w')
      → w'
        ≡ with_registry
            (s.address_of registry)
            (record r { verifiers = set_at kind (s.address_of verifier) r.verifiers })
            w
  unfolding set_verifier_if_needed
  set_verifier_if_needed_ok registry kind verifier r w w' there same =
      let a = s.address_of registry in
      let v = s.address_of verifier in
      let h2 = registry_at_ok a _ r tt w w' there (resolved_ok registry _ tt w w' same) in
      elim (is_current_ok (r.verifiers kind) verifier _ w w' h2) [
        | inl (it_is, unchanged) ↦ unchanged ∙ sym (verifier_same a kind v r w there it_is)
        | inr h3 ↦ set_verifier_ok a kind v r w w' there (resolved_ok verifier _ tt w w' h3)
      ]

  set_price_feed_if_needed_ok :
      (registry : Text) (c : PriceFeedConfig) (r : Registry) (w w' : World)
      → w.chain.registries (s.address_of registry) ≡ some r
      → set_price_feed_if_needed s registry c w ≡ (ok tt, w')
      → w'
        ≡ with_registry
            (s.address_of registry)
            (record r {
              price_feeds = set_at (s.address_of c.token) (s.address_of c.feed) r.price_feeds;
            })
            w
  unfolding set_price_feed_if_needed
  set_price_feed_if_needed_ok registry c r w w' there same =
      let a = s.address_of registry in
      let t = s.address_of c.token in
      let f = s.address_of c.feed in
      let h1 = resolved_ok c.token _ tt w w' (resolved_ok registry _ tt w w' same) in
      elim (is_current_ok (r.price_feeds t) c.feed _ w w' (registry_at_ok a _ r tt w w' there h1)) [
        | inl (it_is, unchanged) ↦ unchanged ∙ sym (price_feed_same a t f r w there it_is)
        | inr h3 ↦ set_price_feed_ok a t f r w w' there (resolved_ok c.feed _ tt w w' h3)
      ]

  pub set_price_feeds_ok :
      (registry : Text) (configs : List PriceFeedConfig) (r : Registry) (w w' : World)
      → w.chain.registries (s.address_of registry) ≡ some r
      → set_price_feeds s registry configs w ≡ (ok tt, w')
      → w'
        ≡ with_registry
            (s.address_of registry)
            (record r { price_feeds = feeds_after s configs r.price_feeds })
            w
  unfolding set_price_feeds
  set_price_feeds_ok registry [] r w w' there same =
      ground arith ∙ sym (with_registry_same (s.address_of registry) r w there)
  set_price_feeds_ok registry (c ∷ configs) r w w' there same =
      let a = s.address_of registry in
      let (done, w1, e1, h1) = continue-eq-ok (set_price_feed_if_needed s registry c w) _ same in
      let q = record r {
        price_feeds = set_at (s.address_of c.token) (s.address_of c.feed) r.price_feeds;
      } in
      let first : w1 ≡ with_registry a q w =
        set_price_feed_if_needed_ok registry c r w w1 there e1 in
      let there' : w1.chain.registries a ≡ some q =
        ap (λ u. u.chain.registries a) first ∙ registry_there a q w in
      set_price_feeds_ok registry configs q w1 w' there' h1
      ∙ ap (with_registry a (record q { price_feeds = feeds_after s configs q.price_feeds })) first
      ∙ with_registry_twice a q (record q { price_feeds = feeds_after s configs q.price_feeds }) w
