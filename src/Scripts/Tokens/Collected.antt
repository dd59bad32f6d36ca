-- ===== src/Scripts/Tokens/Collected.antt =====
-- Which tokens collectTokenAddresses finds (contracts/scripts/return-vault-balances.ts).
use mathlib.Core.Path.{subst}
use zstrategy.Base.{
  not, ◌&&◌, keep, true, List, [], ◌∷◌, ◌++◌, Option, none, some, any, map, All, ◌≡◌, refl, sym, ap,
  ◌∙◌, inl, inr, Bool-cases,
}
use zstrategy.Base.Text.{Text, codes, text_eq}
use zstrategy.Base.Result.{ok, map_result, >>=-eq-ok}
use zstrategy.Js.{to_lower_case}
use zstrategy.Scripts.Chain.{Setting, PriceFeed}
use zstrategy.Scripts.Settings.{require_address}
use zstrategy.Scripts.Tokens.{
  token_env_names, add_all, list_or_none, parse_address_list, addresses, feed_tokens,
  collect_token_addresses,
}
use zstrategy.Scripts.Tokens.Distinct.{
  IsDistinct, add_all-IsDistinct, ok_injective, throw_ne_ok, any-add_three,
}

-- The texts that are there.
abbrev pub defined : List (Option Text) → List Text
defined [] = []
defined (none ∷ ts) = defined ts
defined (some t ∷ ts) = t ∷ defined ts

module _ (s : Setting) where
  require_address_ok :
      (label t v : Text)
      → require_address s label (some t) ≡ ok v
      → (v ≡ t) × (s.is_address v ≡ true)
  unfolding require_address
  require_address_ok label [] v same = absurd (throw_ne_ok same)
  require_address_ok label (c ∷ t) v same = elim (Bool-cases (s.is_address (c ∷ t))) [
    | inl valid ↦
        let e : c ∷ t ≡ v = ok_injective (c ∷ t) v (rw valid at same) in
        (sym e, ap s.is_address (sym e) ∙ valid)
    | inr bad ↦ absurd (throw_ne_ok (rw bad at same))
  ]

  -- A list that is parsed without an error is the list of its items, which are addresses.
  map_require_ok :
      (label : Text) (ts vs : List Text)
      → map_result (λ t. require_address s label (some t)) ts ≡ ok vs
      → (vs ≡ ts) × All (λ t. s.is_address t ≡ true) vs
  map_require_ok label [] vs same =
      let e : ◌≡◌ {A = List Text} [] vs = ok_injective [] vs same in
      subst (λ z. (z ≡ []) × All (λ t. s.is_address t ≡ true) z) e (refl, tt)
  map_require_ok label (t ∷ ts) vs same =
      let (v, e1, h1) = >>=-eq-ok (require_address s label (some t)) _ same in
      let (ws, e2, h2) = >>=-eq-ok (map_result (λ u. require_address s label (some u)) ts) _ h1 in
      let (ev, valid) = require_address_ok label t v e1 in
      let (ew, all_valid) = map_require_ok label ts ws e2 in
      let e : v ∷ ws ≡ vs = ok_injective (v ∷ ws) vs h2 in
      subst (λ z. (z ≡ t ∷ ts) × All (λ u. s.is_address u ≡ true) z) e
        (ap (λ z. z ∷ ws) ev ∙ ap (λ z. t ∷ z) ew, (valid, all_valid))

  -- The configured texts: those of WITHDRAW_TOKENS, and the nonempty addresses of the other variables and of the file.
  abbrev pub configured : List (Text × PriceFeed) → List Text
  configured feeds =
      list_or_none (s.env (codes "WITHDRAW_TOKENS"))
      ++ keep (λ t. not (text_eq t []) && s.is_address t) (defined (map s.env token_env_names))
      ++ keep (λ t. not (text_eq t []) && s.is_address t) (defined (feed_tokens feeds))

  addresses_lem :
      (ts : List (Option Text))
      → addresses s ts ≡ keep (λ t. not (text_eq t []) && s.is_address t) (defined ts)
  unfolding text_eq
  addresses_lem [] = refl
  addresses_lem (none ∷ ts) = addresses_lem ts
  addresses_lem (some [] ∷ ts) = addresses_lem ts
  addresses_lem (some (c ∷ t) ∷ ts) = rw (addresses_lem ts) refl

  both_addresses :
      (given : List Text) (ts us : List (Option Text))
      → given ++ addresses s ts ++ addresses s us
        ≡ given
          ++ keep (λ t. not (text_eq t []) && s.is_address t) (defined ts)
          ++ keep (λ t. not (text_eq t []) && s.is_address t) (defined us)
  both_addresses given ts us = rw (addresses_lem ts, addresses_lem us) refl

  -- When collectTokenAddresses does not throw, no token stands twice in what it gives, and a text is one of them
  -- exactly if it is, in lower case, an item of WITHDRAW_TOKENS, a valid address of one of the four variables or one
  -- of the deployment file's price feeds.
  pub collect_token_addresses_lem :
      (feeds : List (Text × PriceFeed)) (tokens : List Text)
      → collect_token_addresses s feeds ≡ ok tokens
      → IsDistinct tokens
        × ((x : Text)
            → any (text_eq x) tokens ≡ any (text_eq x) (map to_lower_case (configured feeds)))
  unfolding collect_token_addresses parse_address_list
  collect_token_addresses_lem feeds tokens same =
      let label = codes "WITHDRAW_TOKENS" in
      let given = list_or_none (s.env label) in
      let from_env = addresses s (map s.env token_env_names) in
      let from_file = addresses s (feed_tokens feeds) in
      let (listed, e1, h1) = >>=-eq-ok (parse_address_list s label (s.env label)) _ same in
      let (e2, all_valid) = map_require_ok label given listed e1 in
      let e : add_all (add_all (add_all [] given) from_env) from_file ≡ tokens =
        ap (λ z. add_all (add_all (add_all [] z) from_env) from_file) (sym e2)
        ∙ ok_injective _ tokens h1 in
      subst
        (λ z.
          IsDistinct z
          × ((x : Text)
              → any (text_eq x) z ≡ any (text_eq x) (map to_lower_case (configured feeds))))
        e
        (
          add_all-IsDistinct (add_all (add_all [] given) from_env) from_file
              (add_all-IsDistinct (add_all [] given) from_env (add_all-IsDistinct [] given tt)),
          λ x.
              any-add_three x given from_env from_file
              ∙ ap (λ z. any (text_eq x) (map to_lower_case z))
                  (both_addresses given (map s.env token_env_names) (feed_tokens feeds)),
        )
