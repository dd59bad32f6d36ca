-- ===== src/Threshold/Delivery.antt =====
-- The way of the user's secret from the browser (frontend/src/lib/threshold.ts) through the share store
-- (keeper/src/api/server.ts, keeper/src/store/shares.ts) to its reconstruction
-- (keeper/src/threshold/reconstruct.ts).
use zstrategy.Base.{
  ℕ, zero, suc, ◌/◌, ◌≤◌, ◌<◌, true, List, [], ◌∷◌, ◌++◌, map, any, Option, length, take, All, ◌≡◌,
  ◌≢◌, refl, sym, ◌∙◌, arith, length-take, length-map, ==_iff, ◌==◌,
}
use zstrategy.Base.Text.{Text, codes, text_eq, text_eq_refl}
use zstrategy.Base.Digits.Hex.{IsBytes, bytes_to_hex}
use zstrategy.Base.Result.{ok, ◌>>=◌}
use zstrategy.Js.{text}
use zstrategy.Shares.{Table, Share, share_row, get_shares_for_commitment, insert_shares}
use zstrategy.Shares.Insert.{others, get-insert_shares}
use zstrategy.Keys.{Ecies, KeeperKeypair, public_keyset}
use zstrategy.Reconstruct.{Shamir, reconstruct_user_secret}
use zstrategy.Reconstruct.Selection.{decryptable, reconstruct_iff}
use zstrategy.ShareApi.{Checks, has_secret, post_shares}
use zstrategy.ShareApi.Storing.{BindsTexts, shares_body, post_shares-stores}
use zstrategy.Threshold.{Viem, split_and_encrypt_secret}
use zstrategy.Threshold.Laws.{ViemLaws, SealingLaws, ShowsPublicKey, HasDistinctIds}
use zstrategy.Threshold.Sealed.{
  HasDistinctIds-FoundIn, sealed, encrypt_from-sealed, sealed-HasDistinctKeepers,
  decryptable-sealed, decryptable-others, decryptable-append, keep-sealed,
}

-- A choice of elements of a list, in its order.
pub data IsSelection {A : Type 0} : List A → List A → Type 0 where
  nothing : (xs : List A) → IsSelection [] xs
  chosen :
      (x : A) (chosen_xs xs : List A)
      → IsSelection chosen_xs xs
      → IsSelection (x ∷ chosen_xs) (x ∷ xs)
  passed :
      (x : A) (chosen_xs xs : List A) → IsSelection chosen_xs xs → IsSelection chosen_xs (x ∷ xs)

-- A split gives n shares, and any k or more of them combine to the secret.
pub record ShamirLaws (shamir : Shamir) : Type 0 where
  pub length-split :
      (draw : ℕ) (secret : List ℕ) (n k : ℕ) (shares : List (List ℕ))
      → shamir.split draw secret n k ≡ ok shares
      → length shares ≡ n
  pub combine-split :
      (draw : ℕ) (secret : List ℕ) (n k : ℕ) (shares some_shares : List (List ℕ))
      → shamir.split draw secret n k ≡ ok shares
      → IsSelection some_shares shares
      → k ≤ length some_shares
      → shamir.combine some_shares ≡ ok secret

take-IsSelection : {A : Type 0} (n : ℕ) (xs : List A) → IsSelection (take n xs) xs
take-IsSelection zero xs = nothing xs
take-IsSelection (suc n) [] = nothing []
take-IsSelection (suc n) (x ∷ xs) = chosen x (take n xs) xs (take-IsSelection n xs)

listed_something :
    (hash : Text) (hashes : List Text) → any (λ h. text_eq h hash) hashes ≡ true → hashes ≢ []
listed_something hash [] listed h = cc
listed_something hash (x ∷ xs) listed h = cc

module _ (e : Ecies) where
  sealed_something :
      (seed : ℕ → ℕ) (shares : List (List ℕ)) (keys : List (KeeperKeypair e))
      → 0 < length shares
      → 0 < length keys
      → sealed e seed 0 shares keys ≢ []
  sealed_something seed [] keys a b h = omega arith
  sealed_something seed (share ∷ shares) [] a b h = omega arith
  sealed_something seed (share ∷ shares) (k ∷ keys) a b h = cc

  own_ids :
      (keys : List (KeeperKeypair e)) (more : List (KeeperKeypair e))
      → All (λ k. any (λ x. text_eq x k.id) (map (λ k. k.id) more) ≡ true) keys
      → (first : KeeperKeypair e)
      → All (λ k. any (λ x. text_eq x k.id) (map (λ k. k.id) (first ∷ more)) ≡ true) keys
  own_ids [] more own first = tt
  own_ids (k ∷ keys) more (own, rest) first = (ground arith, own_ids keys more rest first)

  ids_are_own :
      (keys : List (KeeperKeypair e))
      → All (λ k. any (λ x. text_eq x k.id) (map (λ k. k.id) keys) ≡ true) keys
  ids_are_own [] = tt
  ids_are_own (k ∷ keys) = (rw (text_eq_refl k.id) refl, own_ids keys keys (ids_are_own keys) k)

  -- What the keeper decrypts of a commitment after the shares have been stored under it.
  decryptable-stored :
      (laws : SealingLaws e) (keys : List (KeeperKeypair e)) (seed : ℕ → ℕ) (shares : List (List ℕ))
      (hash : Text) (hashes : List Text) (now_ms : ℕ) (t : Table)
      → HasDistinctIds e keys
      → length shares ≡ length keys
      → any (λ h. text_eq h hash) hashes ≡ true
      → decryptable e keys (
          get_shares_for_commitment hash
            (insert_shares hashes (sealed e seed 0 shares keys) now_ms t))
        ≡ shares
  decryptable-stored laws keys seed shares hash hashes now_ms t d len listed =
      let sent : List Share = sealed e seed 0 shares keys in
      let old = others sent (get_shares_for_commitment hash t) in
      rw
        (
          get-insert_shares hash hashes sent now_ms t
              (sealed-HasDistinctKeepers e seed 0 shares keys d),
          listed,
        )
        (rw
          (
            decryptable-append e keys old (map (share_row hash (now_ms / 1000)) sent),
            decryptable-others e seed 0 shares keys (get_shares_for_commitment hash t) len,
          )
          (decryptable-sealed e laws keys seed hash (now_ms / 1000) 0 shares keys
            (HasDistinctIds-FoundIn e keys d) len))

  length-public_keyset :
      (keys : List (KeeperKeypair e)) → length (public_keyset e keys) ≡ length keys
  unfolding public_keyset
  length-public_keyset keys = length-map keys _

  -- What the browser sends for a secret.
  split_and_encrypt-sealed :
      (viem : Viem) (viem_laws : ViemLaws viem) (laws : SealingLaws e) (shamir : Shamir)
      (n k draw : ℕ) (seed : ℕ → ℕ) (secret : List ℕ) (shares : List (List ℕ))
      (keys : List (KeeperKeypair e))
      → All (ShowsPublicKey e) keys
      → IsBytes secret
      → length secret ≡ 32
      → length keys ≡ n
      → length shares ≡ n
      → shamir.split draw secret n k ≡ ok shares
      → split_and_encrypt_secret e viem shamir n k draw seed
          (codes "0x" ++ bytes_to_hex secret)
          (public_keyset e keys)
        ≡ ok (sealed e seed 0 shares keys)
  unfolding split_and_encrypt_secret
  split_and_encrypt-sealed viem viem_laws laws shamir n k draw seed secret shares keys shows bytes
        len all_keys all_shares split =
      let keepers_test : (length (public_keyset e keys) == n) ≡ true =
        (==_iff _ _).1 (length-public_keyset keys ∙ all_keys) in
      let secret_test : (length secret == 32) ≡ true = (==_iff _ _).1 len in
      let shares_test : (length shares == n) ≡ true = (==_iff _ _).1 all_shares in
      rw
        (
          split_and_encrypt_secret,
          keepers_test,
          viem_laws.hex_to_bytes-bytes_to_hex secret bytes,
          secret_test,
          split,
          shares_test,
        )
        (encrypt_from-sealed e viem viem_laws laws seed 0 shares keys shows
          (all_shares ∙ sym all_keys))

-- From the browser to the keeper: the secret is split with threshold k among the n keepers of the public key
-- set, the shares are encrypted, sent for a list of hashes with POST /api/shares, and stored. Then, for each hash
-- of the list and whatever the table held, a keeper with the keypairs and a threshold between k and n
-- reconstructs the secret. The keypairs have different ids; the laws are those of shamir-secret-sharing, eciesjs,
-- viem and better-sqlite3.
pub reconstruct-post_shares-split :
    (e : Ecies) (laws : SealingLaws e) (shamir : Shamir) (shamir_laws : ShamirLaws shamir)
    (viem : Viem) (viem_laws : ViemLaws viem) (checks : Checks) (binds : BindsTexts checks)
    (keys : List (KeeperKeypair e)) (n k keeper_k draw : ℕ) (seed : ℕ → ℕ) (secret : List ℕ)
    (shares : List (List ℕ)) (api_secret : Text) (auth : Option Text) (hash : Text)
    (hashes : List Text) (now_ms : ℕ) (t : Table)
    → All (ShowsPublicKey e) keys
    → HasDistinctIds e keys
    → length keys ≡ n
    → k ≤ keeper_k
    → keeper_k ≤ n
    → 0 < n
    → IsBytes secret
    → length secret ≡ 32
    → shamir.split draw secret n k ≡ ok shares
    → has_secret api_secret auth ≡ true
    → All (λ h. checks.is_hash (text h) ≡ true) hashes
    → any (λ h. text_eq h hash) hashes ≡ true
    → (split_and_encrypt_secret e viem shamir n k draw seed
          (codes "0x" ++ bytes_to_hex secret)
          (public_keyset e keys)
        >>= λ sent.
            reconstruct_user_secret e shamir keeper_k keys hash
              (post_shares checks api_secret
                (map (λ x. x.id) keys)
                auth
                (shares_body hashes sent)
                now_ms
                t).1)
      ≡ ok (codes "0x" ++ bytes_to_hex secret)
reconstruct-post_shares-split e laws shamir shamir_laws viem viem_laws checks binds keys n k
      keeper_k draw seed secret shares api_secret auth hash hashes now_ms t shows distinct all_keys
      low high some_keeper bytes len split good valid listed =
    let all_shares : length shares ≡ n = shamir_laws.length-split draw secret n k shares split in
    let same : length shares ≡ length keys = all_shares ∙ sym all_keys in
    let sent : List Share = sealed e seed 0 shares keys in
    let ids : List Text = map (λ x. x.id) keys in
    let some_hash : hashes ≢ [] = listed_something hash hashes listed in
    let some_share : sent ≢ [] = sealed_something e seed shares keys (omega arith) (omega arith) in
    rw
      (
        split_and_encrypt-sealed e viem viem_laws laws shamir n k draw seed secret shares keys shows
            bytes len all_keys all_shares split,
        post_shares-stores checks binds api_secret ids auth hashes sent now_ms t good some_hash
            valid some_share,
        keep-sealed e ids seed 0 shares keys (ids_are_own e keys),
      )
      ((reconstruct_iff e shamir keeper_k keys hash (insert_shares hashes sent now_ms t) _).1 (
        rw (decryptable-stored e laws keys seed shares hash hashes now_ms t distinct same listed) (
          omega arith,
          (
            secret,
            shamir_laws.combine-split draw secret n k shares (take keeper_k shares) split
                (take-IsSelection keeper_k shares) (omega (arith, length-take {0} keeper_k shares)),
            len,
            refl,
          ),
        )))
