-- ===== src/Threshold/Sealed.antt =====
-- The shares that the browser encrypts (frontend/src/lib/threshold.ts), and what a keeper makes of the
-- rows that they become (keeper/src/threshold/reconstruct.ts).
use zstrategy.Base.{
  ℕ, ◌+◌, true, false, List, [], ◌∷◌, ◌++◌, map, any, keep, none, some, length, All, ◌≡◌, refl, ap,
  sym, ◌∙◌, arith, inl, inr, Bool-cases, Option-cases, or-eq-false,
}
use zstrategy.Base.Text.{Text, codes, text_eq, text_eq_iff, text_eq_refl}
use zstrategy.Base.Digits.Hex.{bytes_to_hex, bytes_of_hex-bytes_to_hex}
use zstrategy.Base.Result.{ok}
use zstrategy.Shares.{ShareRow, Share, share_row}
use zstrategy.Shares.Insert.{names_keeper, HasDistinctKeepers, others}
use zstrategy.Keys.{Ecies, KeeperKeypair, public_keyset, get_keypair_by_id}
use zstrategy.Reconstruct.{decrypt_row}
use zstrategy.Reconstruct.Selection.{decryptable, decryptable_skip, decryptable_found}
use zstrategy.ShareApi.Storing.{is_own}
use zstrategy.Threshold.{Viem, encrypt_from}
use zstrategy.Threshold.Laws.{ViemLaws, SealingLaws, ShowsPublicKey, HasDistinctIds}

none-ne-some : {A : Type 0} {a : A} → ¬ (none ≡ some a)
none-ne-some h = cc

module _ (e : Ecies) where
  -- The shares of the keypairs' keepers, in order, with the encryptions from the i-th on.
  abbrev pub sealed : (ℕ → ℕ) → ℕ → List (List ℕ) → List (KeeperKeypair e) → List Share
  sealed seed i [] keys = []
  sealed seed i (share ∷ shares) [] = []
  sealed seed i (share ∷ shares) (k ∷ keys) =
      record {
        keeper_id = k.id;
        ciphertext =
            codes "0x" ++ bytes_to_hex (e.encrypt (seed i) (e.public_bytes k.private_key) share);
      }
      ∷ sealed seed (i + 1) shares keys

  pub encrypt_from-sealed :
      (viem : Viem) (viem_laws : ViemLaws viem) (laws : SealingLaws e) (seed : ℕ → ℕ) (i : ℕ)
      (shares : List (List ℕ)) (keys : List (KeeperKeypair e))
      → All (ShowsPublicKey e) keys
      → length shares ≡ length keys
      → encrypt_from e viem seed i shares (public_keyset e keys) ≡ ok (sealed seed i shares keys)
  unfolding encrypt_from public_keyset
  encrypt_from-sealed viem viem_laws laws seed i [] keys shows len = refl
  encrypt_from-sealed viem viem_laws laws seed i (share ∷ shares) [] shows len =
      absurd (omega arith)
  encrypt_from-sealed viem viem_laws laws seed i (share ∷ shares) (k ∷ keys) (shows, more) len =
      rw
        (
          shows,
          viem_laws.hex_to_bytes-bytes_to_hex (e.public_bytes k.private_key)
              (laws.public_bytes-IsBytes k.private_key),
          encrypt_from-sealed viem viem_laws laws seed (i + 1) shares keys more (omega arith),
          viem_laws.bytes_to_hex_lem (e.encrypt (seed i) (e.public_bytes k.private_key) share),
        )
        refl

  -- A keeper is named by the shares exactly when its id is one of the keypairs'.
  names_keeper-sealed :
      (seed : ℕ → ℕ) (keeper : Text) (i : ℕ) (shares : List (List ℕ))
      (keys : List (KeeperKeypair e))
      → length shares ≡ length keys
      → names_keeper keeper (sealed seed i shares keys) ≡ false
      → get_keypair_by_id e keeper keys ≡ none
  unfolding get_keypair_by_id
  names_keeper-sealed seed keeper i [] [] len h = refl
  names_keeper-sealed seed keeper i [] (k ∷ keys) len h = absurd (omega arith)
  names_keeper-sealed seed keeper i (share ∷ shares) [] len h = absurd (omega arith)
  names_keeper-sealed seed keeper i (share ∷ shares) (k ∷ keys) len h =
      let (other, more) =
        or-eq-false (text_eq k.id keeper) (names_keeper keeper (sealed seed (i + 1) shares keys))
          h in
      rw other (names_keeper-sealed seed keeper (i + 1) shares keys (omega arith) more)

  get_keypair-unnamed :
      (seed : ℕ → ℕ) (keeper : Text) (i : ℕ) (shares : List (List ℕ))
      (keys : List (KeeperKeypair e))
      → get_keypair_by_id e keeper keys ≡ none
      → names_keeper keeper (sealed seed i shares keys) ≡ false
  unfolding get_keypair_by_id
  get_keypair-unnamed seed keeper i [] keys h = refl
  get_keypair-unnamed seed keeper i (share ∷ shares) [] h = refl
  get_keypair-unnamed seed keeper i (share ∷ shares) (k ∷ keys) h =
      ground (arith, get_keypair-unnamed seed keeper (i + 1) shares keys)

  pub sealed-HasDistinctKeepers :
      (seed : ℕ → ℕ) (i : ℕ) (shares : List (List ℕ)) (keys : List (KeeperKeypair e))
      → HasDistinctIds e keys
      → HasDistinctKeepers (sealed seed i shares keys)
  sealed-HasDistinctKeepers seed i [] keys d = tt
  sealed-HasDistinctKeepers seed i (share ∷ shares) [] d = tt
  sealed-HasDistinctKeepers seed i (share ∷ shares) (k ∷ keys) (fresh, d) = (
    get_keypair-unnamed seed k.id (i + 1) shares keys fresh,
    sealed-HasDistinctKeepers seed (i + 1) shares keys d,
  )

  -- Every keypair is found by its id, in a list of keypairs with different ids.
  abbrev pub FoundIn : List (KeeperKeypair e) → KeeperKeypair e → Type 0
  FoundIn all_keys k = get_keypair_by_id e k.id all_keys ≡ some k

  FoundIn-cons :
      (k : KeeperKeypair e) (all_keys keys : List (KeeperKeypair e))
      → get_keypair_by_id e k.id all_keys ≡ none
      → All (FoundIn all_keys) keys
      → All (FoundIn (k ∷ all_keys)) keys
  unfolding get_keypair_by_id
  FoundIn-cons k all_keys [] fresh found = tt
  FoundIn-cons k all_keys (k' ∷ keys) fresh (found, more) = (
    elim (Bool-cases (text_eq k.id k'.id)) [
      | inl same ↦
          let p : k.id ≡ k'.id = (text_eq_iff k.id k'.id).0 same in
          absurd (none-ne-some (sym (rw p at fresh) ∙ found))
      | inr other ↦ rw other found
    ],
    FoundIn-cons k all_keys keys fresh more,
  )

  pub HasDistinctIds-FoundIn :
      (keys : List (KeeperKeypair e)) → HasDistinctIds e keys → All (FoundIn keys) keys
  unfolding get_keypair_by_id
  HasDistinctIds-FoundIn [] d = tt
  HasDistinctIds-FoundIn (k ∷ keys) (fresh, d) =
      (rw (text_eq_refl k.id) refl, FoundIn-cons k keys keys fresh (HasDistinctIds-FoundIn keys d))

  decrypt_row-share :
      (laws : SealingLaws e) (all_keys : List (KeeperKeypair e)) (seed now : ℕ) (hash : Text)
      (share : List ℕ) (k : KeeperKeypair e)
      → FoundIn all_keys k
      → decrypt_row e all_keys (
          share_row hash now (record {
            keeper_id = k.id;
            ciphertext =
                codes "0x" ++ bytes_to_hex (e.encrypt seed (e.public_bytes k.private_key) share);
          }))
        ≡ some share
  unfolding decrypt_row
  decrypt_row-share laws all_keys seed now hash share k found =
      rw
        (
          decrypt_row,
          found,
          bytes_of_hex-bytes_to_hex (e.encrypt seed (e.public_bytes k.private_key) share)
              (laws.encrypt-IsBytes seed k.private_key share),
          laws.decrypt-encrypt seed k.private_key share,
        )
        refl

  decrypt_row-unknown :
      (keys : List (KeeperKeypair e)) (r : ShareRow)
      → get_keypair_by_id e r.keeper_id keys ≡ none
      → decrypt_row e keys r ≡ none
  unfolding decrypt_row
  decrypt_row-unknown keys r h = rw (decrypt_row, h) refl

  -- A keeper with the keypairs decrypts every row of the shares, in order.
  pub decryptable-sealed :
      (laws : SealingLaws e) (all_keys : List (KeeperKeypair e)) (seed : ℕ → ℕ) (hash : Text)
      (now i : ℕ) (shares : List (List ℕ)) (keys : List (KeeperKeypair e))
      → All (FoundIn all_keys) keys
      → length shares ≡ length keys
      → decryptable e all_keys (map (share_row hash now) (sealed seed i shares keys)) ≡ shares
  decryptable-sealed laws all_keys seed hash now i [] keys found len = refl
  decryptable-sealed laws all_keys seed hash now i (share ∷ shares) [] found len =
      absurd (omega arith)
  decryptable-sealed laws all_keys seed hash now i (share ∷ shares) (k ∷ keys) (found, more) len =
      decryptable_found e all_keys _ _ share
        (decrypt_row-share laws all_keys (seed i) now hash share k found)
      ∙ ap (λ l. share ∷ l)
          (decryptable-sealed laws all_keys seed hash now (i + 1) shares keys more (omega arith))

  -- It passes over the rows of all other keepers.
  pub decryptable-others :
      (seed : ℕ → ℕ) (i : ℕ) (shares : List (List ℕ)) (keys : List (KeeperKeypair e))
      (rows : List ShareRow)
      → length shares ≡ length keys
      → decryptable e keys (others (sealed seed i shares keys) rows) ≡ []
  decryptable-others seed i shares keys [] len = refl
  decryptable-others seed i shares keys (r ∷ rows) len =
      elim (Bool-cases (names_keeper r.keeper_id (sealed seed i shares keys))) [
        | inl named ↦ rw named (decryptable-others seed i shares keys rows len)
        | inr unnamed ↦ rw unnamed (
            decryptable_skip e keys r (others (sealed seed i shares keys) rows) (
              decrypt_row-unknown keys r
                (names_keeper-sealed seed r.keeper_id i shares keys len unnamed))
            ∙ decryptable-others seed i shares keys rows len)
      ]

  pub decryptable-append :
      (keys : List (KeeperKeypair e)) (xs ys : List ShareRow)
      → decryptable e keys (xs ++ ys) ≡ decryptable e keys xs ++ decryptable e keys ys
  decryptable-append keys [] ys = refl
  decryptable-append keys (x ∷ xs) ys = elim (Option-cases (decrypt_row e keys x)) [
    | inl skipped ↦
        rw (decryptable_skip e keys x (xs ++ ys) skipped, decryptable_skip e keys x xs skipped)
          (decryptable-append keys xs ys)
    | inr (plain, found) ↦
        rw
          (
            decryptable_found e keys x (xs ++ ys) plain found,
            decryptable_found e keys x xs plain found,
          )
          (ap (λ l. plain ∷ l) (decryptable-append keys xs ys))
  ]

  -- The process keeps every share of its own keypairs.
  pub keep-sealed :
      (ids : List Text) (seed : ℕ → ℕ) (i : ℕ) (shares : List (List ℕ))
      (keys : List (KeeperKeypair e))
      → All (λ k. any (λ x. text_eq x k.id) ids ≡ true) keys
      → keep (is_own ids) (sealed seed i shares keys) ≡ sealed seed i shares keys
  keep-sealed ids seed i [] keys own = refl
  keep-sealed ids seed i (share ∷ shares) [] own = refl
  keep-sealed ids seed i (share ∷ shares) (k ∷ keys) (own, more) =
      rw (own, keep-sealed ids seed (i + 1) shares keys more) refl
