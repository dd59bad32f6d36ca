-- ===== src/Examples/Delivered.antt =====
-- A secret from the browser to a keeper with two keypairs.
use zstrategy.Base.{
  ℕ, ◌<◌, ◌≤◌, ◌↔◌, true, any, take, ltb, if◌then◌else◌, [], ◌∷◌, ◌++◌, map, some, List, replicate,
  ◌≡◌, refl, arith, length, keep, ◌*◌,
}
use zstrategy.Base.Text.{Text, codes, text_eq}
use zstrategy.Base.Digits.Hex.{bytes_to_hex}
use zstrategy.Base.Result.{ok, throw, ◌>>=◌}
use zstrategy.Shares.{ShareRow, Share, insert_shares, get_shares_for_commitment}
use zstrategy.Keys.{public_keyset, get_keypair_by_id}
use zstrategy.Reconstruct.{
  reconstruct_user_secret, not_enough_shares, insufficient_shares, decrypt_row,
}
use zstrategy.Reconstruct.Selection.{decryptable, reconstruct_iff, reconstruct_throws}
use zstrategy.ShareApi.{stored_rows, has_secret, post_shares}
use zstrategy.ShareApi.Storing.{shares_body, is_own, post_shares-stores}
use zstrategy.Threshold.{split_and_encrypt_secret}
use zstrategy.Threshold.Laws.{HasDistinctIds}
use zstrategy.Threshold.Delivery.{reconstruct-post_shares-split}
use zstrategy.Examples.Toys.{
  toy_ecies, toy_sealing, toy_shamir, toy_shamir_laws, toy_viem, toy_viem_laws, toy_checks,
  toy_binds, toy_keys, toy_user_secret, toy_combine, toy_user_secret-IsBytes,
}

abbrev two_hashes : List Text
two_hashes = codes "0xa1" ∷ codes "0xb2" ∷ []

-- A row of another keeper that the table already holds.
abbrev old_row : ShareRow
old_row = record {
  commitment_hash = codes "0xb2";
  keeper_id = codes "keeper-9";
  ciphertext = codes "0xff";
  received_at = 1;
}

authorized : has_secret (codes "s") (some (codes "Bearer s")) ≡ true
unfolding has_secret text_eq
authorized = refl

listed : any (λ h. text_eq h (codes "0xb2")) two_hashes ≡ true
unfolding text_eq
listed = refl

distinct : HasDistinctIds toy_ecies toy_keys
unfolding get_keypair_by_id text_eq
distinct = (refl, (refl, tt))

reconstruct-post_shares-split_example :
    (split_and_encrypt_secret toy_ecies toy_viem toy_shamir 2 2 5
        (λ i. i)
        (codes "0x" ++ bytes_to_hex toy_user_secret)
        (public_keyset toy_ecies toy_keys)
      >>= λ sent.
          reconstruct_user_secret toy_ecies toy_shamir 2 toy_keys
            (codes "0xb2")
            (post_shares toy_checks
              (codes "s")
              (map (λ x. x.id) toy_keys)
              (some (codes "Bearer s"))
              (shares_body two_hashes sent)
              9000
              (old_row ∷ [])).1)
    ≡ ok (codes "0x" ++ bytes_to_hex toy_user_secret)
reconstruct-post_shares-split_example =
    reconstruct-post_shares-split toy_ecies toy_sealing toy_shamir toy_shamir_laws toy_viem
      toy_viem_laws toy_checks toy_binds toy_keys 2 2 2 5 (λ i. i) toy_user_secret
      (replicate 2 toy_user_secret) (codes "s") (some (codes "Bearer s")) (codes "0xb2") two_hashes
      9000 (old_row ∷ []) (refl, (refl, tt)) distinct refl (omega arith) (omega arith) (omega arith)
      toy_user_secret-IsBytes refl refl authorized (refl, (refl, tt)) listed

-- A share of each keeper, and one of a keeper that this process is not.
abbrev three_shares : List Share
three_shares =
    record { keeper_id = codes "keeper-0"; ciphertext = codes "0x01" }
    ∷ record { keeper_id = codes "keeper-7"; ciphertext = codes "0x02" }
    ∷ record { keeper_id = codes "keeper-1"; ciphertext = codes "0x03" }
    ∷ []

abbrev own : List Text
own = codes "keeper-0" ∷ codes "keeper-1" ∷ []

post_shares-stores_example :
    post_shares toy_checks
      (codes "s")
      own
      (some (codes "Bearer s"))
      (shares_body two_hashes three_shares)
      9000
      (old_row ∷ [])
    ≡ (
      record {
        status = 201;
        body = stored_rows (length two_hashes * length (keep (is_own own) three_shares));
      },
      insert_shares two_hashes (keep (is_own own) three_shares) 9000 (old_row ∷ []),
    )
post_shares-stores_example =
    post_shares-stores toy_checks toy_binds (codes "s") own (some (codes "Bearer s")) two_hashes
      three_shares 9000 (old_row ∷ []) authorized (λ h. cc) (refl, (refl, tt)) (λ h. cc)

few_rows :
    length
      (decryptable toy_ecies toy_keys (get_shares_for_commitment (codes "0xb2") (old_row ∷ [])))
    < 2
unfolding decrypt_row get_keypair_by_id get_shares_for_commitment text_eq
few_rows = omega arith

reconstruct_throws_example :
    reconstruct_user_secret toy_ecies toy_shamir 2 toy_keys (codes "0xb2") (old_row ∷ [])
    ≡ throw (
        if ltb (length (get_shares_for_commitment (codes "0xb2") (old_row ∷ []))) 2
        then not_enough_shares
            (codes "0xb2")
            (length (get_shares_for_commitment (codes "0xb2") (old_row ∷ [])))
            2
        else insufficient_shares
            (codes "0xb2")
            (length (
              decryptable toy_ecies toy_keys
                (get_shares_for_commitment (codes "0xb2") (old_row ∷ []))))
            2)
reconstruct_throws_example =
    reconstruct_throws toy_ecies toy_shamir 2 toy_keys (codes "0xb2") (old_row ∷ []) few_rows

-- Two rows whose shares, in ones, are 32 zeros each.
abbrev stored_share : Text → ShareRow
stored_share keeper = record {
  commitment_hash = codes "0xc3";
  keeper_id = keeper;
  ciphertext = codes "0x" ++ bytes_to_hex (replicate 32 0);
  received_at = 1;
}

abbrev two_rows : List ShareRow
two_rows = stored_share (codes "keeper-1") ∷ old_row ∷ stored_share (codes "keeper-0") ∷ []

reconstruct_iff_example :
    (reconstruct_user_secret toy_ecies toy_shamir 2 toy_keys (codes "0xc3") two_rows
      ≡ ok (codes "0x" ++ bytes_to_hex (replicate 32 0)))
    ↔ ((2
          ≤ length
              (decryptable toy_ecies toy_keys (get_shares_for_commitment (codes "0xc3") two_rows)))
        × ((bytes : List ℕ) × (toy_combine (
                take 2 (
                  decryptable toy_ecies toy_keys
                    (get_shares_for_commitment (codes "0xc3") two_rows)))
              ≡ ok bytes)
            × (length bytes ≡ 32)
            × (codes "0x" ++ bytes_to_hex (replicate 32 0) ≡ codes "0x" ++ bytes_to_hex bytes)))
reconstruct_iff_example =
    reconstruct_iff toy_ecies toy_shamir 2 toy_keys (codes "0xc3") two_rows
      (codes "0x" ++ bytes_to_hex (replicate 32 0))
