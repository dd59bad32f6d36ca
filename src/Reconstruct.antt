-- ===== src/Reconstruct.antt =====
-- keeper/src/threshold/reconstruct.ts: the user's secret from the encrypted shares in the store.
-- `combine` of shamir-secret-sharing is the record `Shamir`; the keypairs are those that
-- `loadOrCreateKeypairs` returned when the process started (keeper/src/index.ts).
pub mod Selection
use zstrategy.Base.{
  ℕ, List, [], ◌∷◌, ◌++◌, Option, none, some, length, take, drop, ltb, ◌==◌, if◌then◌else◌,
}
use zstrategy.Base.Text.{Text, codes}
use zstrategy.Base.Digits.{print}
use zstrategy.Base.Digits.Hex.{bytes_to_hex, bytes_of_hex}
use zstrategy.Base.Result.{Result, ok, throw, ◌>>=◌}
use zstrategy.Shares.{ShareRow, Table, get_shares_for_commitment}
use zstrategy.Keys.{Ecies, KeeperKeypair, get_keypair_by_id}

-- `split(secret, shares, threshold)` with the randomness that it draws, and `combine(shares)`.
pub record Shamir : Type 0 where
  pub split : ℕ → List ℕ → ℕ → ℕ → Result (List (List ℕ))
  pub combine : List (List ℕ) → Result (List ℕ)

unfoldable pub not_enough_shares : Text → ℕ → ℕ → Text
not_enough_shares hash have need =
    codes "[Reconstruct] not enough shares for "
    ++ (take 10 hash ++ (codes "…: have " ++ (print 10 have ++ (codes ", need " ++ print 10 need))))

unfoldable pub insufficient_shares : Text → ℕ → ℕ → Text
insufficient_shares hash have need =
    codes "[Reconstruct] insufficient decryptable shares for "
    ++ (take 10 hash
        ++ (codes "…: decrypted " ++ (print 10 have ++ (codes ", needed " ++ print 10 need))))

unfoldable pub wrong_secret_length : ℕ → Text
wrong_secret_length n = codes "[Reconstruct] expected 32-byte secret, got " ++ print 10 n

-- The last test and the result.
abbrev pub checked_secret : List ℕ → Result Text
checked_secret secret =
    if length secret == 32
    then ok (codes "0x" ++ bytes_to_hex secret)
    else throw (wrong_secret_length (length secret))

module _ (e : Ecies) where
  -- try { … } catch: a share that does not decrypt is passed over.
  abbrev pub caught : Result (List ℕ) → Option (List ℕ)
  caught (ok plain) = some plain
  caught (throw m) = none

  -- One round of the loop: the share of a row, if a local key decrypts it.
  unfoldable pub decrypt_row : List (KeeperKeypair e) → ShareRow → Option (List ℕ)
  decrypt_row keys row = elim (get_keypair_by_id e row.keeper_id keys) [
    | none ↦ none
    | some kp ↦ caught (e.decrypt (e.secret kp.private_key) (bytes_of_hex (drop 2 row.ciphertext)))
  ]

  abbrev pub push : List (List ℕ) → Option (List ℕ) → List (List ℕ)
  push decrypted none = decrypted
  push decrypted (some plain) = decrypted ++ plain ∷ []

  -- The loop over the rows, which breaks once it has k shares.
  unfoldable pub collect :
      ℕ → List (KeeperKeypair e) → List ShareRow → List (List ℕ) → List (List ℕ)
  collect k keys [] decrypted = decrypted
  collect k keys (row ∷ rows) decrypted =
      let rest = collect k keys rows (push decrypted (decrypt_row keys row)) in
      if ltb (length decrypted) k then rest else decrypted

  unfoldable pub reconstruct_user_secret :
      Shamir → ℕ → List (KeeperKeypair e) → Text → Table → Result Text
  reconstruct_user_secret shamir k keys hash t =
      let shares = get_shares_for_commitment hash t in
      let decrypted = collect k keys shares [] in
      if ltb (length shares) k
      then throw (not_enough_shares hash (length shares) k)
      else if ltb (length decrypted) k
      then throw (insufficient_shares hash (length decrypted) k)
      else do secret ← shamir.combine decrypted; checked_secret secret
