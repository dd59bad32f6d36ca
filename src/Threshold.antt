-- ===== src/Threshold.antt =====
-- frontend/src/lib/threshold.ts: the user's secret is split into shares, one for each keeper, and
-- each share is encrypted to its keeper. `hexToBytes` and `bytesToHex` of viem are the record `Viem`.
pub mod Laws
pub mod Sealed
pub mod Delivery
use zstrategy.Base.{ℕ, ◌+◌, not, List, [], ◌∷◌, ◌++◌, length, ◌==◌, if◌then◌else◌}
use zstrategy.Base.Text.{Text, codes}
use zstrategy.Base.Digits.{print}
use zstrategy.Base.Result.{Result, ok, throw, ◌>>=◌}
use zstrategy.Shares.{Share}
use zstrategy.Keys.{Ecies, KeeperPubkey}
use zstrategy.Reconstruct.{Shamir}

pub record Viem : Type 0 where
  pub hex_to_bytes : Text → Result (List ℕ)
  pub bytes_to_hex : List ℕ → Text

unfoldable pub wrong_keeper_count : ℕ → ℕ → Text
wrong_keeper_count want have =
    codes "expected " ++ (print 10 want ++ (codes " keepers, got " ++ print 10 have))

unfoldable pub wrong_secret_size : ℕ → Text
wrong_secret_size have = codes "user_secret must be 32 bytes, got " ++ print 10 have

unfoldable pub wrong_share_count : Text
wrong_share_count = codes "shamir-secret-sharing returned wrong share count"

-- The TypeError of `keepers[i].pubkey` past the end of the array.
unfoldable pub no_such_keeper : Text
no_such_keeper = codes "Cannot read properties of undefined (reading 'pubkey')"

module _ (e : Ecies) (viem : Viem) where
  -- `shares.map((share, i) => …)`, with the keepers from index i on; `seed i` is what the i-th
  -- encryption draws.
  unfoldable pub encrypt_from :
      (ℕ → ℕ) → ℕ → List (List ℕ) → List KeeperPubkey → Result (List Share)
  encrypt_from seed i [] keepers = ok []
  encrypt_from seed i (share ∷ shares) [] = throw no_such_keeper
  encrypt_from seed i (share ∷ shares) (keeper ∷ keepers) =
      let rest = encrypt_from seed (i + 1) shares keepers in
      (do
        pubkey ← viem.hex_to_bytes keeper.pubkey
        others ← rest
        ok (
            record {
              keeper_id = keeper.id;
              ciphertext = viem.bytes_to_hex (e.encrypt (seed i) pubkey share);
            }
            ∷ others))

  -- The last test, and the map.
  abbrev pub encrypt_counted : ℕ → (ℕ → ℕ) → List KeeperPubkey → List (List ℕ) → Result (List Share)
  encrypt_counted n seed keepers shares =
      if length shares == n then encrypt_from seed 0 shares keepers else throw wrong_share_count

  -- The test of the secret, and the split.
  abbrev pub split_checked :
      Shamir → ℕ → ℕ → ℕ → (ℕ → ℕ) → List KeeperPubkey → List ℕ → Result (List Share)
  split_checked shamir n k draw seed keepers secret =
      if length secret == 32
      then (shamir.split draw secret n k >>= encrypt_counted n seed keepers)
      else throw (wrong_secret_size (length secret))

  -- n and k are SHAMIR_NODES_N and SHAMIR_THRESHOLD_K; `draw` is what the split draws.
  unfoldable pub split_and_encrypt_secret :
      Shamir → ℕ → ℕ → ℕ → (ℕ → ℕ) → Text → List KeeperPubkey → Result (List Share)
  split_and_encrypt_secret shamir n k draw seed user_secret keepers =
      if length keepers == n
      then (viem.hex_to_bytes user_secret >>= split_checked shamir n k draw seed keepers)
      else throw (wrong_keeper_count n (length keepers))
