-- ===== src/Threshold/Laws.antt =====
-- What frontend/src/lib/threshold.ts and the keeper rely on in viem and eciesjs.
use zstrategy.Base.{ℕ, List, [], ◌∷◌, ◌++◌, none, ◌≡◌}
use zstrategy.Base.Text.{codes}
use zstrategy.Base.Digits.Hex.{IsBytes, bytes_to_hex}
use zstrategy.Base.Result.{ok}
use zstrategy.Keys.{Ecies, KeeperKeypair, get_keypair_by_id}
use zstrategy.Threshold.{Viem}

-- viem writes bytes as "0x" and two lower-case digits for each, and reads them back.
pub record ViemLaws (viem : Viem) : Type 0 where
  pub bytes_to_hex_lem :
      (bytes : List ℕ) → viem.bytes_to_hex bytes ≡ codes "0x" ++ bytes_to_hex bytes
  pub hex_to_bytes-bytes_to_hex :
      (bytes : List ℕ)
      → IsBytes bytes
      → viem.hex_to_bytes (codes "0x" ++ bytes_to_hex bytes) ≡ ok bytes

-- What is encrypted to a key is decrypted by its secret; keys and messages are made of bytes.
pub record SealingLaws (e : Ecies) : Type 0 where
  pub decrypt-encrypt :
      (seed : ℕ) (pk : e.PrivateKey) (message : List ℕ)
      → e.decrypt (e.secret pk) (e.encrypt seed (e.public_bytes pk) message) ≡ ok message
  pub encrypt-IsBytes :
      (seed : ℕ) (pk : e.PrivateKey) (message : List ℕ)
      → IsBytes (e.encrypt seed (e.public_bytes pk) message)
  pub public_bytes-IsBytes : (pk : e.PrivateKey) → IsBytes (e.public_bytes pk)

-- The public key of a keypair is that of its private key, and no two keypairs have the same id.
abbrev pub ShowsPublicKey : (e : Ecies) → KeeperKeypair e → Type 0
ShowsPublicKey e k = k.pubkey ≡ codes "0x" ++ bytes_to_hex (e.public_bytes k.private_key)

abbrev pub HasDistinctIds : (e : Ecies) → List (KeeperKeypair e) → Type 0
HasDistinctIds e [] = Unit
HasDistinctIds e (k ∷ ks) = (get_keypair_by_id e k.id ks ≡ none) × HasDistinctIds e ks
