-- ===== src/Keys.antt =====
-- keeper/src/threshold/keys.ts: the keypairs of the keeper network, cached in the process and kept in
-- a file. The class PrivateKey of eciesjs is the record `Ecies`. The file is what JSON.parse gives
-- back of what JSON.stringify wrote: the list of the stored objects.
pub mod Reload
use zstrategy.Base.{
  ℕ, zero, suc, ◌+◌, Bool, not, List, [], ◌∷◌, ◌++◌, map, Option, none, some, length, drop, find,
  ◌==◌, if◌then◌else◌,
}
use zstrategy.Base.Text.{Text, codes, text_eq}
use zstrategy.Base.Digits.{print}
use zstrategy.Base.Digits.Hex.{bytes_to_hex, bytes_of_hex}
use zstrategy.Base.Result.{Result, ok, throw, ◌>>=◌, map_result}

-- What the program uses of eciesjs.
pub record Ecies : Type 1 where
  pub PrivateKey : Type 0
  -- `new PrivateKey(bytes)`, which throws for bytes that are no key, and `.secret`
  pub from_secret : List ℕ → Result PrivateKey
  pub secret : PrivateKey → List ℕ
  -- `.publicKey.toBytes(false)`
  pub public_bytes : PrivateKey → List ℕ
  -- `encrypt(publicKey, message)` with the randomness that it draws, and `decrypt(secret, message)`
  pub encrypt : ℕ → List ℕ → List ℕ → List ℕ
  pub decrypt : List ℕ → List ℕ → Result (List ℕ)

pub record KeeperPubkey : Type 0 where
  pub id : Text
  pub pubkey : Text

-- An object of the key file.
pub record StoredKey : Type 0 where
  pub id : Text
  pub private_key : Text

pub data KeyFile : Type 0 where
  absent : KeyFile
  -- a file that JSON.parse refuses, with the message of its error
  malformed : Text → KeyFile
  stored : List StoredKey → KeyFile

-- `keeper-${i}`
unfoldable pub keeper_name : ℕ → Text
keeper_name i = codes "keeper-" ++ print 10 i

-- The message of the error for a file of the wrong length, up to the name of the file.
unfoldable pub wrong_key_count : ℕ → ℕ → Text
wrong_key_count have want =
    codes "Threshold key file has "
    ++ (print 10 have ++ (codes " keys but THRESHOLD_N=" ++ print 10 want))

module _ (e : Ecies) where
  pub record KeeperKeypair : Type 0 where
    pub id : Text
    pub pubkey : Text
    pub private_key : e.PrivateKey

  -- The module's variable `_keys`, and the key file.
  pub record KeyState : Type 0 where
    pub keys : Option (List KeeperKeypair)
    pub file : KeyFile

  -- "0x" and the hexadecimal form of the bytes
  abbrev pub keypair : Text → e.PrivateKey → KeeperKeypair
  keypair id pk = record {
    id = id;
    pubkey = codes "0x" ++ bytes_to_hex (e.public_bytes pk);
    private_key = pk;
  }

  -- The function that is mapped over the stored objects: `slice(2)` drops "0x".
  unfoldable pub load_key : StoredKey → Result KeeperKeypair
  load_key s = do pk ← e.from_secret (bytes_of_hex (drop 2 s.private_key)); ok (keypair s.id pk)

  -- The loop of the fresh keys, from `i` on, `left` more; `draw i` is the i-th `new PrivateKey()`.
  unfoldable pub generate : (ℕ → e.PrivateKey) → ℕ → ℕ → List KeeperKeypair
  unfolding keeper_name
  generate draw i zero = []
  generate draw i (suc left) = keypair (keeper_name i) (draw i) ∷ generate draw (i + 1) left

  abbrev pub on_disk : KeeperKeypair → StoredKey
  on_disk k = record {
    id = k.id;
    private_key = codes "0x" ++ bytes_to_hex (e.secret k.private_key);
  }

  -- `_keys = stored.map(…)`: nothing is assigned if the map throws.
  abbrev pub keep_loaded :
      KeyState → Result (List KeeperKeypair) → Result (List KeeperKeypair) × KeyState
  keep_loaded s (ok keys) = (ok keys, record s { keys = some keys })
  keep_loaded s (throw m) = (throw m, s)

  abbrev pub keep_generated : List KeeperKeypair → Result (List KeeperKeypair) × KeyState
  keep_generated keys = (ok keys, record { keys = some keys; file = stored (map on_disk keys) })

  -- The function below its first line, by the file that it finds.
  unfoldable pub load_file :
      ℕ → (ℕ → e.PrivateKey) → KeyFile → KeyState → Result (List KeeperKeypair) × KeyState
  load_file threshold_n draw (stored objects) s =
      if length objects == threshold_n
      then keep_loaded s (map_result load_key objects)
      else (throw (wrong_key_count (length objects) threshold_n), s)
  load_file threshold_n draw (malformed m) s = (throw m, s)
  load_file threshold_n draw absent s = keep_generated (generate draw 0 threshold_n)

  -- `if (_keys) return _keys`
  abbrev pub load_or_create_from :
      Option (List KeeperKeypair)
      → ℕ
      → (ℕ → e.PrivateKey)
      → KeyState
      → Result (List KeeperKeypair) × KeyState
  load_or_create_from (some keys) threshold_n draw s = (ok keys, s)
  load_or_create_from none threshold_n draw s = load_file threshold_n draw s.file s

  unfoldable pub load_or_create_keypairs :
      ℕ → (ℕ → e.PrivateKey) → KeyState → Result (List KeeperKeypair) × KeyState
  unfolding load_file
  load_or_create_keypairs threshold_n draw s = load_or_create_from s.keys threshold_n draw s

  -- `publicKeyset` and `getKeypairById` on the keypairs that `loadOrCreateKeypairs` returned.
  unfoldable pub public_keyset : List KeeperKeypair → List KeeperPubkey
  public_keyset keys = map (λ k. record { id = k.id; pubkey = k.pubkey }) keys

  unfoldable pub get_keypair_by_id : Text → List KeeperKeypair → Option KeeperKeypair
  get_keypair_by_id id keys = find (λ k. text_eq k.id id) keys
