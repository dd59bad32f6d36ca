-- ===== src/Backup.antt =====
-- frontend/src/lib/backup.ts: the encrypted file of a wallet's orders, its export and its import. Web Crypto, JSON, the
-- text encoders and `atob` and `btoa` are parameters; the download of the file is left out.
pub mod RoundTrip
use zstrategy.Base.{
  ℕ, ◌%◌, Bool, true, false, not, List, [], ◌∷◌, ◌++◌, length, take, drop, map, if◌then◌else◌, ltb,
  ◌==◌,
}
use zstrategy.Base.Int.{pos}
use zstrategy.Base.Text.{Text, codes, text_eq}
use zstrategy.Base.Result.{Result, ok, throw, ◌>>=◌}
use zstrategy.Js.{Value, number, text, text_of, is_text, to_lower_case}
use zstrategy.Orders.{StrategyRecord}
use zstrategy.Strategies.{StrategyStore, save_strategy, list_strategies_for_owner}

-- Bytes, and a text whose code points are below 256.
abbrev pub Bytes : Type 0
Bytes = List ℕ

-- BackupFile, as JSON.parse gives it: a field may hold anything.
pub record BackupFile : Type 0 where
  pub format : Value
  pub version : Value
  pub kdf : Value
  pub iterations : Value
  pub salt : Value
  pub iv : Value
  pub ciphertext : Value
  pub owner : Value

-- The parsed payload: an array of records, or another value.
pub data Payload : Type 0 where
  malformed : Payload
  array : List StrategyRecord → Payload

pub record Browser : Type 1 where
  pub Key : Type 0
  -- PBKDF2 with a password, a salt and a number of iterations
  pub derive : Text → Bytes → ℕ → Result Key
  -- AES-GCM with a key and an initial vector
  pub encrypt : Key → Bytes → Bytes → Result Bytes
  pub decrypt : Key → Bytes → Bytes → Result Bytes
  pub encode : Text → Bytes
  pub decode : Bytes → Text
  pub btoa : Text → Text
  pub atob : Value → Result Text
  pub stringify_file : BackupFile → Text
  pub parse_file : Text → Result BackupFile
  pub stringify_records : List StrategyRecord → Text
  pub parse_records : Text → Result Payload

abbrev pub format_tag : Text
format_tag = codes "zstrategy-backup"

abbrev pub format_version : ℕ
format_version = 1

abbrev pub pbkdf2_iterations : ℕ
pbkdf2_iterations = 250_000

abbrev is_one : Value → Bool
is_one (number (pos n)) = n == format_version
is_one _ = false

-- `new Date().toISOString().replace(/[:.]/g, "-")`
abbrev dashed : Text → Text
dashed t = map (λ c. if c == b':' then b'-' else if c == b'.' then b'-' else c) t

pub record Export : Type 0 where
  pub count : ℕ
  pub filename : Text
  pub content : Text

pub record Import : Type 0 where
  pub count : ℕ
  pub owner : Value

abbrev or_message {κ} : {A : Type κ} → Text → Result A → Result A
or_message message (throw m) = throw message
or_message message (ok a) = ok a

-- `for (const r of records) await saveStrategy(r)`
unfoldable pub save_all : List StrategyRecord → StrategyStore → StrategyStore
save_all [] db = db
save_all (r ∷ rs) db = save_all rs (save_strategy r db)

module _ (b : Browser) where
  -- The code points of a binary text are its bytes, and an element of a Uint8Array holds eight bits.
  unfoldable pub bytes_to_base64 : Bytes → Text
  bytes_to_base64 bytes = b.btoa bytes

  unfoldable pub base64_to_bytes : Value → Result Bytes
  base64_to_bytes b64 = do bin ← b.atob b64; ok (map (λ c. c % 256) bin)

  abbrev pub derive_key : Text → Bytes → Result b.Key
  derive_key password salt = b.derive password salt pbkdf2_iterations

  abbrev pub backup_file : Text → Bytes → Bytes → Bytes → BackupFile
  backup_file owner salt iv ciphertext = record {
    format = text format_tag;
    version = number (pos format_version);
    kdf = text (codes "PBKDF2-SHA256");
    iterations = number (pos pbkdf2_iterations);
    salt = text (bytes_to_base64 salt);
    iv = text (bytes_to_base64 iv);
    ciphertext = text (bytes_to_base64 ciphertext);
    owner = text (to_lower_case owner);
  }

  -- With the bytes that are drawn for the salt and the initial vector, and the time.
  abbrev pub export_some : Text → Text → Bytes → Bytes → Text → List StrategyRecord → Result Export
  export_some owner password salt iv now [] = throw (codes "No strategies to export")
  export_some owner password salt iv now (r ∷ rs) = do
    key ← derive_key password salt
    ciphertext ← b.encrypt key iv (b.encode (b.stringify_records (r ∷ rs)))
    ok (record {
      count = length (r ∷ rs);
      filename =
          codes "zstrategy-"
          ++ take 6 (drop 2 owner)
          ++ codes "-"
          ++ dashed now
          ++ codes ".zstrategy";
      content = b.stringify_file (backup_file owner salt iv ciphertext);
    })

  unfoldable pub export_strategies :
      Text → Text → Bytes → Bytes → Text → StrategyStore → Result Export
  unfolding bytes_to_base64 list_strategies_for_owner
  export_strategies owner password salt iv now db =
      if ltb (length password) 8
      then throw (codes "Password must be at least 8 characters")
      else export_some owner password salt iv now (list_strategies_for_owner owner db)

  abbrev records_of : Payload → Result (List StrategyRecord)
  records_of malformed = throw (codes "Backup payload is malformed")
  records_of (array records) = ok records

  -- The checked file.
  abbrev checked : BackupFile → Result BackupFile
  checked parsed =
      if not (is_text format_tag parsed.format)
      then throw (codes "File is not a zstrategy backup")
      else if not (is_one parsed.version)
      then throw (codes "Unsupported backup version " ++ text_of parsed.version)
      else ok parsed

  abbrev decrypted : Text → BackupFile → Result (List StrategyRecord)
  decrypted password parsed = do
    salt ← base64_to_bytes parsed.salt
    iv ← base64_to_bytes parsed.iv
    ciphertext ← base64_to_bytes parsed.ciphertext
    key ← derive_key password salt
    plaintext ← or_message (codes "Wrong password or corrupted file") (b.decrypt key iv ciphertext)
    payload ← b.parse_records (b.decode plaintext)
    records_of payload

  -- The store changes only after everything is read.
  unfoldable pub import_strategies : Text → Text → StrategyStore → Result (Import × StrategyStore)
  unfolding base64_to_bytes save_all
  import_strategies file_text password db = do
    parsed ← or_message (codes "File is not valid JSON") (b.parse_file file_text)
    file ← checked parsed
    records ← decrypted password file
    ok (record { count = length records; owner = file.owner }, save_all records db)
