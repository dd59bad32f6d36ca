-- ===== src/Examples/Backups.antt =====
-- A backup of one order, exported from one browser and imported in another.
use mathlib.Core.Path.{subst}
use zstrategy.Base.{
  ℕ, zero, suc, List, [], ◌∷◌, ◌++◌, length, take, drop, replicate, ◌≡◌, refl, sym, ap, ◌∙◌, arith,
}
use zstrategy.Base.Int.{pos}
use zstrategy.Base.Digits.Hex.{IsBytes}
use zstrategy.Base.Text.{Text, codes, text_eq}
use zstrategy.Base.Result.{Result, ok}
use zstrategy.Js.{Value, text, number, to_lower_case}
use zstrategy.Request.{Direction, buy, sell}
use zstrategy.Orders.{StrategyRecord, StrategyKind, limit, market}
use zstrategy.Strategies.{text_ltb, StrategyStore, get, list_strategies_for_owner}
use zstrategy.Strategies.Lookup.{first_of}
use zstrategy.Examples.Toys.{in_ones, from_ones, from_ones-in_ones, in_ones-IsBytes}
use zstrategy.Backup.{
  Bytes, Payload, malformed, format_version, BackupFile, Browser, Export, export_strategies,
  import_strategies, array, backup_file, bytes_to_base64, format_tag, pbkdf2_iterations,
}
use zstrategy.Backup.RoundTrip.{BrowserLaws, import-export_strategies}

abbrev order : Text → Text → StrategyRecord
order hash owner = record {
  commitment_hash = hash;
  owner = owner;
  strategy_id = codes "0x5";
  nonce = codes "0x6";
  token_in = codes "0xe";
  token_out = codes "0xd";
  size = codes "7";
  min_out = codes "3";
  expiry = 4000;
  price = codes "500";
  direction = buy;
  kind = limit;
  created_at = 1000;
}

abbrev mine : StrategyRecord
mine = order (codes "0x1a") (codes "0xabc")

-- A text with its length before it, in front of others.
abbrev part : Text → Text → Text
part t rest = length t ∷ t ++ rest

abbrev head_text : Text → Text
head_text [] = []
head_text (n ∷ s) = take n s

abbrev tail_text : Text → Text
tail_text [] = []
tail_text (n ∷ s) = drop n s

take-append : (s t : Text) → take (length s) (s ++ t) ≡ s
take-append [] t = refl
take-append (c ∷ s) t = ap (λ z. c ∷ z) (take-append s t)

drop-append : (s t : Text) → drop (length s) (s ++ t) ≡ t
drop-append [] t = refl
drop-append (c ∷ s) t = drop-append s t

abbrev direction_code : Direction → ℕ
direction_code buy = 0
direction_code sell = 1

abbrev direction_at : ℕ → Direction
direction_at zero = buy
direction_at (suc n) = sell

abbrev kind_code : StrategyKind → ℕ
kind_code limit = 0
kind_code market = 1

abbrev kind_at : ℕ → StrategyKind
kind_at zero = limit
kind_at (suc n) = market

direction_round : (d : Direction) → direction_at (direction_code d) ≡ d
direction_round buy = refl
direction_round sell = refl

kind_round : (k : StrategyKind) → kind_at (kind_code k) ≡ k
kind_round limit = refl
kind_round market = refl

abbrev texts_of : StrategyRecord → Text → Text
texts_of r rest = part r.commitment_hash (
    part r.owner (
      part r.strategy_id (
        part r.nonce
          (part r.token_in (part r.token_out (part r.size (part r.min_out (part r.price rest))))))))

abbrev write_record : StrategyRecord → Text → Text
write_record r rest =
    r.expiry ∷ r.created_at ∷ direction_code r.direction ∷ kind_code r.kind ∷ texts_of r rest

abbrev read_texts : ℕ → ℕ → ℕ → ℕ → Text → StrategyRecord
read_texts expiry created_at d k s = record {
  commitment_hash = head_text s;
  owner = head_text (tail_text s);
  strategy_id = head_text (tail_text (tail_text s));
  nonce = head_text (tail_text (tail_text (tail_text s)));
  token_in = head_text (tail_text (tail_text (tail_text (tail_text s))));
  token_out = head_text (tail_text (tail_text (tail_text (tail_text (tail_text s)))));
  size = head_text (tail_text (tail_text (tail_text (tail_text (tail_text (tail_text s))))));
  min_out =
      head_text
        (tail_text (tail_text (tail_text (tail_text (tail_text (tail_text (tail_text s)))))));
  price = head_text (
      tail_text
        (tail_text (tail_text (tail_text (tail_text (tail_text (tail_text (tail_text s))))))));
  expiry = expiry;
  direction = direction_at d;
  kind = kind_at k;
  created_at = created_at;
}

abbrev after_texts : Text → Text
after_texts s = tail_text (
    tail_text (tail_text (tail_text (tail_text (tail_text (tail_text (tail_text (tail_text s))))))))

abbrev write_records : List StrategyRecord → Text
write_records [] = []
write_records (r ∷ rs) = write_record r (write_records rs)

abbrev read_records : ℕ → Text → List StrategyRecord
read_records zero s = []
read_records (suc n) (e ∷ c ∷ d ∷ k ∷ s) = read_texts e c d k s ∷ read_records n (after_texts s)
read_records (suc n) _ = []

read_texts_lem :
    (r : StrategyRecord) (rest : Text)
    → read_texts r.expiry r.created_at
        (direction_code r.direction)
        (kind_code r.kind)
        (texts_of r rest)
      ≡ r
read_texts_lem r rest = simp (take-append, drop-append, direction_round, kind_round)

after_texts_lem : (r : StrategyRecord) (rest : Text) → after_texts (texts_of r rest) ≡ rest
after_texts_lem r rest = simp drop-append

read_records-write_records :
    (rs : List StrategyRecord) → read_records (length rs) (write_records rs) ≡ rs
read_records-write_records [] = refl
read_records-write_records (r ∷ rs) =
    rw (read_texts_lem r (write_records rs), after_texts_lem r (write_records rs))
      (ap (λ z. r ∷ z) (read_records-write_records rs))

abbrev read_counted : Text → Result Payload
read_counted [] = ok malformed
read_counted (n ∷ s) = ok (array (read_records n s))

abbrev inner : Value → Text
inner (text t) = t
inner v = []

abbrev file_of : Text → BackupFile
file_of s = record {
  format = text format_tag;
  version = number (pos format_version);
  kdf = text (codes "PBKDF2-SHA256");
  iterations = number (pos pbkdf2_iterations);
  salt = text (head_text s);
  iv = text (head_text (tail_text s));
  ciphertext = text (head_text (tail_text (tail_text s)));
  owner = text (head_text (tail_text (tail_text (tail_text s))));
}

abbrev toy_browser : Browser
toy_browser = record {
  Key = Unit;
  derive = λ password salt iterations. ok tt;
  encrypt = λ key iv plaintext. ok (in_ones plaintext);
  decrypt = λ key iv ciphertext. ok (from_ones 0 ciphertext);
  encode = λ t. t;
  decode = λ t. t;
  btoa = λ t. t;
  atob = λ v. ok (inner v);
  stringify_file = λ f.
      part (inner f.salt) (part (inner f.iv) (part (inner f.ciphertext) (part (inner f.owner) [])));
  parse_file = λ s. ok (file_of s);
  stringify_records = λ rs. length rs ∷ write_records rs;
  parse_records = read_counted;
}

ok_injective : (a b : Bytes) → ◌≡◌ {A = Result Bytes} (ok a) (ok b) → a ≡ b
ok_injective a b same = cc

toy_laws : BrowserLaws toy_browser
unfolding bytes_to_base64
toy_laws = record {
  decrypt-encrypt = λ key iv plaintext ciphertext same.
      ap (λ z. ok (from_ones 0 z)) (sym (ok_injective (in_ones plaintext) ciphertext same))
      ∙ ap (λ z. ok z) (from_ones-in_ones plaintext);
  encrypt-IsBytes = λ key iv plaintext ciphertext same.
      subst IsBytes (ok_injective (in_ones plaintext) ciphertext same) (in_ones-IsBytes plaintext);
  decode-encode = λ t. refl;
  atob-btoa = λ t h. refl;
  parse-file = λ owner salt iv ciphertext. simp (take-append, drop-append);
  parse-records = λ rs. ap (λ z. ok (array z)) (read_records-write_records rs);
}

-- The first browser has an order of another wallet too, the second an older one under the same hash.
abbrev first_store : StrategyStore
first_store = mine ∷ order (codes "0x2b") (codes "0xdef") ∷ []

abbrev second_store : StrategyStore
second_store = order (codes "0x1a") (codes "0x999") ∷ []

abbrev exported : Export
exported = record {
  count = 1;
  filename = codes "zstrategy-ABC-2026-01-01.zstrategy";
  content = toy_browser.stringify_file (
      backup_file toy_browser (codes "0xABC") (replicate 16 7) (replicate 12 9)
        (in_ones (1 ∷ write_records (mine ∷ []))));
}

import-export_strategies_example :
    (db : StrategyStore) × (import_strategies toy_browser exported.content
        (codes "password")
        second_store
      ≡ ok (record { count = 1; owner = text (to_lower_case (codes "0xABC")) }, db))
    × ((h : Text)
        → get (λ r. r.commitment_hash) h db
          ≡ first_of
              (get
                (λ r. r.commitment_hash)
                h
                (list_strategies_for_owner (codes "0xABC") first_store))
              (get (λ r. r.commitment_hash) h second_store))
unfolding text_ltb export_strategies text_eq to_lower_case
import-export_strategies_example =
    import-export_strategies toy_browser toy_laws (codes "0xABC") (codes "password")
      (replicate 16 7) (replicate 12 9) (codes "2026-01-01") first_store second_store exported
      (ground arith) (ground arith) ((refl, tt), (tt, tt)) refl
