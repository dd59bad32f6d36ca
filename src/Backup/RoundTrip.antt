-- ===== src/Backup/RoundTrip.antt =====
-- A backup that is imported gives the orders back (frontend/src/lib/backup.ts).
use mathlib.Core.Path.{subst}
use zstrategy.Base.{
  ◌%◌, List, [], ◌∷◌, length, map, ltb, ◌≡◌, refl, ap, ◌∙◌, inl, inr, arith, Bool-cases,
}
use zstrategy.Base.Text.{Text, text_eq_refl}
use zstrategy.Base.Digits.Hex.{IsBytes}
use zstrategy.Base.Result.{Result, ok, throw, >>=-eq-ok}
use zstrategy.Js.{text, to_lower_case}
use zstrategy.Orders.{StrategyRecord}
use zstrategy.Strategies.{StrategyStore, get, put_all, save_strategy, list_strategies_for_owner}
use zstrategy.Strategies.Lookup.{IsSorted, keep-IsSorted, get-put_all, first_of}
use zstrategy.Backup.{
  Bytes, array, Browser, Export, save_all, derive_key, backup_file, bytes_to_base64,
  base64_to_bytes, export_some, export_strategies, import_strategies,
}

-- What the browser's services guarantee: decryption inverts encryption under the same key and vector, and each reader
-- inverts its writer.
pub record BrowserLaws (b : Browser) : Type 0 where
  pub decrypt-encrypt :
      (key : b.Key) (iv plaintext ciphertext : Bytes)
      → b.encrypt key iv plaintext ≡ ok ciphertext
      → b.decrypt key iv ciphertext ≡ ok plaintext
  pub encrypt-IsBytes :
      (key : b.Key) (iv plaintext ciphertext : Bytes)
      → b.encrypt key iv plaintext ≡ ok ciphertext
      → IsBytes ciphertext
  pub decode-encode : (t : Text) → b.decode (b.encode t) ≡ t
  pub atob-btoa : (t : Bytes) → IsBytes t → b.atob (text (b.btoa t)) ≡ ok t
  pub parse-file :
      (owner : Text) (salt iv ciphertext : Bytes)
      → b.parse_file (b.stringify_file (backup_file b owner salt iv ciphertext))
        ≡ ok (backup_file b owner salt iv ciphertext)
  pub parse-records :
      (rs : List StrategyRecord) → b.parse_records (b.stringify_records rs) ≡ ok (array rs)

map_bytes : (t : Bytes) → IsBytes t → map (λ c. c % 256) t ≡ t
map_bytes [] h = refl
map_bytes (c ∷ t) (lt, h) =
    let e : c % 256 ≡ c = omega (arith, lt) in
    ap (λ z. z ∷ map (λ d. d % 256) t) e ∙ ap (λ z. c ∷ z) (map_bytes t h)

abbrev key : StrategyRecord → Text
key r = r.commitment_hash

save_all-eq-put_all : (rs db : List StrategyRecord) → save_all rs db ≡ put_all key rs db
unfolding save_all put_all save_strategy
save_all-eq-put_all [] db = refl
save_all-eq-put_all (r ∷ rs) db = save_all-eq-put_all rs (save_strategy r db)

ok_injective {κ} : {A : Type κ} (a b : A) → ◌≡◌ {A = Result A} (ok a) (ok b) → a ≡ b
ok_injective a b same = cc

throw_ne_ok {κ} :
    {A : Type κ} {message : Text} {a : A} → ◌≡◌ {A = Result A} (throw message) (ok a) → ⊥
throw_ne_ok same = cc

module _ (b : Browser) (laws : BrowserLaws b) where
  base64_round : (t : Bytes) → IsBytes t → base64_to_bytes b (text (bytes_to_base64 b t)) ≡ ok t
  unfolding base64_to_bytes bytes_to_base64
  base64_round t h = rw (laws.atob-btoa t h) (ap ok (map_bytes t h))

  -- The file of an export is read, and its records are those that were exported.
  import_exported :
      (owner password : Text) (salt iv : Bytes) (now : Text) (rs : List StrategyRecord)
      (db' : StrategyStore) (e : Export)
      → IsBytes salt
      → IsBytes iv
      → export_some b owner password salt iv now rs ≡ ok e
      → import_strategies b e.content password db'
        ≡ ok (record { count = e.count; owner = text (to_lower_case owner) }, save_all rs db')
  unfolding import_strategies
  import_exported owner password salt iv now [] db' e hs hi same = absurd (throw_ne_ok same)
  import_exported owner password salt iv now (r ∷ rs) db' e hs hi same =
      let (k, e1, h1) = >>=-eq-ok (derive_key b password salt) _ same in
      let (ct, e2, h2) =
        >>=-eq-ok (b.encrypt k iv (b.encode (b.stringify_records (r ∷ rs)))) _ h1 in
      let e3 = ok_injective _ e h2 in
      subst
        (λ z.
          import_strategies b z.content password db'
          ≡ ok (
            record { count = z.count; owner = text (to_lower_case owner) },
            save_all (r ∷ rs) db',
          ))
        e3
        (rw
          (
            laws.parse-file owner salt iv ct,
            text_eq_refl,
            base64_round salt hs,
            base64_round iv hi,
            base64_round ct (laws.encrypt-IsBytes k iv _ ct e2),
            e1,
            laws.decrypt-encrypt k iv _ ct e2,
            laws.decode-encode,
            laws.parse-records (r ∷ rs),
          )
          refl)

  -- When an export ends well on a store whose keys ascend, the import of its file with the same password into any store
  -- ends well, with the same count and the owner in lower case; under every hash there is then the order of that
  -- owner in the first store if there is one, and else what was there before.
  pub import-export_strategies :
      (owner password : Text) (salt iv : Bytes) (now : Text) (db db' : StrategyStore) (e : Export)
      → IsBytes salt
      → IsBytes iv
      → IsSorted key db
      → export_strategies b owner password salt iv now db ≡ ok e
      → (db'' : StrategyStore) × (import_strategies b e.content password db'
          ≡ ok (record { count = e.count; owner = text (to_lower_case owner) }, db''))
        × ((h : Text)
            → get key h db''
              ≡ first_of (get key h (list_strategies_for_owner owner db)) (get key h db'))
  unfolding export_strategies list_strategies_for_owner
  import-export_strategies owner password salt iv now db db' e hs hi sorted same =
      let rs = list_strategies_for_owner owner db in
      elim (Bool-cases (ltb (length password) 8)) [
        | inl short ↦ absurd (throw_ne_ok (rw short at same))
        | inr long ↦ (
          save_all rs db',
          import_exported owner password salt iv now rs db' e hs hi (rw long at same),
          λ h.
              ap (get key h) (save_all-eq-put_all rs db')
              ∙ get-put_all key h rs db' (keep-IsSorted key _ db sorted),
        )
      ]
