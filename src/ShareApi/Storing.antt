-- ===== src/ShareApi/Storing.antt =====
-- What a well-formed POST /api/shares stores (keeper/src/api/server.ts).
use zstrategy.Base.{
  ℕ, ◌*◌, Bool, true, List, [], ◌∷◌, Option, some, map, any, keep, length, All, ◌≡◌, ◌≢◌, refl, ap,
  arith, inl, inr, Bool-cases,
}
use zstrategy.Base.Text.{Text, text_eq}
use zstrategy.Base.Result.{ok, map_result}
use zstrategy.Js.{Value, text, text_of}
use zstrategy.Shares.{Table, Share, insert_shares}
use zstrategy.ShareApi.{
  stored_rows, Checks, has_secret, Element, element, SharesBody, read_hashes, filter_mine,
  bind_share, store_mine, post_shares,
}

-- better-sqlite3 binds a string as it is.
abbrev pub BindsTexts : Checks → Type 0
BindsTexts checks = (s : Text) → checks.bind_text (text s) ≡ ok s

abbrev pub as_element : Share → Element
as_element s = element (text s.keeper_id) (text s.ciphertext)

-- The shares whose keeper is one of the process's.
abbrev pub is_own : List Text → Share → Bool
is_own ids s = any (λ i. text_eq i s.keeper_id) ids

abbrev pub as_pair : Share → Value × Value
as_pair s = (text s.keeper_id, text s.ciphertext)

module _ (checks : Checks) where
  read_hashes-texts :
      (hashes : List Text)
      → All (λ h. checks.is_hash (text h) ≡ true) hashes
      → read_hashes checks (map text hashes) ≡ ok hashes
  unfolding read_hashes text_of
  read_hashes-texts [] v = refl
  read_hashes-texts (h ∷ hs) (v, vs) = rw (v, read_hashes-texts hs vs) refl

  filter_mine-texts :
      (ids : List Text) (shares : List Share)
      → filter_mine checks ids (map as_element shares) ≡ ok (map as_pair (keep (is_own ids) shares))
  unfolding filter_mine
  filter_mine-texts ids [] = refl
  filter_mine-texts ids (s ∷ ss) = elim (Bool-cases (is_own ids s)) [
    | inl own ↦ rw (own, filter_mine-texts ids ss) refl
    | inr foreign ↦ rw (foreign, filter_mine-texts ids ss) refl
  ]

  bind_share-texts :
      BindsTexts checks
      → (shares : List Share) → map_result (bind_share checks) (map as_pair shares) ≡ ok shares
  unfolding text_of
  bind_share-texts binds [] = refl
  bind_share-texts binds (s ∷ ss) = rw (binds s.ciphertext, bind_share-texts binds ss) refl

  insert_no_shares :
      (hashes : List Text) (now_ms : ℕ) (t : Table) → insert_shares hashes [] now_ms t ≡ t
  unfolding insert_shares
  insert_no_shares hashes now_ms t = ground arith

  store_mine-texts :
      BindsTexts checks
      → (hashes : List Text) (mine : List Share) (now_ms : ℕ) (t : Table)
      → store_mine checks hashes (ok (map as_pair mine)) now_ms t ≡ (
        record { status = 201; body = stored_rows (length hashes * length mine) },
        insert_shares hashes mine now_ms t,
      )
  store_mine-texts binds hashes [] now_ms t =
      rw (insert_no_shares hashes now_ms t)
        (ap (λ n. (record { status = 201; body = stored_rows n }, t)) (omega arith))
  store_mine-texts binds hashes (s ∷ ss) now_ms t = rw (bind_share-texts binds (s ∷ ss)) refl

-- The body that a client sends for hashes and shares that are texts.
abbrev pub shares_body : List Text → List Share → SharesBody
shares_body hashes shares = record {
  commitment_hashes = some (map text hashes);
  encrypted_shares = some (map as_element shares);
}

-- A POST with the secret, of a non-empty list of valid hashes and a non-empty list of shares whose two
-- fields are strings, is answered with 201. It stores, under each hash, the shares whose keeper is one of
-- the process's, and no other; and the count that it answers is the number of hashes times the number of these
-- shares.
pub post_shares-stores :
    (checks : Checks) (binds : BindsTexts checks) (secret : Text) (ids : List Text)
    (auth : Option Text) (hashes : List Text) (shares : List Share) (now_ms : ℕ) (t : Table)
    → has_secret secret auth ≡ true
    → hashes ≢ []
    → All (λ h. checks.is_hash (text h) ≡ true) hashes
    → shares ≢ []
    → post_shares checks secret ids auth (shares_body hashes shares) now_ms t ≡ (
      record {
        status = 201;
        body = stored_rows (length hashes * length (keep (is_own ids) shares));
      },
      insert_shares hashes (keep (is_own ids) shares) now_ms t,
    )
unfolding post_shares
post_shares-stores checks binds secret ids auth [] shares now_ms t good some_hash valid some_share =
    absurd (some_hash refl)
post_shares-stores checks binds secret ids auth (h ∷ hs) [] now_ms t good some_hash valid
      some_share =
    absurd (some_share refl)
post_shares-stores checks binds secret ids auth (h ∷ hs) (s ∷ ss) now_ms t good some_hash valid
      some_share =
    rw (good, read_hashes-texts checks (h ∷ hs) valid, filter_mine-texts checks ids (s ∷ ss))
      (store_mine-texts checks binds (h ∷ hs) (keep (is_own ids) (s ∷ ss)) now_ms t)
