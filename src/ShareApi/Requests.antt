-- ===== src/ShareApi/Requests.antt =====
-- What the requests of the backend do to the share table (keeper/src/api/server.ts).
use zstrategy.Base.{
  ℕ, false, List, [], ◌∷◌, Option, none, some, All, ◌≡◌, ◌≢◌, refl, inl, inr, Bool-cases,
}
use zstrategy.Base.Text.{Text}
use zstrategy.Base.Result.{Result, ok, throw, map_result, Result-cases}
use zstrategy.Js.{Value, text}
use zstrategy.Shares.{Table, Share, insert_shares}
use zstrategy.Shares.Keys.{HasUniqueKeys, insert_shares-HasUniqueKeys, delete_shares_lem}
use zstrategy.ShareApi.{
  Checks, has_secret, Element, SharesBody, read_hashes, filter_mine, bind_share, store_mine,
  store_elements, store_for, post_shares, delete_shares, TableRequest, post, delete, serve,
  serve_all,
}

module _ (checks : Checks) where
  -- Only a request that is answered with 201 changes the table.
  store_mine-refused :
      (hashes : List Text) (mine : Result (List (Value × Value))) (now_ms : ℕ) (t : Table)
      → (store_mine checks hashes mine now_ms t).0.status ≢ 201
      → (store_mine checks hashes mine now_ms t).1 ≡ t
  store_mine-refused hashes (throw m) now_ms t h = refl
  store_mine-refused hashes (ok []) now_ms t h = refl
  store_mine-refused hashes (ok (s ∷ ss)) now_ms t h =
      elim (Result-cases (map_result (bind_share checks) (s ∷ ss))) [
        | inl (shares, e) ↦ absurd (h (rw e refl))
        | inr (m, e) ↦ rw e refl
      ]

  store_elements-refused :
      (ids hashes : List Text) (shares : Option (List Element)) (now_ms : ℕ) (t : Table)
      → (store_elements checks ids hashes shares now_ms t).0.status ≢ 201
      → (store_elements checks ids hashes shares now_ms t).1 ≡ t
  store_elements-refused ids hashes none now_ms t h = refl
  store_elements-refused ids hashes (some []) now_ms t h = refl
  store_elements-refused ids hashes (some (e ∷ es)) now_ms t h =
      store_mine-refused hashes (filter_mine checks ids (e ∷ es)) now_ms t h

  store_for-refused :
      (ids : List Text) (hashes : Option (List Value)) (shares : Option (List Element)) (now_ms : ℕ)
      (t : Table)
      → (store_for checks ids hashes shares now_ms t).0.status ≢ 201
      → (store_for checks ids hashes shares now_ms t).1 ≡ t
  store_for-refused ids none shares now_ms t h = refl
  store_for-refused ids (some []) shares now_ms t h = refl
  store_for-refused ids (some (v ∷ vs)) shares now_ms t h =
      elim (Result-cases (read_hashes checks (v ∷ vs))) [
        | inl (hashes, e) ↦ rw e (store_elements-refused ids hashes shares now_ms t (rw e at h))
        | inr (m, e) ↦ rw e refl
      ]

-- A POST that is answered with another status than 201 leaves the table as it was: a wrong secret, a
-- malformed body, and an exception on the way.
pub post_shares-refused :
    (checks : Checks) (secret : Text) (ids : List Text) (auth : Option Text) (body : SharesBody)
    (now_ms : ℕ) (t : Table)
    → (post_shares checks secret ids auth body now_ms t).0.status ≢ 201
    → (post_shares checks secret ids auth body now_ms t).1 ≡ t
unfolding post_shares
post_shares-refused checks secret ids auth body now_ms t h =
    elim (Bool-cases (has_secret secret auth)) [
      | inl good ↦ rw good (
          store_for-refused checks ids body.commitment_hashes body.encrypted_shares now_ms t
            (rw good at h))
      | inr bad ↦ rw bad refl
    ]

module _ (checks : Checks) where
  -- What `store_for` leaves has a property that storing any shares keeps.
  module _ (P : Table → Type 0)
      (stores : (hashes : List Text) (shares : List Share) (now_ms : ℕ) (t : Table)
        → P t
        → P (insert_shares hashes shares now_ms t)) where
    store_mine_keeps :
        (hashes : List Text) (mine : Result (List (Value × Value))) (now_ms : ℕ) (t : Table)
        → P t
        → P (store_mine checks hashes mine now_ms t).1
    store_mine_keeps hashes (throw m) now_ms t p = p
    store_mine_keeps hashes (ok []) now_ms t p = p
    store_mine_keeps hashes (ok (s ∷ ss)) now_ms t p =
        elim (Result-cases (map_result (bind_share checks) (s ∷ ss))) [
          | inl (shares, e) ↦ rw e (stores hashes shares now_ms t p)
          | inr (m, e) ↦ rw e p
        ]

    store_elements_keeps :
        (ids hashes : List Text) (shares : Option (List Element)) (now_ms : ℕ) (t : Table)
        → P t
        → P (store_elements checks ids hashes shares now_ms t).1
    store_elements_keeps ids hashes none now_ms t p = p
    store_elements_keeps ids hashes (some []) now_ms t p = p
    store_elements_keeps ids hashes (some (e ∷ es)) now_ms t p =
        store_mine_keeps hashes (filter_mine checks ids (e ∷ es)) now_ms t p

    store_for_keeps :
        (ids : List Text) (hashes : Option (List Value)) (shares : Option (List Element))
        (now_ms : ℕ) (t : Table)
        → P t
        → P (store_for checks ids hashes shares now_ms t).1
    store_for_keeps ids none shares now_ms t p = p
    store_for_keeps ids (some []) shares now_ms t p = p
    store_for_keeps ids (some (v ∷ vs)) shares now_ms t p =
        elim (Result-cases (read_hashes checks (v ∷ vs))) [
          | inl (hashes, e) ↦ rw e (store_elements_keeps ids hashes shares now_ms t p)
          | inr (m, e) ↦ rw e p
        ]

  serve-HasUniqueKeys :
      (secret : Text) (ids : List Text) (r : TableRequest checks) (t : Table)
      → HasUniqueKeys t
      → HasUniqueKeys (serve checks secret ids r t).1
  unfolding serve post_shares delete_shares
  serve-HasUniqueKeys secret ids (post auth body now_ms) t u =
      elim (Bool-cases (has_secret secret auth)) [
        | inl good ↦ rw good (
            store_for_keeps HasUniqueKeys insert_shares-HasUniqueKeys ids body.commitment_hashes
              body.encrypted_shares now_ms t u)
        | inr bad ↦ rw bad u
      ]
  serve-HasUniqueKeys secret ids (delete auth hash) t u =
      elim (Bool-cases (has_secret secret auth)) [
        | inl good ↦ elim (Bool-cases (checks.is_hash (text hash))) [
          | inl valid ↦ rw (good, valid) ((delete_shares_lem hash hash t u).2)
          | inr invalid ↦ rw (good, invalid) u
        ]
        | inr bad ↦ rw bad u
      ]

-- Whatever requests arrive, well-formed or not and in any order, no two rows of the table have the
-- same commitment and keeper.
pub serve_all-HasUniqueKeys :
    (checks : Checks) (secret : Text) (ids : List Text) (rs : List (TableRequest checks))
    (t : Table)
    → HasUniqueKeys t
    → HasUniqueKeys (serve_all checks secret ids rs t)
unfolding serve_all
serve_all-HasUniqueKeys checks secret ids [] t u = u
serve_all-HasUniqueKeys checks secret ids (r ∷ rs) t u =
    serve_all-HasUniqueKeys checks secret ids rs _ (serve-HasUniqueKeys checks secret ids r t u)

abbrev pub LacksSecret : (checks : Checks) → Text → TableRequest checks → Type 0
LacksSecret checks secret (post auth body now_ms) = has_secret secret auth ≡ false
LacksSecret checks secret (delete auth hash) = has_secret secret auth ≡ false

-- Requests without the secret, however many, leave the table as it was.
pub serve_all-unauthorized :
    (checks : Checks) (secret : Text) (ids : List Text) (rs : List (TableRequest checks))
    (t : Table)
    → All (LacksSecret checks secret) rs
    → serve_all checks secret ids rs t ≡ t
unfolding serve_all serve post_shares delete_shares
serve_all-unauthorized checks secret ids [] t bad = refl
serve_all-unauthorized checks secret ids (post auth body now_ms ∷ rs) t (bad, more) =
    rw bad (serve_all-unauthorized checks secret ids rs t more)
serve_all-unauthorized checks secret ids (delete auth hash ∷ rs) t (bad, more) =
    rw bad (serve_all-unauthorized checks secret ids rs t more)
