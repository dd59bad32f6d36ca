-- ===== src/ShareApi.antt =====
-- keeper/src/api/server.ts: requireSecret, and the handlers of POST /api/shares and DELETE
-- /api/shares/:commitmentHash over the share table. A handler maps the table to a response and the
-- table after it. `ethers.isHexString(·, 32)` and what better-sqlite3 makes of a value that is bound to a
-- TEXT column are parameters.
pub mod Requests
pub mod Storing
use zstrategy.Base.{
  ℕ, ◌*◌, Bool, true, false, not, List, [], ◌∷◌, ◌++◌, Option, none, some, map, any, keep, length,
  if◌then◌else◌, ◌==◌,
}
use zstrategy.Base.Text.{Text, codes, text_eq}
use zstrategy.Base.Result.{Result, ok, throw, ◌>>=◌, map_result}
use zstrategy.Js.{Value, text, text_of}
use zstrategy.Shares.{Table, Share, insert_shares, delete_shares_for_commitment}

-- A response: its status, and its body by its fields.
pub data Body : Type 0 where
  error : Text → Body
  stored_rows : ℕ → Body
  removed_rows : ℕ → Body
  -- { status: "executing", commitmentHash }
  executing : Text → Body

pub record Response : Type 0 where
  pub status : ℕ
  pub body : Body

abbrev pub respond : ℕ → Text → Response
respond status message = record { status = status; body = error message }

-- The checks of packages.
pub record Checks : Type 0 where
  -- `ethers.isHexString(x, 32)`
  pub is_hash : Value → Bool
  -- a value bound to a TEXT column, which better-sqlite3 refuses by an exception
  pub bind_text : Value → Result Text

-- `auth !== "Bearer …"`, for the header or "".
abbrev pub header_text : Option Text → Text
header_text none = []
header_text (some auth) = auth

unfoldable pub has_secret : Text → Option Text → Bool
has_secret secret auth = text_eq (header_text auth) (codes "Bearer " ++ secret)

-- requireSecret before a handler.
abbrev pub require_secret : Text → Option Text → Table → Response × Table → Response × Table
require_secret secret auth t next =
    if has_secret secret auth then next else (respond 401 (codes "Unauthorized"), t)

-- An element of `encryptedShares`: null, or a value with what its two properties read as.
pub data Element : Type 0 where
  null_element : Element
  element : Value → Value → Element

-- The body of POST /api/shares; `none` stands for a value that is no array.
pub record SharesBody : Type 0 where
  pub commitment_hashes : Option (List Value)
  pub encrypted_shares : Option (List Element)

module _ (checks : Checks) where
  -- `typeof h !== "string" || !isHexString(h, 32)`
  abbrev pub is_commitment_hash : Value → Bool
  is_commitment_hash (text h) = checks.is_hash (text h)
  is_commitment_hash _ = false

  -- The loop over the hashes: the hashes as texts, or the message for the first that is none.
  unfoldable pub read_hashes : List Value → Result (List Text)
  read_hashes [] = ok []
  read_hashes (h ∷ hs) =
      let rest = read_hashes hs in
      if is_commitment_hash h
      then (rest >>= λ hashes. ok (text_of h ∷ hashes))
      else throw (codes "Invalid commitmentHash: " ++ text_of h)

  abbrev pub is_mine : List Text → Value → Bool
  is_mine ids (text id) = any (λ i. text_eq i id) ids
  is_mine ids _ = false

  abbrev pub add_if : Bool → Value → Value → List (Value × Value) → List (Value × Value)
  add_if true id ciphertext rest = (id, ciphertext) ∷ rest
  add_if false id ciphertext rest = rest

  -- The filter by `myIds.has(s.keeperId)`, which throws at null.
  unfoldable pub filter_mine : List Text → List Element → Result (List (Value × Value))
  filter_mine ids [] = ok []
  filter_mine ids (null_element ∷ es) =
      throw (codes "TypeError: Cannot read properties of null (reading 'keeperId')")
  filter_mine ids (element id ciphertext ∷ es) =
      filter_mine ids es >>= λ rest. ok (add_if (is_mine ids id) id ciphertext rest)

  -- A share as the INSERT binds it.
  abbrev pub bind_share : Value × Value → Result Share
  bind_share (id, ciphertext) = do
    c ← checks.bind_text ciphertext
    ok (record { keeper_id = text_of id; ciphertext = c })

  -- An exception in the handler: the framework answers 500, and the transaction has been rolled back.
  abbrev pub insert_bound : List Text → Result (List Share) → ℕ → Table → Response × Table
  insert_bound hashes (throw m) now_ms t = (respond 500 m, t)
  insert_bound hashes (ok shares) now_ms t = (
    record { status = 201; body = stored_rows (length hashes * length shares) },
    insert_shares hashes shares now_ms t,
  )

  abbrev pub store_mine : List Text → Result (List (Value × Value)) → ℕ → Table → Response × Table
  store_mine hashes (throw m) now_ms t = (respond 500 m, t)
  store_mine hashes (ok []) now_ms t = (record { status = 201; body = stored_rows 0 }, t)
  store_mine hashes (ok (s ∷ ss)) now_ms t =
      insert_bound hashes (map_result bind_share (s ∷ ss)) now_ms t

  abbrev pub no_shares : Text
  no_shares = codes "encryptedShares must be a non-empty array"

  abbrev pub store_elements :
      List Text → List Text → Option (List Element) → ℕ → Table → Response × Table
  store_elements ids hashes none now_ms t = (respond 400 no_shares, t)
  store_elements ids hashes (some []) now_ms t = (respond 400 no_shares, t)
  store_elements ids hashes (some (e ∷ es)) now_ms t =
      store_mine hashes (filter_mine ids (e ∷ es)) now_ms t

  abbrev pub with_hashes :
      List Text → Result (List Text) → Option (List Element) → ℕ → Table → Response × Table
  with_hashes ids (throw m) shares now_ms t = (respond 400 m, t)
  with_hashes ids (ok hashes) shares now_ms t = store_elements ids hashes shares now_ms t

  abbrev pub no_hashes : Text
  no_hashes = codes "commitmentHashes must be a non-empty array"

  abbrev pub store_for :
      List Text → Option (List Value) → Option (List Element) → ℕ → Table → Response × Table
  store_for ids none shares now_ms t = (respond 400 no_hashes, t)
  store_for ids (some []) shares now_ms t = (respond 400 no_hashes, t)
  store_for ids (some (h ∷ hs)) shares now_ms t =
      with_hashes ids (read_hashes (h ∷ hs)) shares now_ms t

  -- POST /api/shares; `ids` are those of `publicKeyset()`.
  unfoldable pub post_shares :
      Text → List Text → Option Text → SharesBody → ℕ → Table → Response × Table
  post_shares secret ids auth body now_ms t =
      require_secret secret auth t
        (store_for ids body.commitment_hashes body.encrypted_shares now_ms t)

  abbrev pub answer_removed : Table × ℕ → Response × Table
  answer_removed (t, n) = (record { status = 200; body = removed_rows n }, t)

  -- DELETE /api/shares/:commitmentHash
  unfoldable pub delete_shares : Text → Option Text → Text → Table → Response × Table
  delete_shares secret auth hash t = require_secret secret auth t (
      if checks.is_hash (text hash)
      then answer_removed (delete_shares_for_commitment hash t)
      else (respond 400 (codes "Invalid commitmentHash"), t))

  -- The requests that reach the table.
  pub data TableRequest : Type 0 where
    post : Option Text → SharesBody → ℕ → TableRequest
    delete : Option Text → Text → TableRequest

  unfoldable pub serve : Text → List Text → TableRequest → Table → Response × Table
  serve secret ids (post auth body now_ms) t = post_shares secret ids auth body now_ms t
  serve secret ids (delete auth hash) t = delete_shares secret auth hash t

  -- The table after the requests, in their order.
  unfoldable pub serve_all : Text → List Text → List TableRequest → Table → Table
  serve_all secret ids [] t = t
  serve_all secret ids (r ∷ rs) t = serve_all secret ids rs (serve secret ids r t).1
