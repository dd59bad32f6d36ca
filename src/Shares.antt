-- ===== src/Shares.antt =====
-- keeper/src/store/shares.ts over the table of keeper/src/store/db.ts: the encrypted shares, one
-- row for each pair of a commitment and a keeper. The table is the list of its rows in the order
-- in which a SELECT returns them; the SQL statements are read by their meaning on that list.
pub mod Insert
pub mod Keys
use zstrategy.Base.{
  ℕ, ◌/◌, Bool, not, ◌&&◌, ◌||◌, List, [], ◌∷◌, ◌++◌, Option, length, keep, find, if◌then◌else◌,
  ◌==◌,
}
use zstrategy.Base.Text.{Text, text_eq}

pub record ShareRow : Type 0 where
  pub commitment_hash : Text
  pub keeper_id : Text
  pub ciphertext : Text
  pub received_at : ℕ

-- `{ keeperId, ciphertext }`, as a client sends it.
pub record Share : Type 0 where
  pub keeper_id : Text
  pub ciphertext : Text

abbrev pub Table : Type 0
Table = List ShareRow

-- PRIMARY KEY (commitment_hash, keeper_id)
abbrev pub has_key : Text → Text → ShareRow → Bool
has_key hash keeper r = text_eq r.commitment_hash hash && text_eq r.keeper_id keeper

abbrev pub has_hash : Text → ShareRow → Bool
has_hash hash r = text_eq r.commitment_hash hash

-- INSERT OR REPLACE: a row with the same key goes, and the new row comes last.
unfoldable pub insert_or_replace : ShareRow → Table → Table
insert_or_replace row t =
    keep (λ r. not (has_key row.commitment_hash row.keeper_id r)) t ++ row ∷ []

abbrev pub share_row : Text → ℕ → Share → ShareRow
share_row hash now r = record {
  commitment_hash = hash;
  keeper_id = r.keeper_id;
  ciphertext = r.ciphertext;
  received_at = now;
}

-- The inner and the outer loop of the transaction.
unfoldable pub insert_for : Text → List Share → ℕ → Table → Table
insert_for hash [] now t = t
insert_for hash (r ∷ shares) now t =
    insert_for hash shares now (insert_or_replace (share_row hash now r) t)

unfoldable pub insert_all : List Text → List Share → ℕ → Table → Table
insert_all [] shares now t = t
insert_all (hash ∷ hashes) shares now t =
    insert_all hashes shares now (insert_for hash shares now t)

-- `now_ms` is what Date.now() gives.
unfoldable pub insert_shares : List Text → List Share → ℕ → Table → Table
insert_shares hashes shares now_ms t =
    if length hashes == 0 || length shares == 0
    then t
    else insert_all hashes shares (now_ms / 1000) t

-- The table without the rows of the commitment, and how many there were.
unfoldable pub delete_shares_for_commitment : Text → Table → Table × ℕ
delete_shares_for_commitment hash t =
    (keep (λ r. not (has_hash hash r)) t, length (keep (has_hash hash) t))

unfoldable pub get_shares_for_commitment : Text → Table → List ShareRow
get_shares_for_commitment hash t = keep (has_hash hash) t

-- The row with a key, as the primary key's index finds it.
abbrev pub row_at : Text → Text → Table → Option ShareRow
row_at hash keeper t = find (has_key hash keeper) t
