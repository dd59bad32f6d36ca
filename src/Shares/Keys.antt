-- ===== src/Shares/Keys.antt =====
-- The primary key of the share table, and what DELETE does (keeper/src/store/shares.ts, db.ts).
use zstrategy.Base.{
  ℕ, ◌+◌, ◌/◌, false, not, List, [], ◌∷◌, ◌++◌, none, length, keep, arith, if◌then◌else◌, ◌≡◌, refl,
}
use zstrategy.Base.Text.{Text, text_eq, text_eq_iff}
use zstrategy.Shares.{
  ShareRow, Share, Table, has_key, has_hash, insert_or_replace, share_row, insert_for, insert_all,
  insert_shares, delete_shares_for_commitment, get_shares_for_commitment, row_at,
}

-- No two rows have the same key.
abbrev pub HasUniqueKeys : Table → Type 0
HasUniqueKeys [] = Unit
HasUniqueKeys (r ∷ t) = (row_at r.commitment_hash r.keeper_id t ≡ none) × HasUniqueKeys t

find-keep_ne :
    (hash keeper other name : Text) (t : Table)
    → row_at hash keeper t ≡ none
    → row_at hash keeper (keep (λ r. not (has_key other name r)) t) ≡ none
find-keep_ne hash keeper other name [] h = refl
find-keep_ne hash keeper other name (r ∷ t) h =
    ground (arith, find-keep_ne hash keeper other name t)

row_at-keep_self :
    (hash keeper : Text) (t : Table)
    → row_at hash keeper (keep (λ r. not (has_key hash keeper r)) t) ≡ none
row_at-keep_self hash keeper [] = refl
row_at-keep_self hash keeper (r ∷ t) = ground (arith, row_at-keep_self hash keeper t)

row_at-append_one :
    (hash keeper : Text) (t : Table) (row : ShareRow)
    → row_at hash keeper t ≡ none
    → has_key hash keeper row ≡ false
    → row_at hash keeper (t ++ row ∷ []) ≡ none
row_at-append_one hash keeper [] row h k = ground arith
row_at-append_one hash keeper (r ∷ t) row h k = ground (arith, row_at-append_one hash keeper t row)

HasUniqueKeys-keep :
    (hash keeper : Text) (t : Table)
    → HasUniqueKeys t
    → HasUniqueKeys (keep (λ r. not (has_key hash keeper r)) t)
HasUniqueKeys-keep hash keeper [] u = tt
HasUniqueKeys-keep hash keeper (r ∷ t) (fresh, u) = ground (
  arith,
  HasUniqueKeys-keep hash keeper t u,
  find-keep_ne r.commitment_hash r.keeper_id hash keeper t fresh,
)

has_key_sym :
    (row r : ShareRow)
    → has_key row.commitment_hash row.keeper_id r ≡ false
    → has_key r.commitment_hash r.keeper_id row ≡ false
has_key_sym row r h = ground (
  arith,
  text_eq_iff row.commitment_hash r.commitment_hash,
  text_eq_iff r.commitment_hash row.commitment_hash,
  text_eq_iff row.keeper_id r.keeper_id,
  text_eq_iff r.keeper_id row.keeper_id,
)

HasUniqueKeys-append_one :
    (t : Table) (row : ShareRow)
    → HasUniqueKeys t
    → row_at row.commitment_hash row.keeper_id t ≡ none
    → HasUniqueKeys (t ++ row ∷ [])
HasUniqueKeys-append_one [] row u h = (refl, tt)
HasUniqueKeys-append_one (r ∷ t) row (fresh, u) h = (
  row_at-append_one r.commitment_hash r.keeper_id t row fresh
      (has_key_sym row r (ground (arith, h))),
  HasUniqueKeys-append_one t row u (ground (arith, h)),
)

insert_or_replace-HasUniqueKeys :
    (row : ShareRow) (t : Table) → HasUniqueKeys t → HasUniqueKeys (insert_or_replace row t)
unfolding insert_or_replace
insert_or_replace-HasUniqueKeys row t u =
    HasUniqueKeys-append_one (keep (λ r. not (has_key row.commitment_hash row.keeper_id r)) t) row
      (HasUniqueKeys-keep row.commitment_hash row.keeper_id t u)
      (row_at-keep_self row.commitment_hash row.keeper_id t)

insert_for-HasUniqueKeys :
    (hash : Text) (shares : List Share) (now : ℕ) (t : Table)
    → HasUniqueKeys t
    → HasUniqueKeys (insert_for hash shares now t)
unfolding insert_for
insert_for-HasUniqueKeys hash [] now t u = u
insert_for-HasUniqueKeys hash (s ∷ shares) now t u =
    insert_for-HasUniqueKeys hash shares now _
      (insert_or_replace-HasUniqueKeys (share_row hash now s) t u)

insert_all-HasUniqueKeys :
    (hashes : List Text) (shares : List Share) (now : ℕ) (t : Table)
    → HasUniqueKeys t
    → HasUniqueKeys (insert_all hashes shares now t)
unfolding insert_all
insert_all-HasUniqueKeys [] shares now t u = u
insert_all-HasUniqueKeys (hash ∷ hashes) shares now t u =
    insert_all-HasUniqueKeys hashes shares now _ (insert_for-HasUniqueKeys hash shares now t u)

-- Storing shares keeps the keys of the table's rows pairwise different, whatever hashes and shares
-- a client sends, keepers named twice included.
pub insert_shares-HasUniqueKeys :
    (hashes : List Text) (shares : List Share) (now_ms : ℕ) (t : Table)
    → HasUniqueKeys t
    → HasUniqueKeys (insert_shares hashes shares now_ms t)
unfolding insert_shares
insert_shares-HasUniqueKeys hashes shares now_ms t u =
    ground (arith, insert_all-HasUniqueKeys hashes shares (now_ms / 1000) t u)

row_at-keep_hash :
    (hash keeper gone : Text) (t : Table)
    → row_at hash keeper t ≡ none
    → row_at hash keeper (keep (λ r. not (has_hash gone r)) t) ≡ none
row_at-keep_hash hash keeper gone [] h = refl
row_at-keep_hash hash keeper gone (r ∷ t) h = ground (arith, row_at-keep_hash hash keeper gone t)

delete-HasUniqueKeys :
    (hash : Text) (t : Table)
    → HasUniqueKeys t
    → HasUniqueKeys (keep (λ r. not (has_hash hash r)) t)
delete-HasUniqueKeys hash [] u = tt
delete-HasUniqueKeys hash (r ∷ t) (fresh, u) = ground (
  arith,
  delete-HasUniqueKeys hash t u,
  row_at-keep_hash r.commitment_hash r.keeper_id hash t fresh,
)

select-delete :
    (hash other : Text) (t : Table)
    → keep (has_hash other) (keep (λ r. not (has_hash hash r)) t)
      ≡ (if text_eq other hash then [] else keep (has_hash other) t)
select-delete hash other [] = ground arith
select-delete hash other (r ∷ t) = ground (
  arith,
  select-delete hash other t,
  text_eq_iff other hash,
  text_eq_iff r.commitment_hash hash,
  text_eq_iff r.commitment_hash other,
)

count-delete :
    (hash : Text) (t : Table)
    → length (keep (λ r. not (has_hash hash r)) t) + length (keep (has_hash hash) t) ≡ length t
count-delete hash [] = omega arith
count-delete hash (r ∷ t) = ground (arith, count-delete hash t)

-- Deleting the shares of a commitment leaves no row of it and every row of each other commitment,
-- in the same order; the count returned is the number of rows that went; and the keys stay
-- pairwise different.
pub delete_shares_lem :
    (hash other : Text) (t : Table)
    → HasUniqueKeys t
    → (get_shares_for_commitment other (delete_shares_for_commitment hash t).0
        ≡ (if text_eq other hash then [] else get_shares_for_commitment other t))
      × (length (delete_shares_for_commitment hash t).0 + (delete_shares_for_commitment hash t).1
          ≡ length t)
      × HasUniqueKeys (delete_shares_for_commitment hash t).0
unfolding get_shares_for_commitment delete_shares_for_commitment
delete_shares_lem hash other t u =
    (select-delete hash other t, count-delete hash t, delete-HasUniqueKeys hash t u)
