-- ===== src/Shares/Insert.antt =====
-- What a SELECT returns after `insertShares` (keeper/src/store/shares.ts).
use zstrategy.Base.{
  ℕ, ◌/◌, Bool, true, false, not, List, [], ◌∷◌, ◌++◌, map, keep, any, all, arith, if◌then◌else◌,
  ◌≡◌, refl, sym, ap, ◌∙◌, keep-append, inl, inr, Bool-cases,
}
use mathlib.Core.List.{append-nil, append_assoc}
use mathlib.Core.Path.{◌≡⟨◌⟩◌, ◌∎}
use zstrategy.Base.Text.{Text, text_eq, text_eq_iff, text_eq_refl}
use zstrategy.Shares.{
  ShareRow, Share, Table, has_key, has_hash, insert_or_replace, share_row, insert_for, insert_all,
  insert_shares, get_shares_for_commitment,
}

-- The keepers of a list of shares are pairwise different.
abbrev pub names_keeper : Text → List Share → Bool
names_keeper keeper shares = any (λ s. text_eq s.keeper_id keeper) shares

abbrev pub HasDistinctKeepers : List Share → Type 0
HasDistinctKeepers [] = Unit
HasDistinctKeepers (s ∷ ss) = (names_keeper s.keeper_id ss ≡ false) × HasDistinctKeepers ss

-- The rows of keepers that a list of shares does not name.
abbrev pub others : List Share → List ShareRow → List ShareRow
others shares rows = keep (λ r. not (names_keeper r.keeper_id shares)) rows

select-replace :
    (hash keeper : Text) (t : Table)
    → keep (has_hash hash) (keep (λ r. not (has_key hash keeper r)) t)
      ≡ keep (λ r. not (text_eq keeper r.keeper_id)) (keep (has_hash hash) t)
select-replace hash keeper [] = refl
select-replace hash keeper (r ∷ t) = ground (
  arith,
  select-replace hash keeper t,
  text_eq_iff keeper r.keeper_id,
  text_eq_iff r.keeper_id keeper,
)

select-replace_other :
    (hash other keeper : Text) (t : Table)
    → text_eq other hash ≡ false
    → keep (has_hash hash) (keep (λ r. not (has_key other keeper r)) t) ≡ keep (has_hash hash) t
select-replace_other hash other keeper [] h = refl
select-replace_other hash other keeper (r ∷ t) h = ground (
  arith,
  select-replace_other hash other keeper t,
  text_eq_iff r.commitment_hash other,
  text_eq_iff r.commitment_hash hash,
  text_eq_iff other hash,
)

select-insert_or_replace :
    (hash : Text) (now : ℕ) (s : Share) (t : Table)
    → keep (has_hash hash) (insert_or_replace (share_row hash now s) t)
      ≡ keep (λ r. not (text_eq s.keeper_id r.keeper_id)) (keep (has_hash hash) t)
        ++ share_row hash now s ∷ []
unfolding insert_or_replace
select-insert_or_replace hash now s t =
    rw (keep-append, select-replace hash s.keeper_id t) (rw (text_eq_refl hash) refl)

select-insert_for_other :
    (hash other : Text) (now : ℕ) (shares : List Share) (t : Table)
    → text_eq other hash ≡ false
    → keep (has_hash hash) (insert_for other shares now t) ≡ keep (has_hash hash) t
unfolding insert_for insert_or_replace
select-insert_for_other hash other now [] t h = refl
select-insert_for_other hash other now (s ∷ shares) t h =
    select-insert_for_other hash other now shares _ h
    ∙ rw (keep-append, select-replace_other hash other s.keeper_id t h, h) (append-nil _)

-- Filtering by the first keeper and then by the others is filtering by all of them.
others-others :
    (s : Share) (shares : List Share) (rows : List ShareRow)
    → others shares (keep (λ r. not (text_eq s.keeper_id r.keeper_id)) rows)
      ≡ others (s ∷ shares) rows
others-others s shares [] = refl
others-others s shares (r ∷ rows) = ground (arith, others-others s shares rows)

others-nil : (rows : List ShareRow) → others [] rows ≡ rows
others-nil [] = refl
others-nil (r ∷ rows) = ap (λ l. r ∷ l) (others-nil rows)

select-insert_for :
    (hash : Text) (now : ℕ) (shares : List Share) (t : Table)
    → HasDistinctKeepers shares
    → keep (has_hash hash) (insert_for hash shares now t)
      ≡ others shares (keep (has_hash hash) t) ++ map (share_row hash now) shares
unfolding insert_for
select-insert_for hash now [] t d = rw others-nil (sym (append-nil _))
select-insert_for hash now (s ∷ shares) t (fresh, d) =
    let rows : List ShareRow = keep (has_hash hash) t in
    let row : ShareRow = share_row hash now s in
    let older : List ShareRow = keep (λ r. not (text_eq s.keeper_id r.keeper_id)) rows in
    keep (has_hash hash) (insert_for hash shares now (insert_or_replace row t))
    ≡⟨ select-insert_for hash now shares _ d ⟩
      others shares (keep (has_hash hash) (insert_or_replace row t))
      ++ map (share_row hash now) shares
    ≡⟨ ap (λ l. others shares l ++ map (share_row hash now) shares)
        (select-insert_or_replace hash now s t) ⟩
      others shares (older ++ row ∷ []) ++ map (share_row hash now) shares
    ≡⟨ rw (keep-append, fresh, others-others s shares rows)
        (append_assoc (others (s ∷ shares) rows) (row ∷ []) (map (share_row hash now) shares)) ⟩
      others (s ∷ shares) rows ++ row ∷ map (share_row hash now) shares ∎

-- A row just written is of a named keeper.
others-own :
    (hash : Text) (now : ℕ) (shares more : List Share)
    → all (λ s. names_keeper s.keeper_id more) shares ≡ true
    → others more (map (share_row hash now) shares) ≡ []
others-own hash now [] more h = refl
others-own hash now (s ∷ shares) more h = ground (arith, others-own hash now shares more)

all-names_keeper_weaken :
    (s : Share) (shares more : List Share)
    → all (λ r. names_keeper r.keeper_id more) shares ≡ true
    → all (λ r. names_keeper r.keeper_id (s ∷ more)) shares ≡ true
all-names_keeper_weaken s [] more h = refl
all-names_keeper_weaken s (r ∷ shares) more h =
    ground (arith, all-names_keeper_weaken s shares more)

all-names_keeper : (shares : List Share) → all (λ s. names_keeper s.keeper_id shares) shares ≡ true
all-names_keeper [] = refl
all-names_keeper (s ∷ shares) = ground (
  arith,
  text_eq_refl s.keeper_id,
  all-names_keeper_weaken s shares shares (all-names_keeper shares),
)

others_idem :
    (shares : List Share) (rows : List ShareRow)
    → others shares (others shares rows) ≡ others shares rows
others_idem shares [] = refl
others_idem shares (r ∷ rows) = ground (arith, others_idem shares rows)

-- Inserting the same shares once more at the end of their own rows changes nothing.
select-insert_all_again :
    (hash : Text) (now : ℕ) (shares : List Share) (hashes : List Text) (rows : List ShareRow)
    (t : Table)
    → HasDistinctKeepers shares
    → keep (has_hash hash) t ≡ others shares rows ++ map (share_row hash now) shares
    → keep (has_hash hash) (insert_all hashes shares now t)
      ≡ others shares rows ++ map (share_row hash now) shares
unfolding insert_all
select-insert_all_again hash now shares [] rows t d e = e
select-insert_all_again hash now shares (other ∷ hashes) rows t d e =
    select-insert_all_again hash now shares hashes rows _ d
      (elim (Bool-cases (text_eq other hash)) [
        | inl same ↦
            let e' : other ≡ hash = (text_eq_iff other hash).0 same in
            rw e' (
              select-insert_for hash now shares t d
              ∙ rw
                  (
                    e,
                    keep-append,
                    others_idem shares rows,
                    others-own hash now shares shares (all-names_keeper shares),
                  )
                  (ap (λ l. l ++ map (share_row hash now) shares) (append-nil _)))
        | inr differs ↦ select-insert_for_other hash other now shares t differs ∙ e
      ])

select-insert_all :
    (hash : Text) (now : ℕ) (shares : List Share) (hashes : List Text) (t : Table)
    → HasDistinctKeepers shares
    → keep (has_hash hash) (insert_all hashes shares now t) ≡ (
        if any (λ h. text_eq h hash) hashes
        then others shares (keep (has_hash hash) t) ++ map (share_row hash now) shares
        else keep (has_hash hash) t)
unfolding insert_all
select-insert_all hash now shares [] t d = refl
select-insert_all hash now shares (other ∷ hashes) t d = elim (Bool-cases (text_eq other hash)) [
  | inl same ↦
      let e : other ≡ hash = (text_eq_iff other hash).0 same in
      rw (same, e)
        (select-insert_all_again hash now shares hashes (keep (has_hash hash) t) _ d
          (select-insert_for hash now shares t d))
  | inr differs ↦ rw (
    differs,
    select-insert_all hash now shares hashes (insert_for other shares now t) d,
    select-insert_for_other hash other now shares t differs,
  )
]

empty_insert : (b : Bool) (rows : List ShareRow) → rows ≡ (if b then others [] rows ++ [] else rows)
empty_insert true rows = rw others-nil (sym (append-nil rows))
empty_insert false rows = refl

insert_shares_nothing :
    (hashes : List Text) (now_ms : ℕ) (t : Table) → insert_shares hashes [] now_ms t ≡ t
unfolding insert_shares
insert_shares_nothing hashes now_ms t = ground arith

insert_shares_something :
    (h : Text) (s : Share) (hashes : List Text) (shares : List Share) (now_ms : ℕ) (t : Table)
    → insert_shares (h ∷ hashes) (s ∷ shares) now_ms t
      ≡ insert_all (h ∷ hashes) (s ∷ shares) (now_ms / 1000) t
unfolding insert_shares
insert_shares_something h s hashes shares now_ms t = ground arith

-- The rows that the store returns for a commitment after `insertShares`, for shares of pairwise
-- different keepers: if the commitment is among the hashes, the rows that it had of the keepers
-- that the shares do not name, and then one row for each share, in the order of the shares, with
-- the time in seconds; else the rows that it had. So a share that is sent again replaces the old one, and hashes that are
-- listed twice make no difference.
pub get-insert_shares :
    (hash : Text) (hashes : List Text) (shares : List Share) (now_ms : ℕ) (t : Table)
    → HasDistinctKeepers shares
    → get_shares_for_commitment hash (insert_shares hashes shares now_ms t) ≡ (
        if any (λ h. text_eq h hash) hashes
        then others shares (get_shares_for_commitment hash t)
          ++ map (share_row hash (now_ms / 1000)) shares
        else get_shares_for_commitment hash t)
unfolding get_shares_for_commitment insert_shares
get-insert_shares hash [] shares now_ms t d = refl
get-insert_shares hash (h ∷ hashes) [] now_ms t d =
    rw (insert_shares_nothing (h ∷ hashes) now_ms t)
      (empty_insert (any (λ x. text_eq x hash) (h ∷ hashes)) (keep (has_hash hash) t))
get-insert_shares hash (h ∷ hashes) (s ∷ shares) now_ms t d =
    rw (insert_shares_something h s hashes shares now_ms t)
      (select-insert_all hash (now_ms / 1000) (s ∷ shares) (h ∷ hashes) t d)
