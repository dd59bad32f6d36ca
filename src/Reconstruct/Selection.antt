-- ===== src/Reconstruct/Selection.antt =====
-- Which shares `reconstructUserSecret` combines, and when it gives up.
use zstrategy.Base.{
  ℕ, zero, suc, ◌+◌, ◌-◌, ◌≤◌, ◌<◌, List, [], ◌∷◌, ◌++◌, none, some, length, take, filter_map, ltb,
  if◌then◌else◌, ◌≡◌, refl, ap, sym, ◌∙◌, ◌↔◌, arith, inl, inr, Bool-cases, Option-cases,
  length-take, length-append,
}
use mathlib.Core.List.{append-nil, append_assoc}
use zstrategy.Base.Text.{Text, codes}
use zstrategy.Base.Digits.Hex.{bytes_to_hex}
use zstrategy.Base.Result.{Result, ok, throw, ◌>>=◌, >>=-eq-ok}
use zstrategy.Shares.{ShareRow, Table, get_shares_for_commitment}
use zstrategy.Keys.{Ecies, KeeperKeypair}
use zstrategy.Reconstruct.{
  Shamir, checked_secret, decrypt_row, collect, reconstruct_user_secret, not_enough_shares,
  insufficient_shares,
}

take-nil : {A : Type 0} (n : ℕ) → take {A = A} n [] ≡ []
take-nil zero = refl
take-nil (suc n) = refl

take-zero_of : {A : Type 0} (n : ℕ) (xs : List A) → n ≡ 0 → take n xs ≡ []
take-zero_of zero xs h = refl
take-zero_of (suc n) xs h = absurd (omega arith)

take_one_more :
    {A : Type 0} (n : ℕ) (x : A) (xs : List A) → 0 < n → take n (x ∷ xs) ≡ x ∷ take (n - 1) xs
take_one_more zero x xs h = absurd (omega arith)
take_one_more (suc n) x xs h = let p : suc n - 1 ≡ n = omega arith in rw p

module _ (e : Ecies) (keys : List (KeeperKeypair e)) where
  -- The shares of the rows that decrypt, in the order of the rows.
  abbrev pub decryptable : List ShareRow → List (List ℕ)
  decryptable rows = filter_map (decrypt_row e keys) rows

  pub decryptable_skip :
      (row : ShareRow) (rows : List ShareRow)
      → decrypt_row e keys row ≡ none
      → decryptable (row ∷ rows) ≡ decryptable rows
  decryptable_skip row rows h = ground arith

  pub decryptable_found :
      (row : ShareRow) (rows : List ShareRow) (plain : List ℕ)
      → decrypt_row e keys row ≡ some plain
      → decryptable (row ∷ rows) ≡ plain ∷ decryptable rows
  decryptable_found row rows plain h = ground arith

  length-push :
      (done : List (List ℕ)) (plain : List ℕ) → length (done ++ plain ∷ []) ≡ length done + 1
  length-push done plain = omega (arith, length-append {0} done (plain ∷ []))

  collect_lem :
      (k : ℕ) (rows : List ShareRow) (done : List (List ℕ))
      → collect e k keys rows done ≡ done ++ take (k - length done) (decryptable rows)
  unfolding collect
  collect_lem k [] done = rw (take-nil (k - length done)) (sym (append-nil done))
  collect_lem k (row ∷ rows) done = elim (Bool-cases (ltb (length done) k)) [
    | inl more ↦ elim (Option-cases (decrypt_row e keys row)) [
      | inl skipped ↦
          rw (more, skipped, decryptable_skip row rows skipped) (collect_lem k rows done)
      | inr (plain, found) ↦
          rw
            (
              more,
              found,
              decryptable_found row rows plain found,
              take_one_more (k - length done) plain (decryptable rows) (ground arith),
            )
            (collect_lem k rows (done ++ plain ∷ [])
              ∙ rw
                  (
                    length-push done plain,
                    append_assoc done (plain ∷ [])
                        (take (k - (length done + 1)) (decryptable rows)),
                  )
                  (ap (λ n. done ++ plain ∷ take n (decryptable rows)) (omega arith)))
    ]
    | inr enough ↦
        rw (enough, take-zero_of (k - length done) (decryptable (row ∷ rows)) (ground arith))
          (sym (append-nil done))
  ]

  collect-eq-take :
      (k : ℕ) (rows : List ShareRow) → collect e k keys rows [] ≡ take k (decryptable rows)
  collect-eq-take k rows = collect_lem k rows [] ∙ ap (λ n. take n (decryptable rows)) (omega arith)

  length-decryptable : (rows : List ShareRow) → length (decryptable rows) ≤ length rows
  length-decryptable [] = omega arith
  length-decryptable (row ∷ rows) = elim (Option-cases (decrypt_row e keys row)) [
    | inl skipped ↦ rw (decryptable_skip row rows skipped) (omega (arith, length-decryptable rows))
    | inr (plain, found) ↦
        rw (decryptable_found row rows plain found) (omega (arith, length-decryptable rows))
  ]

-- The tests of the function for `have` rows and the shares that were decrypted.
abbrev tests_of : Shamir → ℕ → ℕ → List (List ℕ) → Text → Text → Result Text
tests_of shamir k have decrypted few insufficient =
    if ltb have k
    then throw few
    else if ltb (length decrypted) k
    then throw insufficient
    else (shamir.combine decrypted >>= checked_secret)

checked_secret-eq-ok :
    (bytes : List ℕ) (secret : Text)
    → checked_secret bytes ≡ ok secret
    → (length bytes ≡ 32) × (secret ≡ codes "0x" ++ bytes_to_hex bytes)
checked_secret-eq-ok bytes secret h = ground arith

tests_sound :
    (shamir : Shamir) (k have : ℕ) (ds : List (List ℕ)) (few insufficient secret : Text)
    → tests_of shamir k have ds few insufficient ≡ ok secret
    → (k ≤ length ds)
      × ((bytes : List ℕ) × (shamir.combine ds ≡ ok bytes)
          × (length bytes ≡ 32)
          × (secret ≡ codes "0x" ++ bytes_to_hex bytes))
tests_sound shamir k have ds few insufficient secret h =
    let (bytes, combined, checked) =
      >>=-eq-ok (shamir.combine ds) checked_secret {b = secret} (ground arith) in
    let (len, same) = checked_secret-eq-ok bytes secret checked in
    (ground arith, (bytes, combined, len, same))

tests_complete :
    (shamir : Shamir) (k have : ℕ) (ds : List (List ℕ)) (few insufficient secret : Text)
    (bytes : List ℕ)
    → k ≤ have
    → k ≤ length ds
    → shamir.combine ds ≡ ok bytes
    → length bytes ≡ 32
    → secret ≡ codes "0x" ++ bytes_to_hex bytes
    → tests_of shamir k have ds few insufficient ≡ ok secret
tests_complete shamir k have ds few insufficient secret bytes enough all_k combined len same =
    rw combined (ground arith)

-- The secret is returned exactly when at least k shares of the commitment decrypt, and combining
-- the first k of them, in the order in which the store returns the rows, gives 32 bytes; the result is
-- their hexadecimal form.
pub reconstruct_iff :
    (e : Ecies) (shamir : Shamir) (k : ℕ) (keys : List (KeeperKeypair e)) (hash : Text) (t : Table)
    (secret : Text)
    → (reconstruct_user_secret e shamir k keys hash t ≡ ok secret) ↔ (
        (k ≤ length (decryptable e keys (get_shares_for_commitment hash t)))
        × ((bytes : List ℕ) × (shamir.combine
                (take k (decryptable e keys (get_shares_for_commitment hash t)))
              ≡ ok bytes)
            × (length bytes ≡ 32)
            × (secret ≡ codes "0x" ++ bytes_to_hex bytes)))
unfolding reconstruct_user_secret
reconstruct_iff e shamir k keys hash t secret =
    let rows = get_shares_for_commitment hash t in
    let d = decryptable e keys rows in
    let few = not_enough_shares hash (length rows) k in
    let insufficient = insufficient_shares hash (length (take k d)) k in
    rw (collect-eq-take e keys k rows) (
      (λ h.
          let (enough, found) =
            tests_sound shamir k (length rows) (take k d) few insufficient secret h in
          (omega (arith, length-take {0} k d), found)),
      (λ h.
          let (bytes, combined, len, same) = h.1 in
          tests_complete shamir k (length rows) (take k d) few insufficient secret bytes
            (omega (arith, length-decryptable e keys rows)) (omega (arith, length-take {0} k d))
            combined len same),
    )

take_all : {A : Type 0} (n : ℕ) (xs : List A) → length xs ≤ n → take n xs ≡ xs
take_all zero [] h = refl
take_all zero (x ∷ xs) h = absurd (omega arith)
take_all (suc n) [] h = refl
take_all (suc n) (x ∷ xs) h = ap (λ l. x ∷ l) (take_all n xs (omega arith))

-- With fewer than k shares that decrypt nothing is combined: the call throws, with the number of
-- rows if these are fewer than k, and else with the number of the shares that decrypted.
pub reconstruct_throws :
    (e : Ecies) (shamir : Shamir) (k : ℕ) (keys : List (KeeperKeypair e)) (hash : Text) (t : Table)
    → length (decryptable e keys (get_shares_for_commitment hash t)) < k
    → reconstruct_user_secret e shamir k keys hash t
      ≡ throw (
          if ltb (length (get_shares_for_commitment hash t)) k
          then not_enough_shares hash (length (get_shares_for_commitment hash t)) k
          else insufficient_shares hash
              (length (decryptable e keys (get_shares_for_commitment hash t)))
              k)
unfolding reconstruct_user_secret
reconstruct_throws e shamir k keys hash t h =
    let rows = get_shares_for_commitment hash t in
    let d = decryptable e keys rows in
    rw (collect-eq-take e keys k rows, take_all k d (omega arith)) (ground arith)
