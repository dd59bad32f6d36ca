-- ===== src/Strategies/Lookup.antt =====
-- What the object stores hold after `put` (frontend/src/lib/strategyStore.ts).
use mathlib.Core.Path.{subst}
use zstrategy.Base.{
  Bool, true, false, List, [], ◌∷◌, Option, none, some, keep, All, ◌≡◌, refl, sym, ap, ◌∙◌, inl,
  inr, arith, Bool-cases,
}
use zstrategy.Base.Text.{Text, text_eq, text_eq_sound, text_eq_refl, text_eq_sym}
use zstrategy.Strategies.{text_ltb, put, get, put_all}

text_ltb_trans : (s t u : Text) → text_ltb s t ≡ true → text_ltb t u ≡ true → text_ltb s u ≡ true
unfolding text_ltb
text_ltb_trans [] [] u h k = cc
text_ltb_trans [] (d ∷ t) [] h k = cc
text_ltb_trans [] (d ∷ t) (e ∷ u) h k = refl
text_ltb_trans (c ∷ s) [] u h k = cc
text_ltb_trans (c ∷ s) (d ∷ t) [] h k = cc
text_ltb_trans (c ∷ s) (d ∷ t) (e ∷ u) h k = ground (arith, text_ltb_trans s t u)

text_ltb_total : (s t : Text) → text_eq s t ≡ false → text_ltb s t ≡ false → text_ltb t s ≡ true
unfolding text_ltb text_eq
text_ltb_total [] [] h k = cc
text_ltb_total [] (d ∷ t) h k = cc
text_ltb_total (c ∷ s) [] h k = refl
text_ltb_total (c ∷ s) (d ∷ t) h k = ground (arith, text_ltb_total s t)

text_ltb_irrefl : (s : Text) → text_ltb s s ≡ false
unfolding text_ltb
text_ltb_irrefl [] = refl
text_ltb_irrefl (c ∷ s) = ground (arith, text_ltb_irrefl s)

abbrev pub first_of {κ} : {A : Type κ} → Option A → Option A → Option A
first_of none b = b
first_of (some a) b = some a

true_ne_false : true ≡ false → ⊥
true_ne_false h = cc

module _ {κ} {Row : Type κ} (key : Row → Text) where
  pub get-put_self : (r : Row) (rows : List Row) → get key (key r) (put key r rows) ≡ some r
  unfolding put
  get-put_self r [] = rw (text_eq_refl (key r)) refl
  get-put_self r (x ∷ rows) = elim (Bool-cases (text_eq (key r) (key x))) [
    | inl same ↦ rw (same, text_eq_refl (key r)) refl
    | inr other ↦ elim (Bool-cases (text_ltb (key r) (key x))) [
      | inl before ↦ rw (other, before, text_eq_refl (key r)) refl
      | inr after ↦ rw (other, after, text_eq_sym (key x) (key r), other) (get-put_self r rows)
    ]
  ]

  pub get-put_other :
      (h : Text) (r : Row) (rows : List Row)
      → text_eq (key r) h ≡ false
      → get key h (put key r rows) ≡ get key h rows
  unfolding put
  get-put_other h r [] ne = rw ne refl
  get-put_other h r (x ∷ rows) ne = elim (Bool-cases (text_eq (key r) (key x))) [
    | inl same ↦
        let ne' : text_eq (key x) h ≡ false =
          ap (λ k. text_eq k h) (sym (text_eq_sound (key r) (key x) same)) ∙ ne in
        rw (same, ne, ne') refl
    | inr other ↦ elim (Bool-cases (text_ltb (key r) (key x))) [
      | inl before ↦ rw (other, before, ne) refl
      | inr after ↦ rw (other, after) (ground (arith, get-put_other h r rows ne))
    ]
  ]

  -- The keys ascend, so no key stands twice.
  abbrev pub IsSorted : List Row → Type 0
  IsSorted [] = Unit
  IsSorted (x ∷ rows) = All (λ y. text_ltb (key x) (key y) ≡ true) rows × IsSorted rows

  All-keep :
      (p : Row → Bool) (P : Row → Type 0) (rows : List Row) → All P rows → All P (keep p rows)
  All-keep p P [] h = tt
  All-keep p P (x ∷ rows) (first, h) = elim (Bool-cases (p x)) [
    | inl kept ↦ rw kept (first, All-keep p P rows h)
    | inr dropped ↦ rw dropped (All-keep p P rows h)
  ]

  pub keep-IsSorted : (p : Row → Bool) (rows : List Row) → IsSorted rows → IsSorted (keep p rows)
  keep-IsSorted p [] h = tt
  keep-IsSorted p (x ∷ rows) (above, h) = elim (Bool-cases (p x)) [
    | inl kept ↦
        rw kept
          (All-keep p (λ y. text_ltb (key x) (key y) ≡ true) rows above, keep-IsSorted p rows h)
    | inr dropped ↦ rw dropped (keep-IsSorted p rows h)
  ]

  put-All :
      (low : Text) (r : Row) (rows : List Row)
      → text_ltb low (key r) ≡ true
      → All (λ y. text_ltb low (key y) ≡ true) rows
      → All (λ y. text_ltb low (key y) ≡ true) (put key r rows)
  unfolding put
  put-All low r [] lt h = (lt, tt)
  put-All low r (x ∷ rows) lt (first, h) = elim (Bool-cases (text_eq (key r) (key x))) [
    | inl same ↦ rw same (lt, h)
    | inr other ↦ elim (Bool-cases (text_ltb (key r) (key x))) [
      | inl before ↦ rw (other, before) (lt, (first, h))
      | inr after ↦ rw (other, after) (first, put-All low r rows lt h)
    ]
  ]

  above_lower :
      (low high : Text) (rows : List Row)
      → text_ltb low high ≡ true
      → All (λ y. text_ltb high (key y) ≡ true) rows
      → All (λ y. text_ltb low (key y) ≡ true) rows
  above_lower low high [] lt h = tt
  above_lower low high (x ∷ rows) lt (first, h) =
      (text_ltb_trans low high (key x) lt first, above_lower low high rows lt h)

  -- `put` keeps the order.
  pub put-IsSorted : (r : Row) (rows : List Row) → IsSorted rows → IsSorted (put key r rows)
  unfolding put
  put-IsSorted r [] h = (tt, tt)
  put-IsSorted r (x ∷ rows) (above, h) = elim (Bool-cases (text_eq (key r) (key x))) [
    | inl same ↦ rw same (
      subst (λ k. All (λ y. text_ltb k (key y) ≡ true) rows)
          (sym (text_eq_sound (key r) (key x) same)) above,
      h,
    )
    | inr other ↦ elim (Bool-cases (text_ltb (key r) (key x))) [
      | inl before ↦
          rw (other, before) ((before, above_lower (key r) (key x) rows before above), (above, h))
      | inr after ↦
          let lt = text_ltb_total (key r) (key x) other after in
          rw (other, after) (put-All (key x) r rows lt above, put-IsSorted r rows h)
    ]
  ]

  get_above :
      (h : Text) (rows : List Row)
      → All (λ y. text_ltb h (key y) ≡ true) rows
      → get key h rows ≡ none
  get_above h [] a = refl
  get_above h (x ∷ rows) (first, a) = elim (Bool-cases (text_eq (key x) h)) [
    | inl same ↦ absurd (
        true_ne_false
          (sym first ∙ ap (text_ltb h) (text_eq_sound (key x) h same) ∙ text_ltb_irrefl h))
    | inr other ↦ rw other (get_above h rows a)
  ]

  -- What is stored under a key after the records of a sorted list: the list's, or what was there.
  pub get-put_all :
      (h : Text) (rs rows : List Row)
      → IsSorted rs
      → get key h (put_all key rs rows) ≡ first_of (get key h rs) (get key h rows)
  unfolding put_all
  get-put_all h [] rows s = refl
  get-put_all h (r ∷ rs) rows (above, s) = elim (Bool-cases (text_eq (key r) h)) [
    | inl same ↦
        let e : key r ≡ h = text_eq_sound (key r) h same in
        let nowhere : get key h rs ≡ none =
          subst (λ k. get key k rs ≡ none) e (get_above (key r) rs above) in
        let here : get key h (put key r rows) ≡ some r =
          subst (λ k. get key k (put key r rows) ≡ some r) e (get-put_self r rows) in
        rw same (get-put_all h rs (put key r rows) s ∙ rw (nowhere, here) refl)
    | inr other ↦ rw other (
        get-put_all h rs (put key r rows) s
        ∙ ap (first_of (get key h rs)) (get-put_other h r rows other))
  ]
