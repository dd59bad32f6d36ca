-- ===== src/Scripts/Tokens/Distinct.antt =====
-- Sets of addresses as lists: `add` of collectTokenAddresses (contracts/scripts/return-vault-balances.ts).
use zstrategy.Base.{
  false, ◌||◌, List, [], ◌∷◌, ◌++◌, any, map, ◌≡◌, refl, ◌∙◌, inl, inr, arith, Bool-cases,
  or-eq-false,
}
use zstrategy.Base.Text.{Text, text_eq, text_eq_sound, text_eq_sym}
use zstrategy.Base.Result.{Result, ok, throw}
use zstrategy.Js.{to_lower_case}
use zstrategy.Scripts.Tokens.{add, add_all}

-- No text stands twice in a list.
abbrev pub IsDistinct : List Text → Type 0
IsDistinct [] = Unit
IsDistinct (t ∷ ts) = (any (text_eq t) ts ≡ false) × IsDistinct ts

any-append :
    (x : Text) (s t : List Text)
    → any (text_eq x) (s ++ t) ≡ (any (text_eq x) s || any (text_eq x) t)
any-append x [] t = refl
any-append x (y ∷ s) t = ground (arith, any-append x s t)

any-add :
    (x t : Text) (tokens : List Text)
    → any (text_eq x) (add tokens t) ≡ (any (text_eq x) tokens || text_eq x t)
unfolding add
any-add x t tokens = elim (Bool-cases (any (text_eq t) tokens)) [
  | inl there ↦ elim (Bool-cases (text_eq x t)) [
    | inl same ↦ rw (there, same) (rw (text_eq_sound x t same) (ground (arith, there)))
    | inr other ↦ rw (there, other) (ground arith)
  ]
  | inr new ↦ rw new (any-append x tokens (t ∷ []) ∙ ground arith)
]

any-add_all :
    (x : Text) (tokens ts : List Text)
    → any (text_eq x) (add_all tokens ts)
      ≡ (any (text_eq x) tokens || any (text_eq x) (map to_lower_case ts))
unfolding add_all
any-add_all x tokens [] = ground arith
any-add_all x tokens (t ∷ ts) =
    ground
      (arith, any-add_all x (add tokens (to_lower_case t)) ts, any-add x (to_lower_case t) tokens)

append-IsDistinct :
    (tokens : List Text) (t : Text)
    → IsDistinct tokens
    → any (text_eq t) tokens ≡ false
    → IsDistinct (tokens ++ t ∷ [])
append-IsDistinct [] t d new = (refl, tt)
append-IsDistinct (x ∷ tokens) t (first, d) new =
    let (other, new') = or-eq-false (text_eq t x) (any (text_eq t) tokens) new in
    (
      any-append x tokens (t ∷ []) ∙ ground (arith, first, text_eq_sym x t, other),
      append-IsDistinct tokens t d new',
    )

add-IsDistinct : (tokens : List Text) (t : Text) → IsDistinct tokens → IsDistinct (add tokens t)
unfolding add
add-IsDistinct tokens t d = elim (Bool-cases (any (text_eq t) tokens)) [
  | inl there ↦ rw there d
  | inr new ↦ rw new (append-IsDistinct tokens t d new)
]

pub add_all-IsDistinct :
    (tokens ts : List Text) → IsDistinct tokens → IsDistinct (add_all tokens ts)
unfolding add_all
add_all-IsDistinct tokens [] d = d
add_all-IsDistinct tokens (t ∷ ts) d =
    add_all-IsDistinct (add tokens (to_lower_case t)) ts (add-IsDistinct tokens (to_lower_case t) d)

pub ok_injective {κ} : {A : Type κ} (a b : A) → ◌≡◌ {A = Result A} (ok a) (ok b) → a ≡ b
ok_injective a b same = cc

pub throw_ne_ok {κ} :
    {A : Type κ} {message : Text} {a : A} → ◌≡◌ {A = Result A} (throw message) (ok a) → ⊥
throw_ne_ok same = cc

any-map_append :
    (x : Text) (a b : List Text)
    → any (text_eq x) (map to_lower_case (a ++ b))
      ≡ (any (text_eq x) (map to_lower_case a) || any (text_eq x) (map to_lower_case b))
any-map_append x [] b = refl
any-map_append x (y ∷ a) b = ground (arith, any-map_append x a b)

pub any-add_three :
    (x : Text) (a b c : List Text)
    → any (text_eq x) (add_all (add_all (add_all [] a) b) c)
      ≡ any (text_eq x) (map to_lower_case (a ++ b ++ c))
any-add_three x a b c =
    rw
      (
        any-add_all x (add_all (add_all [] a) b) c,
        any-add_all x (add_all [] a) b,
        any-add_all x [] a,
        any-map_append x (a ++ b) c,
        any-map_append x a b,
      )
      (ground arith)
