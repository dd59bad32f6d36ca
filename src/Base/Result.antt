-- ===== src/Base/Result.antt =====
-- A JavaScript computation that may throw: a value, or the message of the error.
use mathlib.Core.Path.{◌≡◌, refl}
use mathlib.Core.List.{List, [], ◌∷◌}
use mathlib.Core.Logic.{◌⊎◌, inl, inr}
use zstrategy.Base.Text.{Text}

pub data Result {κ} (Value : Type κ) : Type κ where
  throw : Text → Result Value
  ok : Value → Result Value

pub Result-cases {κ} :
    {Value : Type κ} (r : Result Value)
    → ((v : Value) × (r ≡ ok v)) ⊎ ((message : Text) × (r ≡ throw message))
Result-cases (throw message) = inr (message, refl)
Result-cases (ok v) = inl (v, refl)

module _ {κ ι} {Value : Type κ} {Next : Type ι} where
  -- `await`, and a statement whose value is not used.
  infixl 5 ◌>>=◌
  abbrev pub ◌>>=◌ : Result Value → (Value → Result Next) → Result Next
  throw message >>= continue = throw message
  ok v >>= continue = continue v

  infixl 5 ◌>>◌
  abbrev pub ◌>>◌ : Result Value → Result Next → Result Next
  first >> after = first >>= λ unused. after

  -- A chain that gives a value got one from its first step.
  pub >>=-eq-ok :
      (first : Result Value) (continue : Value → Result Next) {b : Next}
      → (first >>= continue) ≡ ok b
      → (v : Value) × (first ≡ ok v) × (continue v ≡ ok b)
  >>=-eq-ok (throw message) continue same = cc
  >>=-eq-ok (ok v) continue same = (v, refl, same)

-- `Array.prototype.map` with a function that may throw, in the order of the array.
abbrev pub map_result {κ ι} :
    {Value : Type κ} {Next : Type ι} → (Value → Result Next) → List Value → Result (List Next)
map_result f [] = ok []
map_result f (v ∷ vs) = let rest = map_result f vs in (do w ← f v; ws ← rest; ok (w ∷ ws))
