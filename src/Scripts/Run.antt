-- ===== src/Scripts/Run.antt =====
-- A script of contracts/scripts as a function of the world that it changes: a result that may be an error, and the
-- world as the script leaves it, which is kept when it throws.
use mathlib.Core.Path.{subst}
use zstrategy.Base.{Bool, true, false, ◌≡◌, refl}
use zstrategy.Base.Text.{Text}
use zstrategy.Base.Result.{Result, ok, throw}

abbrev pub Script {κ ι} : Type κ → Type ι → Type (κ ⊔ ι)
Script World Value = World → Result Value × World

module _ {κ ι} {World : Type κ} {Value : Type ι} where
  abbrev pub give : Value → Script World Value
  give v w = (ok v, w)

  abbrev pub fail : Text → Script World Value
  fail message w = (throw message, w)

  -- a computation that does not look at the world
  abbrev pub lift : Result Value → Script World Value
  lift r w = (r, w)

  abbrev pub read : (World → Value) → Script World Value
  read f w = (ok (f w), w)

abbrev pub change {κ} : {World : Type κ} → (World → World) → Script {κ, 0} World Unit
change f w = (ok tt, f w)

-- A transaction that reverts changes nothing.
abbrev undone {κ} : {World : Type κ} → World → Result {0} Unit × World → Result {0} Unit × World
undone w (ok done, w') = (ok done, w')
undone w (throw message, w') = (throw message, w)

-- `await (await contract.call(…)).wait()`
abbrev pub transaction {κ} : {World : Type κ} → Script {κ, 0} World Unit → Script {κ, 0} World Unit
transaction act w = undone w (act w)

-- `if (!test) throw new Error(message)`
abbrev pub require {κ} : {World : Type κ} → Bool → Text → Script {κ, 0} World Unit
require true message w = (ok tt, w)
require false message w = (throw message, w)

pub throw_ne_ok {κ ι} :
    {World : Type κ} {Next : Type ι} {message : Text} {b : Next} {w w' : World}
    → ◌≡◌ {A = Result Next × World} (throw message, w) (ok b, w')
    → ⊥
throw_ne_ok same = cc

module _ {κ ι ρ} {World : Type κ} {Value : Type ι} {Next : Type ρ} where
  abbrev pub continue : Result Value × World → (Value → Script World Next) → Result Next × World
  continue (throw message, w) after = (throw message, w)
  continue (ok v, w) after = after v w

  infixl 5 ◌>>=◌
  abbrev pub ◌>>=◌ : Script World Value → (Value → Script World Next) → Script World Next
  (first >>= after) w = continue (first w) after

  -- A run that ends well went well up to each of its statements.
  pub continue-eq-ok :
      (r : Result Value × World) (after : Value → Script World Next) {b : Next} {w' : World}
      → continue r after ≡ (ok b, w')
      → (v : Value) × (w : World) × (r ≡ (ok v, w)) × (after v w ≡ (ok b, w'))
  continue-eq-ok (throw message, w) after {b} {w'} same = absurd (throw_ne_ok same)
  continue-eq-ok (ok v, w) after same = (v, w, refl, same)

  pub lift_ok :
      (r : Result Value) (after : Value → Script World Next) (b : Next) (w w' : World)
      → (lift r >>= after) w ≡ (ok b, w')
      → (v : Value) × (r ≡ ok v) × (after v w ≡ (ok b, w'))
  lift_ok (throw message) after b w w' same = absurd (throw_ne_ok same)
  lift_ok (ok v) after b w w' same = (v, refl, same)

module _ {κ ι} {World : Type κ} {Next : Type ι} where
  pub require_ok :
      (test : Bool) (message : Text) (after : Unit → Script World Next) (b : Next) (w w' : World)
      → (require test message >>= after) w ≡ (ok b, w')
      → (test ≡ true) × (after tt w ≡ (ok b, w'))
  require_ok true message after b w w' same = (refl, same)
  require_ok false message after b w w' same = absurd (throw_ne_ok same)

  -- A statement that can only end well in one world.
  pub step_ok :
      (act : Script {κ, 0} World Unit) (after : Unit → Script World Next) (v : World) (b : Next)
      (w w' : World)
      → ((u : World) → act w ≡ (ok tt, u) → u ≡ v)
      → (act >>= after) w ≡ (ok b, w')
      → after tt v ≡ (ok b, w')
  step_ok act after v b w w' only same =
      let (done, u, e, h) = continue-eq-ok (act w) after same in
      subst (λ z. after tt z ≡ (ok b, w')) (only u e) h

module _ {κ ι ρ σ} {World : Type κ} {First : Type ι} {Second : Type ρ} {Third : Type σ} where
  -- A statement of a block inside of a block.
  pub continue_assoc :
      (r : Result First × World) (f : First → Script World Second) (g : Second → Script World Third)
      → continue (continue r f) g ≡ continue r (λ v. f v >>= g)
  continue_assoc (throw message, w) f g = refl
  continue_assoc (ok v, w) f g = refl

module _ {κ} {World : Type κ} where
  undone_ok :
      (w : World) (r : Result {0} Unit × World) (w' : World)
      → undone w r ≡ (ok tt, w')
      → r ≡ (ok tt, w')
  undone_ok w (ok done, u) w' same = same
  undone_ok w (throw message, u) w' same = absurd (throw_ne_ok same)

  pub transaction_ok :
      (act : Script {κ, 0} World Unit) (w w' : World)
      → transaction act w ≡ (ok tt, w')
      → act w ≡ (ok tt, w')
  transaction_ok act w w' same = undone_ok w (act w) w' same
