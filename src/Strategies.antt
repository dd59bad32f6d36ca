-- ===== src/Strategies.antt =====
-- frontend/src/lib/strategyStore.ts: the browser's object stores of orders and of DCA rounds. A store is the list of
-- its records in the order of their primary key, the commitment hash. A failure of the database is not
-- modelled.
pub mod Lookup
use zstrategy.Base.{
  Bool, true, false, ◌&&◌, ◌||◌, List, [], ◌∷◌, Option, keep, find, if◌then◌else◌, ltb, ◌==◌,
}
use zstrategy.Base.Text.{Text, text_eq}
use zstrategy.Js.{to_lower_case}
use zstrategy.Orders.{StrategyRecord}
use zstrategy.Dca.{DcaRoundRecord}

-- The order of keys that are texts.
unfoldable pub text_ltb : Text → Text → Bool
text_ltb [] [] = false
text_ltb [] (d ∷ t) = true
text_ltb (c ∷ s) [] = false
text_ltb (c ∷ s) (d ∷ t) = ltb c d || c == d && text_ltb s t

-- `put` in a store whose records have a text as their key.
module _ {κ} {Row : Type κ} (key : Row → Text) where
  unfoldable pub put : Row → List Row → List Row
  put r [] = r ∷ []
  put r (x ∷ rows) =
      let rest = put r rows in
      if text_eq (key r) (key x)
      then r ∷ rows
      else if text_ltb (key r) (key x)
      then r ∷ x ∷ rows
      else x ∷ rest

  -- `get` by the primary key
  abbrev pub get : Text → List Row → Option Row
  get h rows = find (λ x. text_eq (key x) h) rows

  -- `for (const r of rows) store.put(r)`
  unfoldable pub put_all : List Row → List Row → List Row
  unfolding put
  put_all [] rows = rows
  put_all (r ∷ rs) rows = put_all rs (put r rows)

abbrev pub StrategyStore : Type 0
StrategyStore = List StrategyRecord

unfoldable pub save_strategy : StrategyRecord → StrategyStore → StrategyStore
save_strategy r db = put (λ x. x.commitment_hash) r db

-- The index on the owner, in the order of the primary key.
unfoldable pub list_strategies_for_owner : Text → StrategyStore → List StrategyRecord
list_strategies_for_owner owner db = keep (λ r. text_eq r.owner (to_lower_case owner)) db

-- One transaction for all rounds.
unfoldable pub save_dca_rounds : List DcaRoundRecord → List DcaRoundRecord → List DcaRoundRecord
save_dca_rounds rounds db = put_all (λ x. x.commitment_hash) rounds db
