-- ===== src/ExecuteApi/Condition.antt =====
-- The condition that the handler of /api/execute checks again (keeper/src/api/server.ts).
use zstrategy.Base.{
  ℕ, ◌/◌, Bool, true, false, Option, none, some, ◌≡◌, ◌≢◌, ◌↔◌, refl, sym, ◌∙◌, arith, ◌⊎◌, inl,
  inr, Bool-cases,
}
use zstrategy.Base.Int.{ℤ, pos, ◌≤ℤ◌}
use zstrategy.Base.Text.{codes}
use zstrategy.Base.Result.{Result, ok, throw, >>=-eq-ok}
use zstrategy.Js.{Value, number, text, or_else, text_of, big_int}
use zstrategy.Oracle.{Feeds, fetch_pair_price}
use zstrategy.Request.{Direction, buy, sell}
use zstrategy.ExecuteApi.{
  ExecuteBody, is_dca, direction_of, cond_met, confirmed, reverify_dca, order_condition,
  reverify_order, reverify,
}

-- The condition of a DCA round: both ends are numbers, and the time is between them, ends included.
abbrev pub InWindow : ℕ → Value → Value → Type 0
InWindow now lo hi =
    (l : ℤ) × (h : ℤ) × (lo ≡ number l) × (hi ≡ number h) × (l ≤ℤ pos now) × (pos now ≤ℤ h)

-- The condition of an order: a sale at the limit price or above, a purchase at it or below.
abbrev pub AtLimit : Direction → ℕ → ℤ → Type 0
AtLimit sell p lp = lp ≤ℤ pos p
AtLimit buy p lp = pos p ≤ℤ lp

abbrev pub PriceMeetsLimit : Feeds → ExecuteBody → Type 0
PriceMeetsLimit feeds b =
    (p : ℕ) × (lp : ℤ) × (fetch_pair_price feeds (text_of b.token_in) (text_of b.token_out) ≡ ok p)
    × (big_int (or_else b.limit_price (text (codes "0"))) ≡ ok lp)
    × AtLimit (direction_of b.direction) p lp

-- What a request has to meet, with the execution timestamp that goes with it.
abbrev pub ConditionHolds : ℕ → Feeds → ExecuteBody → Option ℕ → Type 0
ConditionHolds now_ms feeds b stamp =
    ((is_dca b ≡ true)
      × InWindow (now_ms / 1000) b.scheduled_lo b.scheduled_hi
      × (stamp ≡ some (now_ms / 1000)))
    ⊎ ((is_dca b ≡ false) × PriceMeetsLimit feeds b × (stamp ≡ none))

true-ne-false : true ≢ false
true-ne-false h = cc

cond_met_iff : (d : Direction) (p : ℕ) (lp : ℤ) → (cond_met d p lp ≡ true) ↔ AtLimit d p lp
unfolding cond_met
cond_met_iff buy p lp = ground arith
cond_met_iff sell p lp = ground arith

dca_sound :
    (now : ℕ) (lo hi : Value) (stamp : Option ℕ)
    → reverify_dca now lo hi ≡ confirmed stamp
    → InWindow now lo hi × (stamp ≡ some now)
unfolding reverify_dca
dca_sound now (number l) (number h) stamp e =
    ((l, h, refl, refl, ground arith, ground arith), ground arith)
dca_sound now lo hi stamp e = absurd cc

dca_complete :
    (now : ℕ) (lo hi : Value) → InWindow now lo hi → reverify_dca now lo hi ≡ confirmed (some now)
unfolding reverify_dca
dca_complete now lo hi (l, h, el, eh, a, b) = rw (el, eh) (ground arith)

reverify_order-confirmed :
    (r : Result Bool) (stamp : Option ℕ)
    → reverify_order r ≡ confirmed stamp
    → (r ≡ ok true) × (stamp ≡ none)
reverify_order-confirmed (ok true) stamp e = (refl, ground arith)
reverify_order-confirmed (ok false) stamp e = absurd cc
reverify_order-confirmed (throw m) stamp e = absurd cc

order_sound :
    (feeds : Feeds) (b : ExecuteBody) (stamp : Option ℕ)
    → reverify_order (order_condition feeds b) ≡ confirmed stamp
    → PriceMeetsLimit feeds b × (stamp ≡ none)
unfolding order_condition
order_sound feeds b stamp e =
    let (fine, no_stamp) = reverify_order-confirmed (order_condition feeds b) stamp e in
    let (p, ep, after_price) =
      >>=-eq-ok (fetch_pair_price feeds (text_of b.token_in) (text_of b.token_out)) _ {b = true}
        fine in
    let (lp, el, after_limit) =
      >>=-eq-ok (big_int (or_else b.limit_price (text (codes "0")))) _ {b = true} after_price in
    ((p, lp, ep, el, (cond_met_iff _ p lp).0 (ground arith)), no_stamp)

order_complete :
    (feeds : Feeds) (b : ExecuteBody)
    → PriceMeetsLimit feeds b
    → reverify_order (order_condition feeds b) ≡ confirmed none
unfolding order_condition
order_complete feeds b (p, lp, ep, el, at) = rw (ep, el, (cond_met_iff _ p lp).1 at) refl

-- Checking again confirms a request exactly when its condition holds: for a DCA round, both ends of the
-- window are numbers and the clock's second lies between them, and the timestamp to execute with is that second;
-- for an order, the pair's price is there, the limit price is an integer, and the price is at the
-- limit or above it for a sale, at it or below it for a purchase.
pub reverify_iff :
    (now_ms : ℕ) (feeds : Feeds) (b : ExecuteBody) (stamp : Option ℕ)
    → (reverify now_ms feeds b ≡ confirmed stamp) ↔ ConditionHolds now_ms feeds b stamp
unfolding reverify
reverify_iff now_ms feeds b stamp = elim (Bool-cases (is_dca b)) [
  | inl round ↦ (
    (λ h.
        let (w, at) =
          dca_sound (now_ms / 1000) b.scheduled_lo b.scheduled_hi stamp (rw round at h) in
        inl (round, w, at)),
    (λ h. elim h [
      | inl (r, w, at) ↦
          rw (round, at) (dca_complete (now_ms / 1000) b.scheduled_lo b.scheduled_hi w)
      | inr (o, w, at) ↦ absurd (true-ne-false (sym round ∙ o))
    ]),
  )
  | inr order ↦ (
    (λ h. let (w, at) = order_sound feeds b stamp (rw order at h) in inr (order, w, at)),
    (λ h. elim h [
      | inl (r, w, at) ↦ absurd (true-ne-false (sym r ∙ order))
      | inr (o, w, at) ↦ rw (order, at) (order_complete feeds b w)
    ]),
  )
]
