-- ===== src/VaultValue/Reads.antt =====
-- Each token's price comes from its own feed (frontend/src/hooks/useVaultTvl.ts).
use zstrategy.Base.{
  ℕ, zero, suc, ◌+◌, List, [], ◌∷◌, Option, none, some, map, get_elem?, ◌≡◌, refl, ap, ◌∙◌, arith,
}
use zstrategy.Base.Int.{ℤ}
use zstrategy.Base.Text.{Text}
use zstrategy.VaultValue.{
  Item, Call, latest_round_data, decimals, price_calls, read_index, price_of_items, token_price,
}

none_ne_some {κ} : {A : Type κ} {a : A} → ◌≡◌ {A = Option A} none (some a) → ⊥
none_ne_some same = cc

some_injective {κ} : {A : Type κ} (a b : A) → ◌≡◌ {A = Option A} (some a) (some b) → a ≡ b
some_injective a b same = cc

get_elem?-map {κ ι} :
    {A : Type κ} {B : Type ι} (f : A → B) (xs : List A) (i : ℕ) (x : A)
    → get_elem? xs i ≡ some x
    → get_elem? (map f xs) i ≡ some (f x)
get_elem?-map f [] i x there = absurd (none_ne_some there)
get_elem?-map f (y ∷ xs) zero x there = ap (λ z. some (f z)) (some_injective y x there)
get_elem?-map f (y ∷ xs) (suc i) x there = get_elem?-map f xs i x there

-- The calls of the i-th feed stand at its index.
calls_lem :
    (feeds : List (Option Text)) (i : ℕ) (feed : Text)
    → get_elem? feeds i ≡ some (some feed)
    → (get_elem? (price_calls feeds) (read_index feeds i) ≡ some (latest_round_data feed))
      × (get_elem? (price_calls feeds) (read_index feeds i + 1) ≡ some (decimals feed))
unfolding price_calls
calls_lem [] i feed there = absurd (none_ne_some there)
calls_lem (none ∷ feeds) zero feed there =
    absurd (none_ne_some (some_injective none (some feed) there))
calls_lem (none ∷ feeds) (suc i) feed there = calls_lem feeds i feed there
calls_lem (some f ∷ feeds) zero feed there =
    let e : f ≡ feed = some_injective f feed (some_injective (some f) (some feed) there) in
    (ap (λ z. some (latest_round_data z)) e, ap (λ z. some (decimals z)) e)
calls_lem (some f ∷ feeds) (suc i) feed there =
    let n = read_index feeds i in
    let calls = price_calls (some f ∷ feeds) in
    let e : read_index (some f ∷ feeds) (suc i) ≡ suc (suc n) = omega arith in
    let e' : read_index (some f ∷ feeds) (suc i) + 1 ≡ suc (suc (n + 1)) = omega arith in
    let (first, second) = calls_lem feeds i feed there in
    (ap (get_elem? calls) e ∙ first, ap (get_elem? calls) e' ∙ second)

-- What a token's price is, from the results of the calls of its own feed.
abbrev pub own_price : (Call → Item) → Option Text → Option (ℤ × ℕ)
own_price answer none = none
own_price answer (some feed) =
    price_of_items (some (answer (latest_round_data feed))) (some (answer (decimals feed)))

-- When the results are those of the calls that are made, in their order, then the price of every token is computed from
-- the round and the decimals of that token's own feed, whichever tokens before it have none, and a token without
-- a feed has no price.
pub token_price_lem :
    (answer : Call → Item) (feeds : List (Option Text)) (i : ℕ) (o : Option Text)
    → get_elem? feeds i ≡ some o
    → token_price feeds (some (map answer (price_calls feeds))) i ≡ own_price answer o
unfolding token_price
token_price_lem answer feeds i none there = rw there refl
token_price_lem answer feeds i (some feed) there =
    let n = read_index feeds i in
    let (first, second) = calls_lem feeds i feed there in
    rw
      (
        there,
        get_elem?-map answer (price_calls feeds) n (latest_round_data feed) first,
        get_elem?-map answer (price_calls feeds) (n + 1) (decimals feed) second,
      )
      refl
