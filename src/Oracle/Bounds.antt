-- ===== src/Oracle/Bounds.antt =====
-- What `fetchPairPrice` (keeper/src/chain/oracle.ts) computes, and exactly when it succeeds.
use zstrategy.Base.{ℕ, zero, suc, ◌+◌, ◌-◌, ◌*◌, ◌/◌, ◌^◌, ◌≤◌, ◌<◌, false, ◌≡◌, ◌↔◌, arith}
use native.Mathlib.Nat.{div-mul-le_self, lt-div-mul-add, div-eq_of_lt-le, mul-pos, one-le-pow}
use zstrategy.Base.Int.{ℤ, pos, negsuc}
use zstrategy.Base.Text.{Text, text_eq}
use zstrategy.Base.Result.{ok, >>=-eq-ok}
use zstrategy.Oracle.{
  Feeds, FeedPrice, zero_address, max_uint64, scale, checked_price, positive_answer, derive_price,
  price_of_feeds, price_of_addresses, fetch_feed, fetch_pair_price,
}

-- `f` is the positive price of a token that the registry's feed of it gives.
abbrev pub QuotedBy : Feeds → Text → FeedPrice → Type 0
QuotedBy feeds token f =
    (addr : Text) × (feeds.price_feeds token ≡ ok addr)
    × (text_eq addr zero_address ≡ false)
    × (feeds.latest_answer addr ≡ ok (pos f.answer))
    × (feeds.decimals addr ≡ ok f.decimals)
    × (0 < f.answer)
    × (f.decimals ≤ 18)

-- `p` is the quotient of the two prices at 18 decimals, with the decimals of the second feed,
-- rounded down, and a positive 64-bit number.
abbrev pub IsPairPrice : FeedPrice → FeedPrice → ℕ → Type 0
IsPairPrice fi fo p =
    (p * (fo.answer * 10 ^ (18 - fo.decimals))
      ≤ fi.answer * 10 ^ (18 - fi.decimals) * 10 ^ fo.decimals)
    × (fi.answer * 10 ^ (18 - fi.decimals) * 10 ^ fo.decimals
        < (p + 1) * (fo.answer * 10 ^ (18 - fo.decimals)))
    × (0 < p)
    × (p ≤ max_uint64)

floor_sound : (a b p : ℕ) → 0 < b → a / b ≡ p → (p * b ≤ a) × (a < (p + 1) * b)
floor_sound a b p h e =
    let lt : a < a / b * b + b = lt-div-mul-add h in rw (← e) (div-mul-le_self a b, omega arith)

floor_complete : (a b p : ℕ) → 0 < b → p * b ≤ a → a < (p + 1) * b → a / b ≡ p
floor_complete a b p h lo hi = div-eq_of_lt-le b lo hi

checked_price-eq-ok : (q p : ℕ) → checked_price q ≡ ok p → (q ≡ p) × (0 < p) × (p ≤ max_uint64)
checked_price-eq-ok q p h = ground arith

checked_price_ok : (q p : ℕ) → q ≡ p → 0 < p → p ≤ max_uint64 → checked_price q ≡ ok p
checked_price_ok q p e lo hi = ground arith

scale-eq-ok : (d s : ℕ) → scale d ≡ ok s → (d ≤ 18) × (s ≡ 10 ^ (18 - d))
unfolding scale
scale-eq-ok d s h = ground arith

pub scale_ok : (d : ℕ) → d ≤ 18 → scale d ≡ ok (10 ^ (18 - d))
unfolding scale
scale_ok d h = ground arith

divisor_pos : (f : FeedPrice) → 0 < f.answer → 0 < f.answer * 10 ^ (18 - f.decimals)
divisor_pos f h = mul-pos h (one-le-pow (18 - f.decimals) 10 (omega arith))

pub derive_price-decimals :
    (fi fo : FeedPrice) (p : ℕ)
    → derive_price fi fo ≡ ok p
    → (fi.decimals ≤ 18) × (fo.decimals ≤ 18)
unfolding derive_price scale
derive_price-decimals fi fo p e = ground arith

pub derive_price-quotient :
    (fi fo : FeedPrice) (p : ℕ)
    → fi.decimals ≤ 18
    → fo.decimals ≤ 18
    → derive_price fi fo ≡ ok p
    → checked_price (
        fi.answer
        * 10 ^ (18 - fi.decimals)
        * 10 ^ fo.decimals
        / (fo.answer * 10 ^ (18 - fo.decimals)))
      ≡ ok p
unfolding derive_price
derive_price-quotient fi fo p di do' e = rw (scale_ok fi.decimals di, scale_ok fo.decimals do') at e

pub derive_price_sound :
    (fi fo : FeedPrice) (p : ℕ)
    → 0 < fo.answer
    → derive_price fi fo ≡ ok p
    → (fi.decimals ≤ 18) × (fo.decimals ≤ 18) × IsPairPrice fi fo p
derive_price_sound fi fo p h e =
    let (di, do') = derive_price-decimals fi fo p e in
    let a : ℕ = fi.answer * 10 ^ (18 - fi.decimals) * 10 ^ fo.decimals in
    let b : ℕ = fo.answer * 10 ^ (18 - fo.decimals) in
    let (q, pos_p, max_p) =
      checked_price-eq-ok (a / b) p (derive_price-quotient fi fo p di do' e) in
    let (lo, hi) = floor_sound a b p (divisor_pos fo h) q in (di, do', (lo, hi, pos_p, max_p))

pub derive_price_complete :
    (fi fo : FeedPrice) (p : ℕ)
    → 0 < fo.answer
    → fi.decimals ≤ 18
    → fo.decimals ≤ 18
    → IsPairPrice fi fo p
    → derive_price fi fo ≡ ok p
unfolding derive_price
derive_price_complete fi fo p h di do' (lo, hi, pos_p, max_p) =
    rw (scale_ok fi.decimals di, scale_ok fo.decimals do')
      (checked_price_ok _ p (floor_complete _ _ p (divisor_pos fo h) lo hi) pos_p max_p)

positive_answer-eq-ok :
    (addr : Text) (d : ℕ) (a : ℤ) (f : FeedPrice)
    → positive_answer addr d a ≡ ok f
    → (a ≡ pos f.answer) × (d ≡ f.decimals) × (0 < f.answer)
positive_answer-eq-ok addr d (pos (suc n)) f h = ground arith
positive_answer-eq-ok addr d (pos zero) f h = cc
positive_answer-eq-ok addr d (negsuc n) f h = cc

fetch_feed_sound :
    (feeds : Feeds) (addr : Text) (f : FeedPrice)
    → fetch_feed feeds addr ≡ ok f
    → (feeds.latest_answer addr ≡ ok (pos f.answer))
      × (feeds.decimals addr ≡ ok f.decimals)
      × (0 < f.answer)
unfolding fetch_feed
fetch_feed_sound feeds addr f h =
    let (a, ea, h') = >>=-eq-ok (feeds.latest_answer addr) _ {b = f} h in
    let (d, ed, h'') = >>=-eq-ok (feeds.decimals addr) _ {b = f} h' in
    let (same_a, same_d, lt) = positive_answer-eq-ok addr d a f h'' in (cc, cc, lt)

positive_answer_ok :
    (addr : Text) (f : FeedPrice)
    → 0 < f.answer
    → positive_answer addr f.decimals (pos f.answer) ≡ ok f
positive_answer_ok addr f h = ground arith

fetch_feed_complete :
    (feeds : Feeds) (addr : Text) (f : FeedPrice)
    → feeds.latest_answer addr ≡ ok (pos f.answer)
    → feeds.decimals addr ≡ ok f.decimals
    → 0 < f.answer
    → fetch_feed feeds addr ≡ ok f
unfolding fetch_feed
fetch_feed_complete feeds addr f a d h = rw (a, d) (positive_answer_ok addr f h)

price_of_addresses-eq-ok :
    (feeds : Feeds) (token_in token_out ai ao : Text) (p : ℕ)
    → price_of_addresses feeds token_in token_out ai ao ≡ ok p
    → (text_eq ai zero_address ≡ false)
      × (text_eq ao zero_address ≡ false)
      × (price_of_feeds feeds ai ao ≡ ok p)
unfolding price_of_addresses
price_of_addresses-eq-ok feeds token_in token_out ai ao p h = ground arith

price_of_feeds-eq-ok :
    (feeds : Feeds) (ai ao : Text) (p : ℕ)
    → price_of_feeds feeds ai ao ≡ ok p
    → (fi : FeedPrice) × (fo : FeedPrice) × (fetch_feed feeds ai ≡ ok fi)
      × (fetch_feed feeds ao ≡ ok fo)
      × (derive_price fi fo ≡ ok p)
unfolding price_of_feeds
price_of_feeds-eq-ok feeds ai ao p h =
    let (fi, efi, h') = >>=-eq-ok (fetch_feed feeds ai) _ {b = p} h in
    let (fo, efo, h'') = >>=-eq-ok (fetch_feed feeds ao) _ {b = p} h' in (fi, fo, efi, efo, h'')

fetch_pair_price_sound :
    (feeds : Feeds) (token_in token_out : Text) (p : ℕ)
    → fetch_pair_price feeds token_in token_out ≡ ok p
    → (fi : FeedPrice) × (fo : FeedPrice) × QuotedBy feeds token_in fi
      × QuotedBy feeds token_out fo
      × IsPairPrice fi fo p
unfolding fetch_pair_price
fetch_pair_price_sound feeds token_in token_out p h =
    let (ai, eai, h1) = >>=-eq-ok (feeds.price_feeds token_in) _ {b = p} h in
    let (ao, eao, h2) = >>=-eq-ok (feeds.price_feeds token_out) _ {b = p} h1 in
    let (zi, zo, h3) = price_of_addresses-eq-ok feeds token_in token_out ai ao p h2 in
    let (fi, fo, efi, efo, h4) = price_of_feeds-eq-ok feeds ai ao p h3 in
    let (ansi, deci, posi) = fetch_feed_sound feeds ai fi efi in
    let (anso, deco, poso) = fetch_feed_sound feeds ao fo efo in
    let (di, do', ip) = derive_price_sound fi fo p poso h4 in
    (fi, fo, (ai, eai, zi, ansi, deci, posi, di), (ao, eao, zo, anso, deco, poso, do'), ip)

fetch_pair_price_complete :
    (feeds : Feeds) (token_in token_out : Text) (p : ℕ) (fi fo : FeedPrice)
    → QuotedBy feeds token_in fi
    → QuotedBy feeds token_out fo
    → IsPairPrice fi fo p
    → fetch_pair_price feeds token_in token_out ≡ ok p
unfolding fetch_pair_price price_of_addresses price_of_feeds
fetch_pair_price_complete feeds token_in token_out p fi fo (ai, eai, zi, ansi, deci, posi, di)
      (ao, eao, zo, anso, deco, poso, do') ip =
    rw
      (
        eai,
        eao,
        zi,
        zo,
        fetch_feed_complete feeds ai fi ansi deci posi,
        fetch_feed_complete feeds ao fo anso deco poso,
      )
      (derive_price_complete fi fo p poso di do' ip)

-- The call returns p exactly when the registry has a feed for each of the two tokens, both feeds give
-- a positive answer and at most 18 decimals, and p is the quotient of the two prices, brought to 18 decimals each, in the
-- decimals of the second feed and rounded down, which is positive and below 2^64.
pub fetch_pair_price_iff :
    (feeds : Feeds) (token_in token_out : Text) (p : ℕ)
    → (fetch_pair_price feeds token_in token_out ≡ ok p) ↔ (
        (fi : FeedPrice) × (fo : FeedPrice) × QuotedBy feeds token_in fi
        × QuotedBy feeds token_out fo
        × IsPairPrice fi fo p)
fetch_pair_price_iff feeds token_in token_out p = (
  fetch_pair_price_sound feeds token_in token_out p,
  λ h. fetch_pair_price_complete feeds token_in token_out p h.0 h.1 h.2 h.3 h.4,
)
