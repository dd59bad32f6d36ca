-- ===== src/Oracle/Contract.antt =====
-- The price that the keeper derives and the price that the registry contract derives from the same
-- feeds (`_readOraclePrice` of contracts/contracts/core/CommitmentRegistry.sol), which the proof has to
-- agree on.
use zstrategy.Base.{
  ℕ, ◌-◌, ◌*◌, ◌/◌, ◌^◌, ◌≤◌, ◌<◌, ◌||◌, Option, none, some, ltb, leb, ◌==◌, if◌then◌else◌, ◌≡◌,
  ◌↔◌, arith,
}
use native.Mathlib.Nat.{one-le-pow, le-mul_of_pos_right}
use zstrategy.Base.Result.{ok}
use zstrategy.Oracle.Bounds.{derive_price-decimals, derive_price-quotient, scale_ok}
use zstrategy.Oracle.{FeedPrice, max_uint64, checked_price, derive_price}

abbrev pub uint256_mod : ℕ
uint256_mod = 2 ^ 256

-- The last two `require`s.
abbrev required_price : ℕ → Option ℕ
required_price price =
    if price == 0 then none else if ltb max_uint64 price then none else some price

-- The contract's arithmetic on the answers, which it has found positive: `none` is a revert. The
-- subtraction, the powers and the products are checked against uint256; 10 ** 18 is far below it.
unfoldable pub read_oracle_price : FeedPrice → FeedPrice → Option ℕ
read_oracle_price fi fo =
    let norm_in : ℕ = fi.answer * 10 ^ (18 - fi.decimals) in
    let norm_out : ℕ = fo.answer * 10 ^ (18 - fo.decimals) in
    let scaled : ℕ = norm_in * 10 ^ fo.decimals in
    if ltb 18 fi.decimals || leb uint256_mod norm_in
    then none
    else if ltb 18 fo.decimals || leb uint256_mod norm_out
    then none
    else if leb uint256_mod scaled
    then none
    else required_price (scaled / norm_out)

abbrev pub norm : FeedPrice → ℕ
norm f = f.answer * 10 ^ (18 - f.decimals)

abbrev pub Fits : FeedPrice → FeedPrice → Type 0
Fits fi fo = (norm fi * 10 ^ fo.decimals < uint256_mod) × (norm fo < uint256_mod)

-- The tests of the contract with the three numbers as variables.
abbrev revert_tests : ℕ → ℕ → ℕ → ℕ → ℕ → Option ℕ
revert_tests di do' norm_in norm_out scaled =
    if ltb 18 di || leb uint256_mod norm_in
    then none
    else if ltb 18 do' || leb uint256_mod norm_out
    then none
    else if leb uint256_mod scaled
    then none
    else required_price (scaled / norm_out)

required-checked : (q p : ℕ) → required_price q ≡ some p → checked_price q ≡ ok p
required-checked q p h = ground arith

checked-required : (q p : ℕ) → checked_price q ≡ ok p → required_price q ≡ some p
checked-required q p h = ground arith

revert_tests_sound :
    (di do' a b c p : ℕ)
    → revert_tests di do' a b c ≡ some p
    → (di ≤ 18)
      × (do' ≤ 18)
      × (c < uint256_mod)
      × (b < uint256_mod)
      × (required_price (c / b) ≡ some p)
revert_tests_sound di do' a b c p h = ground arith

revert_tests_complete :
    (di do' a b c p : ℕ)
    → di ≤ 18
    → do' ≤ 18
    → a < uint256_mod
    → b < uint256_mod
    → c < uint256_mod
    → required_price (c / b) ≡ some p
    → revert_tests di do' a b c ≡ some p
revert_tests_complete di do' a b c p h1 h2 h3 h4 h5 h = ground arith

norm-le : (fi fo : FeedPrice) → norm fi ≤ norm fi * 10 ^ fo.decimals
norm-le fi fo = le-mul_of_pos_right (norm fi) (one-le-pow fo.decimals 10 (omega arith))

read_oracle_price_sound :
    (fi fo : FeedPrice) (p : ℕ)
    → read_oracle_price fi fo ≡ some p
    → (derive_price fi fo ≡ ok p) × Fits fi fo
unfolding read_oracle_price derive_price
read_oracle_price_sound fi fo p h =
    let (di, do', fits, fits', q) =
      revert_tests_sound fi.decimals fo.decimals (norm fi) (norm fo) (norm fi * 10 ^ fo.decimals) p
        h in
    (
      rw (scale_ok fi.decimals di, scale_ok fo.decimals do')
          (required-checked (norm fi * 10 ^ fo.decimals / norm fo) p q),
      (fits, fits'),
    )

read_oracle_price_complete :
    (fi fo : FeedPrice) (p : ℕ)
    → derive_price fi fo ≡ ok p
    → Fits fi fo
    → read_oracle_price fi fo ≡ some p
unfolding read_oracle_price
read_oracle_price_complete fi fo p e (fits, fits') =
    let (di, do') = derive_price-decimals fi fo p e in
    revert_tests_complete fi.decimals fo.decimals (norm fi) (norm fo) (norm fi * 10 ^ fo.decimals) p
      di do' (omega (arith, norm-le fi fo)) fits' fits
      (checked-required (norm fi * 10 ^ fo.decimals / norm fo) p
        (derive_price-quotient fi fo p di do' e))

-- The contract's price is p exactly when the keeper's is p and neither of the two products of the
-- contract reaches 2^256: where the contract does not revert the keeper has the same price, and the
-- keeper has a price where the contract reverts only beyond uint256.
pub read_oracle_price_iff :
    (fi fo : FeedPrice) (p : ℕ)
    → (read_oracle_price fi fo ≡ some p) ↔ ((derive_price fi fo ≡ ok p) × Fits fi fo)
read_oracle_price_iff fi fo p =
    (read_oracle_price_sound fi fo p, λ h. read_oracle_price_complete fi fo p h.0 h.1)
