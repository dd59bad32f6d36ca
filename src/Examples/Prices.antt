-- ===== src/Examples/Prices.antt =====
-- Prices, proofs, hashes and schedules at concrete inputs.
use zstrategy.Base.{
  ℕ, zero, suc, ◌+◌, ◌-◌, ◌*◌, ◌^◌, ◌%◌, ◌≤◌, ◌<◌, Bool, true, false, List, [], ◌∷◌, ◌++◌, Option,
  none, some, length, get_elem?, if◌then◌else◌, ◌==◌, ◌≡◌, ◌↔◌, refl, arith,
}
use zstrategy.Base.Int.{ℤ, pos}
use zstrategy.Base.Text.{Text, codes, text_eq}
use zstrategy.Base.Digits.{read_digits, digit_value}
use zstrategy.Base.Result.{Result, ok, throw}
use zstrategy.Js.{text, big_int}
use zstrategy.Oracle.{Feeds, FeedPrice, fetch_pair_price, derive_price}
use zstrategy.Oracle.Bounds.{QuotedBy, IsPairPrice, fetch_pair_price_iff}
use zstrategy.Oracle.Contract.{read_oracle_price, Fits, read_oracle_price_iff}
use zstrategy.Zk.{Prover, proof_of}
use zstrategy.Zk.Gate.{IsVerifiedProof, proof_of_iff}
use zstrategy.Commitment.{bn254_field_modulus, reduce_to_field}
use zstrategy.Commitment.Field.{reduce_to_field_lem}
use zstrategy.Dca.{build_schedule}
use zstrategy.Dca.Schedule.{AreRounds, AreApart, build_schedule_lem}

-- Ether at 3000 dollars and a dollar at one, with 8 decimals each.
abbrev answer_of : Text → Result ℤ
answer_of feed = if text_eq feed (codes "0xE") then ok (pos (3000 * 10 ^ 8)) else ok (pos (10 ^ 8))

abbrev feed_of : Text → Result Text
feed_of token = if text_eq token (codes "WETH") then ok (codes "0xE") else ok (codes "0xD")

abbrev pub two_feeds : Feeds
two_feeds = record { price_feeds = feed_of; latest_answer = answer_of; decimals = λ feed. ok 8 }

pub ether_price : fetch_pair_price two_feeds (codes "WETH") (codes "USDC") ≡ ok (3000 * 10 ^ 8)
unfolding fetch_pair_price text_eq zstrategy.Oracle.price_of_addresses
    zstrategy.Oracle.price_of_feeds zstrategy.Oracle.fetch_feed derive_price zstrategy.Oracle.scale
ether_price = refl

fetch_pair_price_iff_example :
    (fi : FeedPrice) × (fo : FeedPrice) × QuotedBy two_feeds (codes "WETH") fi
    × QuotedBy two_feeds (codes "USDC") fo
    × IsPairPrice fi fo (3000 * 10 ^ 8)
fetch_pair_price_iff_example =
    (fetch_pair_price_iff two_feeds (codes "WETH") (codes "USDC") (3000 * 10 ^ 8)).0 ether_price

abbrev ether : FeedPrice
ether = record { answer = 3000 * 10 ^ 8; decimals = 8 }

abbrev dollar : FeedPrice
dollar = record { answer = 10 ^ 8; decimals = 8 }

contract_price : read_oracle_price ether dollar ≡ some (3000 * 10 ^ 8)
unfolding read_oracle_price
contract_price = refl

read_oracle_price_iff_example : (derive_price ether dollar ≡ ok (3000 * 10 ^ 8)) × Fits ether dollar
read_oracle_price_iff_example =
    (read_oracle_price_iff ether dollar (3000 * 10 ^ 8)).0 contract_price

-- A prover of even numbers: the proof is the number, and the verification of 4 alone succeeds.
abbrev verdict : ℕ → Result Bool
verdict n = if n == 4 then ok true else throw (codes "bad proof")

abbrev pub number_prover : Prover ℕ
number_prover = record {
  Witness = ℕ;
  ProofData = ℕ;
  execute = λ n. ok n;
  generate_proof = λ n. ok n;
  proof = λ n. n ∷ [];
  verify_proof = verdict;
}

four_proved : proof_of number_prover (codes "toy") 4 ≡ ok (codes "0x04")
unfolding proof_of zstrategy.Zk.gate zstrategy.Base.Digits.Hex.bytes_to_hex
    zstrategy.Base.Digits.Hex.byte_hex zstrategy.Base.Digits.print
four_proved = refl

proof_of_iff_example : IsVerifiedProof number_prover 4 (codes "0x04")
proof_of_iff_example = (proof_of_iff number_prover (codes "toy") 4 (codes "0x04")).0 four_proved

one_more :
    big_int
      (text (codes "21888242871839275222246405745257275088548364400416034343698204186575808495618"))
    ≡ ok (pos 21888242871839275222246405745257275088548364400416034343698204186575808495618)
unfolding big_int read_digits digit_value
one_more = refl

reduce_to_field_lem_example :
    (h : Text) × (reduce_to_field
        (codes "21888242871839275222246405745257275088548364400416034343698204186575808495618")
      ≡ ok h)
    × (length h ≡ 66)
    × (big_int (text h)
        ≡ ok (
            pos (
              21888242871839275222246405745257275088548364400416034343698204186575808495618
              % bn254_field_modulus)))
    × (21888242871839275222246405745257275088548364400416034343698204186575808495618
          % bn254_field_modulus
        < bn254_field_modulus)
    × (reduce_to_field h ≡ ok h)
reduce_to_field_lem_example =
    reduce_to_field_lem
      (codes "21888242871839275222246405745257275088548364400416034343698204186575808495618")
      21888242871839275222246405745257275088548364400416034343698204186575808495618 one_more

build_schedule_lem_example :
    (length (build_schedule 3 60 1000) ≡ 3)
    × AreRounds 60 1000 0 (build_schedule 3 60 1000)
    × AreApart (build_schedule 3 60 1000)
build_schedule_lem_example = build_schedule_lem 3 60 1000 (omega arith)
