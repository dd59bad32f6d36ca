-- ===== src/Submitter/Proof.antt =====
-- The proof and the fill reference of a request (keeper/src/execution/submitter.ts).
use zstrategy.Base.{ℕ, ◌/◌, Option, none, some}
use zstrategy.Base.Int.{ℤ}
use zstrategy.Base.Text.{Text, codes}
use zstrategy.Base.Result.{Result, ok, throw, ◌>>=◌}
use zstrategy.Request.{ExecuteRequest, Direction, buy, sell, order_fill, dca}
use zstrategy.Oracle.{fetch_pair_price}
use zstrategy.Zk.{generate_order_fill_proof, generate_dca_proof}
use zstrategy.Submitter.Types.{World}

abbrev pub direction_number : Direction → ℕ
direction_number buy = 0
direction_number sell = 1

-- BigInt of a number, which throws for NaN.
abbrev pub big_of_number : Option ℤ → Result ℤ
big_of_number none = throw (codes "RangeError: NaN cannot be converted to a BigInt")
big_of_number (some z) = ok z

-- `x!.toString()` throws for undefined.
abbrev pub defined : Option ℤ → Result ℤ
defined none = throw (codes "TypeError: Cannot read properties of undefined (reading 'toString')")
defined (some z) = ok z

-- `req.executionTimestamp ?? Math.floor(Date.now() / 1000)`
abbrev pub or_now : Option ℕ → ℕ → ℕ
or_now none now_ms = now_ms / 1000
or_now (some t) now_ms = t

-- fillRef: 0 for ORDER_FILL.
unfoldable pub fill_ref_of : World → ExecuteRequest → ℕ
fill_ref_of w req = elim req.kind [ dca ↦ or_now req.execution_timestamp w.now_ms | order_fill ↦ 0 ]

unfoldable pub dca_proof : World → ExecuteRequest → Result Text
dca_proof w req = do
  prover ← w.dca_prover
  lo ← defined req.scheduled_lo
  hi ← defined req.scheduled_hi
  generate_dca_proof prover (record {
    scheduled_lo = lo;
    scheduled_hi = hi;
    nonce = req.nonce;
    user_secret = req.user_secret;
    commitment_hash = req.commitment_hash;
    execution_timestamp = or_now req.execution_timestamp w.now_ms;
    nullifier = req.nullifier;
    token_in = req.token_in;
    token_out = req.token_out;
    size = req.size;
    min_out = req.min_out;
    expiry = req.expiry;
  })

unfoldable pub order_fill_proof : World → ExecuteRequest → Result Text
order_fill_proof w req = do
  pair_price ← fetch_pair_price w.feeds req.token_in req.token_out
  expiry ← big_of_number req.expiry
  prover ← w.order_fill_prover
  generate_order_fill_proof prover (record {
    price = req.limit_price;
    direction = direction_number req.direction;
    nonce = req.nonce;
    user_secret = req.user_secret;
    commitment_hash = req.commitment_hash;
    oracle_price = pair_price;
    nullifier = req.nullifier;
    token_in = req.token_in;
    token_out = req.token_out;
    size = req.size;
    min_out = req.min_out;
    expiry = expiry;
  })

unfoldable pub proof_for : World → ExecuteRequest → Result Text
proof_for w req = elim req.kind [ dca ↦ dca_proof w req | order_fill ↦ order_fill_proof w req ]
