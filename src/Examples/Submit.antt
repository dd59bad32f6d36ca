-- ===== src/Examples/Submit.antt =====
-- A submission whose first attempt times out and whose second succeeds.
use zstrategy.Base.{
  ℕ, zero, suc, ◌+◌, ◌*◌, ◌^◌, ◌≤◌, ◌<◌, Bool, true, false, List, [], ◌∷◌, ◌++◌, Option, none, some,
  length, All, if◌then◌else◌, ◌==◌, ◌≡◌, ◌↔◌, refl, arith,
}
use zstrategy.Base.Int.{pos}
use zstrategy.Base.Text.{Text, codes}
use zstrategy.Base.Result.{ok, throw}
use zstrategy.Js.{text}
use zstrategy.Oracle.{Feeds}
use zstrategy.Request.{ExecuteRequest, dca, buy}
use zstrategy.Zk.{Prover, DcaInputs}
use zstrategy.Submitter.{SubmitConfig, World, Call, returned, failed, submit_execution}
use zstrategy.Submitter.Traces.{sent_calls, slept_total}
use zstrategy.Submitter.Bounds.{submit_execution_bounds}
use zstrategy.Submitter.Gas.{IsFunded, submit_execution-IsFunded}
use zstrategy.Submitter.Outcome.{ReturnsFrom, submit_execution-ok_iff}

abbrev config : SubmitConfig
config = record {
  max_retries = 3;
  retry_base_delay_ms = 500;
  execution_gas_buffer_bps = 12000;
  gas_price_buffer = 10;
  backend_url = codes "http://b/";
}

abbrev feeds : Feeds
feeds = record {
  price_feeds = λ token. throw (codes "timeout");
  latest_answer = λ feed. throw (codes "timeout");
  decimals = λ feed. throw (codes "timeout");
}

abbrev prover : Prover DcaInputs
prover = record {
  Witness = ℕ;
  ProofData = ℕ;
  execute = λ inputs. ok 4;
  generate_proof = λ witness. ok witness;
  proof = λ made. made ∷ [];
  verify_proof = λ made. ok true;
}

abbrev worlds : ℕ → World
worlds i = record {
  now_ms = 50000;
  order_fill_prover = throw (codes "no circuit");
  dca_prover = ok prover;
  feeds = feeds;
  fee_gas_price = ok (some 100);
  estimate_gas = λ hash nullifier proof ref price. ok 1000;
  send = λ call. ok (codes "0x77");
  wait = λ hash.
      if i == 0
      then failed (codes "timeout")
      else returned (some (record { status = 1; block_number = 5 }));
  replay = λ call receipt. none;
}

abbrev request : ExecuteRequest
request = record {
  commitment_hash = codes "0xc3";
  kind = dca;
  token_in = codes "0xE";
  token_out = codes "0xD";
  size = pos 7;
  min_out = pos 1;
  expiry = some (pos 99);
  limit_price = pos 0;
  direction = buy;
  nonce = text (codes "0x9");
  nullifier = text (codes "0x8");
  scheduled_lo = some (pos 40);
  scheduled_hi = some (pos 60);
  execution_timestamp = some 50;
  user_secret = codes "0x01";
}

succeeds : (submit_execution config worlds request).result ≡ ok (codes "0x77")
unfolding submit_execution zstrategy.Submitter.submit_from zstrategy.Submitter.attempt
    zstrategy.Submitter.prepare zstrategy.Submitter.proof_for zstrategy.Submitter.dca_proof
    zstrategy.Zk.generate_dca_proof zstrategy.Zk.proof_of zstrategy.Zk.gate
    zstrategy.Submitter.settle zstrategy.Submitter.caught zstrategy.Submitter.is_user_fixable_revert
    zstrategy.Submitter.is_definitive_revert zstrategy.Submitter.user_fixable_reason
    zstrategy.Submitter.definitive_reasons zstrategy.Submitter.conclude zstrategy.Base.Text.includes
succeeds = refl

submit_execution-ok_iff_example : ReturnsFrom config worlds request 0 3 (codes "0x77")
submit_execution-ok_iff_example =
    (submit_execution-ok_iff config worlds request (codes "0x77")).0 succeeds

submit_execution_bounds_example :
    (length (sent_calls (submit_execution config worlds request).events) ≤ 3)
    × (slept_total (submit_execution config worlds request).events + 500 ≤ 500 * 2 ^ 3)
submit_execution_bounds_example = submit_execution_bounds config worlds request

submit_execution-IsFunded_example :
    All
      (λ call. (j : ℕ) × (j < 3) × IsFunded config (worlds j) request call)
      (sent_calls (submit_execution config worlds request).events)
submit_execution-IsFunded_example = submit_execution-IsFunded config worlds request (omega arith)
