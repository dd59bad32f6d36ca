-- ===== src/Examples/Browser.antt =====
-- A DCA strategy of three rounds, submitted.
use zstrategy.Base.{
  ℕ, suc, ◌+◌, ◌≤◌, Bool, true, List, [], ◌∷◌, ◌++◌, Option, none, some, ◌≡◌, refl,
}
use zstrategy.Base.Int.{pos}
use zstrategy.Base.Text.{codes}
use zstrategy.Base.Result.{Result, ok}
use zstrategy.Commitment.{Hashing, Packed, bytes32}
use zstrategy.Dca.{DcaForm, DcaPorts, Submission, handle_submit}
use zstrategy.Dca.Consistent.{IsConsistent, handle_submit-registers}

abbrev hashing : Hashing
hashing = record { keccak256 = λ t. ok (codes "0x7f"); encode_packed = λ fields. ok (codes "0x00") }

abbrev ports : DcaPorts
ports = record {
  hashing = hashing;
  list_keepers = ok [];
  sign_message = λ m. ok (codes "0x55");
  split_and_encrypt = λ secret keepers. ok [];
  save_rounds = λ rounds. ok tt;
  current_now = 1000;
  round_nonce = λ i. codes "0x09";
}

abbrev form : DcaForm
form = record {
  is_connected = true;
  address = some (codes "0xabc");
  chain_id = 421614;
  token_in = codes "0xE";
  token_out = codes "0xD";
  size = pos 7;
  round_count = 3;
  interval = 60;
  shared_nonce = codes "0x01";
}

-- What the form leads to.
abbrev result_of : Option (Result Submission) → Submission
result_of (some (ok s)) = s
result_of _ = record {
  records = [];
  post = record { chain_id = 0; token_in = []; token_out = []; encrypted_shares = []; rounds = [] };
  batch = record {
    hashes = [];
    token_in = [];
    token_out = [];
    sizes = [];
    min_outs = [];
    expiries = [];
    kind = 0;
  };
}

goes_through : handle_submit ports form ≡ some (ok (result_of (handle_submit ports form)))
unfolding handle_submit zstrategy.Dca.submit_for zstrategy.Commitment.derive_strategy_id
    zstrategy.Commitment.derive_user_secret zstrategy.Commitment.reduce_to_field
    zstrategy.Js.big_int zstrategy.Base.Digits.digit_value zstrategy.Dca.round_records
    zstrategy.Dca.build_schedule zstrategy.Dca.windows_from zstrategy.Commitment.dca_commitment_hash
    zstrategy.Commitment.dca_nullifier_hash
goes_through = refl

handle_submit-registers_example :
    (2 ≤ 3) × (3 ≤ 10) × IsConsistent ports form (result_of (handle_submit ports form))
handle_submit-registers_example =
    handle_submit-registers ports form (result_of (handle_submit ports form)) goes_through
