-- ===== src/Examples/Api.antt =====
-- Requests to /api/execute at concrete inputs.
use zstrategy.Base.{◌/◌, true, [], ◌∷◌, ◌++◌, Option, none, some, replicate, ◌≡◌, refl, arith, inl}
use zstrategy.Base.Int.{pos}
use zstrategy.Base.Text.{Text, codes, text_eq}
use zstrategy.Base.Digits.{digit, digit_value, print}
use zstrategy.Base.Digits.Hex.{bytes_to_hex, bytes_of_hex, byte_hex}
use zstrategy.Base.Result.{Result, ok, throw}
use zstrategy.Js.{Value, text, number, undefined}
use zstrategy.Shares.{ShareRow, Table, get_shares_for_commitment}
use zstrategy.Keys.{get_keypair_by_id}
use zstrategy.Oracle.{Feeds}
use zstrategy.Reconstruct.{decrypt_row, reconstruct_user_secret}
use zstrategy.Submitter.{World, failed}
use zstrategy.ShareApi.{has_secret}
use zstrategy.ExecuteApi.{
  ExecuteBody, Counters, AddressChecks, Environment, invalid, Reverified, refused, confirmed,
  reverify, execute, Execution,
}
use zstrategy.ExecuteApi.Condition.{ConditionHolds, reverify_iff}
use zstrategy.ExecuteApi.Outcome.{
  IsAccepted, IsCounted, execute-IsAccepted_iff, execute-IsCounted, execute-refused_blind,
}
use zstrategy.Examples.Toys.{toy_ecies, toy_shamir, toy_keys}

-- A network whose feeds do not answer.
abbrev no_feeds : Feeds
no_feeds = record {
  price_feeds = λ token. throw (codes "timeout");
  latest_answer = λ feed. throw (codes "timeout");
  decimals = λ feed. throw (codes "timeout");
}

abbrev idle_world : World
idle_world = record {
  now_ms = 1000;
  order_fill_prover = throw (codes "no circuit");
  dca_prover = throw (codes "no circuit");
  feeds = no_feeds;
  fee_gas_price = ok none;
  estimate_gas = λ hash nullifier proof ref price. ok 100;
  send = λ call. ok (codes "0x1");
  wait = λ hash. failed (codes "timeout");
  replay = λ call receipt. none;
}

abbrev get_address : Value → Result Text
get_address (text s) = ok s
get_address _ = throw (codes "invalid address")

abbrev environment : Environment
environment = record {
  ecies = toy_ecies;
  shamir = toy_shamir;
  checks = record { is_hash = λ v. true; is_address = λ v. true; get_address = get_address };
  config = record {
    max_retries = 2;
    retry_base_delay_ms = 100;
    execution_gas_buffer_bps = 12000;
    gas_price_buffer = 10;
    backend_url = [];
  };
  api_secret = codes "s";
  threshold_k = 2;
  keys = toy_keys;
  feeds = no_feeds;
  now_ms = 50000;
  worlds = λ i. idle_world;
}

-- A DCA round between the seconds 40 and 60, of a size.
abbrev round_body : Value → ExecuteBody
round_body size = record {
  commitment_hash = text (codes "0xc3");
  kind = text (codes "DCA");
  token_in = text (codes "0xE");
  token_out = text (codes "0xD");
  size = size;
  min_out = text (codes "1");
  expiry = number (pos 99);
  limit_price = undefined;
  direction = undefined;
  nonce = text (codes "0x9");
  nullifier = text (codes "0x8");
  scheduled_lo = number (pos 40);
  scheduled_hi = number (pos 60);
}

abbrev order_body : ExecuteBody
order_body = record (round_body (text (codes "7"))) { kind = text (codes "ORDER_FILL") }

-- A row whose share, in ones, is 32 zeros.
abbrev zero_share : Text → ShareRow
zero_share keeper = record {
  commitment_hash = codes "0xc3";
  keeper_id = keeper;
  ciphertext = codes "0x" ++ replicate 64 b'0';
  received_at = 1;
}

abbrev two_shares : Table
two_shares = zero_share (codes "keeper-0") ∷ zero_share (codes "keeper-1") ∷ []

abbrev no_counts : Counters
no_counts = record { executed_count = 0; failed_count = 0 }

abbrev auth : Option Text
auth = some (codes "Bearer s")

abbrev zero_secret : Text
zero_secret = codes "0x" ++ replicate 64 b'0'

secret_there :
    reconstruct_user_secret toy_ecies toy_shamir 2 toy_keys (codes "0xc3") two_shares
    ≡ ok zero_secret
unfolding reconstruct_user_secret zstrategy.Reconstruct.collect decrypt_row get_keypair_by_id
    get_shares_for_commitment bytes_of_hex digit_value bytes_to_hex byte_hex print digit text_eq
secret_there = refl

may_pass : (size : Value) → invalid environment.checks (round_body (text (codes "7"))) ≡ none
unfolding invalid
may_pass size = refl

authorized : has_secret (codes "s") auth ≡ true
unfolding has_secret text_eq
authorized = refl

in_window : (size : Value) → ConditionHolds 50000 no_feeds (round_body size) (some (50000 / 1000))
unfolding text_eq
in_window size = inl (refl, (pos 40, pos 60, refl, refl, omega arith, omega arith), refl)

execute-IsAccepted_iff_example :
    IsAccepted (execute environment auth (round_body (text (codes "7"))) two_shares no_counts)
unfolding zstrategy.Js.text_of
execute-IsAccepted_iff_example =
    (execute-IsAccepted_iff environment auth (round_body (text (codes "7"))) two_shares no_counts).1
      (
        some 50,
        zero_secret,
        (authorized, may_pass undefined, in_window (text (codes "7")), secret_there),
      )

execute-IsCounted_example :
    IsCounted environment auth
      (round_body (text (codes "7")))
      two_shares
      no_counts
      (execute environment auth (round_body (text (codes "7"))) two_shares no_counts)
execute-IsCounted_example =
    execute-IsCounted environment auth (round_body (text (codes "7"))) two_shares no_counts

oracle_refuses :
    reverify 50000 no_feeds order_body
    ≡ refused 503 (codes "Oracle re-verification unavailable; refusing execution")
unfolding reverify zstrategy.ExecuteApi.order_condition zstrategy.Oracle.fetch_pair_price text_eq
oracle_refuses = refl

execute-refused_blind_example :
    (execute environment auth order_body two_shares no_counts
      ≡ execute environment auth order_body [] no_counts)
    × ((execute environment auth order_body two_shares no_counts).run ≡ none)
execute-refused_blind_example =
    execute-refused_blind environment auth order_body two_shares no_counts [] 503
      (codes "Oracle re-verification unavailable; refusing execution") oracle_refuses

reverify_iff_example :
    reverify 50000 no_feeds (round_body (text (codes "7"))) ≡ confirmed (some (50000 / 1000))
reverify_iff_example =
    (reverify_iff 50000 no_feeds (round_body (text (codes "7"))) (some (50000 / 1000))).1
      (in_window (text (codes "7")))
