-- ===== src/Dca.antt =====
-- frontend/src/app/(dashboard)/dca/page.tsx: the schedule of a DCA strategy, and what submitting the form does.
-- The wallet, the keepers' API and the local database are the record `DcaPorts`.
pub mod Schedule
pub mod Consistent
use zstrategy.Base.{
  ℕ, zero, suc, ◌+◌, ◌-◌, ◌*◌, ◌/◌, Bool, false, not, ◌&&◌, ◌||◌, List, [], ◌∷◌, ◌++◌, Option, none,
  some, map, replicate, length, leb, if◌then◌else◌, ◌==◌,
}
use zstrategy.Base.Int.{ℤ, pos, negsuc}
use zstrategy.Base.Text.{Text, codes}
use zstrategy.Base.Result.{Result, ok, throw, ◌>>=◌}
use zstrategy.Js.{print_int, to_lower_case}
use zstrategy.Shares.{Share}
use zstrategy.Keys.{KeeperPubkey}
use zstrategy.Commitment.{
  Hashing, dca_commitment_hash, dca_nullifier_hash, derive_strategy_id, derive_user_secret,
  strategy_id_signing_message,
}

pub record Window : Type 0 where
  pub scheduled_lo : ℕ
  pub scheduled_hi : ℕ
  pub expiry : ℕ

-- INTERVALS, in seconds: 1 MIN, 6H, 24H, 7D
abbrev pub intervals : List ℕ
intervals = 60 ∷ 6 * 3600 ∷ 86400 ∷ 7 * 86400 ∷ []

-- Math.floor(JITTER * interval), which is exact for the INTERVALS.
abbrev pub jitter_of : ℕ → ℕ
jitter_of interval = 15 * interval / 100

abbrev pub window_of : ℕ → ℕ → ℕ → Window
window_of interval now i = record {
  scheduled_lo = now + (i + 1) * interval - jitter_of interval;
  scheduled_hi = now + (i + 1) * interval + jitter_of interval;
  expiry = now + (i + 1) * interval + jitter_of interval + interval;
}

-- The windows of `left` rounds from the i-th on.
unfoldable pub windows_from : ℕ → ℕ → ℕ → ℕ → List Window
windows_from interval now i zero = []
windows_from interval now i (suc left) =
    window_of interval now i ∷ windows_from interval now (i + 1) left

unfoldable pub build_schedule : ℕ → ℕ → ℕ → List Window
build_schedule round_count interval now = windows_from interval now 0 round_count

-- `roundCountValid`
abbrev pub round_count_valid : ℕ → Bool
round_count_valid n = leb 2 n && leb n 10

pub record DcaRoundRecord : Type 0 where
  pub commitment_hash : Text
  pub dca_group_id : Text
  pub owner : Text
  pub strategy_id : Text
  pub nonce : Text
  pub nullifier : Text
  pub token_in : Text
  pub token_out : Text
  pub size : Text
  pub min_out : Text
  pub expiry : ℕ
  pub scheduled_lo : ℕ
  pub scheduled_hi : ℕ
  pub round_index : ℕ
  pub created_at : ℕ

-- A round of the body of POST /api/v1/dca-strategies.
pub record PostedRound : Type 0 where
  pub commitment_hash : Text
  pub nonce : Text
  pub nullifier : Text
  pub size : Text
  pub min_out : Text
  pub scheduled_lo : ℕ
  pub scheduled_hi : ℕ
  pub expiry : ℕ
  pub round_index : ℕ

pub record PostDcaGroupBody : Type 0 where
  pub chain_id : ℕ
  pub token_in : Text
  pub token_out : Text
  pub encrypted_shares : List Share
  pub rounds : List PostedRound

-- The arguments of `registerBatch`.
pub record Batch : Type 0 where
  pub hashes : List Text
  pub token_in : Text
  pub token_out : Text
  pub sizes : List ℤ
  pub min_outs : List ℤ
  pub expiries : List ℤ
  pub kind : ℕ

pub record DcaForm : Type 0 where
  pub is_connected : Bool
  pub address : Option Text
  pub chain_id : ℕ
  pub token_in : Text
  pub token_out : Text
  pub size : ℤ
  pub round_count : ℕ
  pub interval : ℕ
  pub shared_nonce : Text

pub record DcaPorts : Type 0 where
  pub hashing : Hashing
  -- `keeperApi.listKeepers`, `signMessageAsync`, `splitAndEncryptSecret`, `saveDcaRounds`
  pub list_keepers : Result (List KeeperPubkey)
  pub sign_message : Text → Result Text
  pub split_and_encrypt : Text → List KeeperPubkey → Result (List Share)
  pub save_rounds : List DcaRoundRecord → Result {0} Unit
  -- the second that the clock shows, and what `randomBytes32` gives for the i-th round
  pub current_now : ℕ
  pub round_nonce : ℕ → Text

-- What the submission leads to.
pub record Submission : Type 0 where
  pub records : List DcaRoundRecord
  pub post : PostDcaGroupBody
  pub batch : Batch

abbrev pub is_zero : ℤ → Bool
is_zero (pos n) = n == 0
is_zero (negsuc n) = false

module _ (ports : DcaPorts) (form : DcaForm) where
  -- One round of the loop over the schedule and of the map to records: the i-th.
  abbrev pub round_record : Text → Text → Text → ℕ → Window → Result DcaRoundRecord
  round_record owner strategy_id user_secret i w = do
    hash ← dca_commitment_hash ports.hashing (record {
      token_in = form.token_in;
      token_out = form.token_out;
      size = form.size;
      min_out = pos 0;
      scheduled_lo = pos w.scheduled_lo;
      scheduled_hi = pos w.scheduled_hi;
      expiry = pos w.expiry;
      nonce = ports.round_nonce i;
      user_secret = user_secret;
    })
    nullifier ← dca_nullifier_hash ports.hashing user_secret (ports.round_nonce i)
    ok (record {
      commitment_hash = hash;
      dca_group_id = strategy_id;
      owner = to_lower_case owner;
      strategy_id = strategy_id;
      nonce = ports.round_nonce i;
      nullifier = nullifier;
      token_in = form.token_in;
      token_out = form.token_out;
      size = print_int form.size;
      min_out = codes "0";
      expiry = w.expiry;
      scheduled_lo = w.scheduled_lo;
      scheduled_hi = w.scheduled_hi;
      round_index = i;
      created_at = ports.current_now;
    })

  unfoldable pub round_records : Text → Text → Text → ℕ → List Window → Result (List DcaRoundRecord)
  round_records owner strategy_id user_secret i [] = ok []
  round_records owner strategy_id user_secret i (w ∷ ws) =
      round_record owner strategy_id user_secret i w >>= λ r.
      round_records owner strategy_id user_secret (i + 1) ws >>= λ rs. ok (r ∷ rs)

  abbrev pub posted_round : DcaRoundRecord → PostedRound
  posted_round r = record {
    commitment_hash = r.commitment_hash;
    nonce = r.nonce;
    nullifier = r.nullifier;
    size = r.size;
    min_out = codes "0";
    scheduled_lo = r.scheduled_lo;
    scheduled_hi = r.scheduled_hi;
    expiry = r.expiry;
    round_index = r.round_index;
  }

  abbrev pub submission_of : List Window → List Share → List DcaRoundRecord → Submission
  submission_of sched shares records = record {
    records = records;
    post = record {
      chain_id = form.chain_id;
      token_in = form.token_in;
      token_out = form.token_out;
      encrypted_shares = shares;
      rounds = map posted_round records;
    };
    batch = record {
      hashes = map (λ r. r.commitment_hash) records;
      token_in = form.token_in;
      token_out = form.token_out;
      sizes = replicate form.round_count form.size;
      min_outs = replicate form.round_count (pos 0);
      expiries = map (λ w. pos w.expiry) sched;
      kind = 1;
    };
  }

  -- The body of the try; what it throws becomes the form's error.
  unfoldable pub submit_for : Text → Result Submission
  submit_for owner = do
    strategy_id ← derive_strategy_id ports.hashing owner form.shared_nonce
    keepers ← ports.list_keepers
    signature ← ports.sign_message (strategy_id_signing_message strategy_id)
    user_secret ← derive_user_secret ports.hashing signature
    let sched = build_schedule form.round_count form.interval ports.current_now
    records ← round_records owner strategy_id user_secret 0 sched
    shares ← ports.split_and_encrypt user_secret keepers
    saved ← ports.save_rounds records
    ok (submission_of sched shares records)

  -- `none` for the early return.
  unfoldable pub handle_submit : Option (Result Submission)
  handle_submit = elim form.address [
    | none ↦ none
    | some owner ↦
        if not form.is_connected || is_zero form.size || not (round_count_valid form.round_count)
        then none
        else some (submit_for owner)
  ]
