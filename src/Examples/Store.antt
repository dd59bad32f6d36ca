-- ===== src/Examples/Store.antt =====
-- The share table, the key file and the rate limit at concrete inputs.
use zstrategy.Base.{
  ℕ, zero, suc, ◌+◌, ◌-◌, ◌/◌, ◌≤◌, Bool, true, false, List, [], ◌∷◌, ◌++◌, none, some, map, any,
  length, if◌then◌else◌, ◌≡◌, ◌≢◌, refl, arith,
}
use zstrategy.Base.Int.{pos}
use zstrategy.Base.Text.{Text, codes, text_eq}
use zstrategy.Base.Result.{ok}
use zstrategy.Shares.{
  ShareRow, Share, Table, share_row, insert_shares, get_shares_for_commitment,
  delete_shares_for_commitment,
}
use zstrategy.Shares.Insert.{HasDistinctKeepers, others, get-insert_shares}
use zstrategy.Shares.Keys.{HasUniqueKeys, delete_shares_lem}
use zstrategy.Keys.{
  absent, stored, KeyState, KeeperKeypair, keeper_name, keypair, load_or_create_keypairs,
  get_keypair_by_id,
}
use zstrategy.Keys.Reload.{load_or_create_restart, get_keypair_by_id-generated}
use zstrategy.ShareApi.{TableRequest, post, delete, has_secret, serve_all, post_shares, SharesBody}
use zstrategy.ShareApi.Storing.{shares_body}
use zstrategy.ShareApi.Requests.{serve_all-HasUniqueKeys, post_shares-refused}
use zstrategy.RateLimit.{Tick, request, swept, granted, keepers_rate_limit, sweep, Buckets}
use zstrategy.RateLimit.Bound.{last_time, granted_bound, sweep_unobservable}
use zstrategy.Examples.Toys.{toy_ecies, toy_key_laws, toy_checks}

abbrev row : Text → Text → ShareRow
row hash keeper = record {
  commitment_hash = hash;
  keeper_id = keeper;
  ciphertext = codes "0x";
  received_at = 1;
}

abbrev small_table : Table
small_table =
    row (codes "0xa") (codes "k0")
    ∷ row (codes "0xb") (codes "k0")
    ∷ row (codes "0xa") (codes "k1")
    ∷ []

abbrev new_shares : List Share
new_shares =
    record { keeper_id = codes "k1"; ciphertext = codes "0x1" }
    ∷ record { keeper_id = codes "k2"; ciphertext = codes "0x2" }
    ∷ []

new_shares-HasDistinctKeepers : HasDistinctKeepers new_shares
unfolding text_eq
new_shares-HasDistinctKeepers = (refl, (refl, tt))

get-insert_shares_example :
    get_shares_for_commitment
      (codes "0xa")
      (insert_shares (codes "0xa" ∷ codes "0xc" ∷ []) new_shares 5000 small_table)
    ≡ (if any (λ h. text_eq h (codes "0xa")) (codes "0xa" ∷ codes "0xc" ∷ [])
        then others new_shares (get_shares_for_commitment (codes "0xa") small_table)
          ++ map (share_row (codes "0xa") (5000 / 1000)) new_shares
        else get_shares_for_commitment (codes "0xa") small_table)
get-insert_shares_example =
    get-insert_shares (codes "0xa") (codes "0xa" ∷ codes "0xc" ∷ []) new_shares 5000 small_table
      new_shares-HasDistinctKeepers

small_table-HasUniqueKeys : HasUniqueKeys small_table
unfolding text_eq
small_table-HasUniqueKeys = (refl, (refl, (refl, tt)))

delete_shares_lem_example :
    (get_shares_for_commitment
        (codes "0xb")
        (delete_shares_for_commitment (codes "0xa") small_table).0
      ≡ (if text_eq (codes "0xb") (codes "0xa")
          then []
          else get_shares_for_commitment (codes "0xb") small_table))
    × (length (delete_shares_for_commitment (codes "0xa") small_table).0
          + (delete_shares_for_commitment (codes "0xa") small_table).1
        ≡ length small_table)
    × HasUniqueKeys (delete_shares_for_commitment (codes "0xa") small_table).0
delete_shares_lem_example =
    delete_shares_lem (codes "0xa") (codes "0xb") small_table small_table-HasUniqueKeys

abbrev requests : List (TableRequest toy_checks)
requests =
    post (some (codes "Bearer s")) (shares_body (codes "0xa" ∷ []) new_shares) 7000
    ∷ delete (some (codes "Bearer s")) (codes "0xb")
    ∷ post none (shares_body (codes "0xa" ∷ []) new_shares) 8000
    ∷ []

serve_all-HasUniqueKeys_example :
    HasUniqueKeys (serve_all toy_checks (codes "s") (codes "k1" ∷ []) requests small_table)
serve_all-HasUniqueKeys_example =
    serve_all-HasUniqueKeys toy_checks (codes "s") (codes "k1" ∷ []) requests small_table
      small_table-HasUniqueKeys

-- A body whose hashes are no array.
abbrev bad_body : SharesBody
bad_body = record { commitment_hashes = none; encrypted_shares = some [] }

bad_body_refused :
    (post_shares toy_checks
      (codes "s")
      (codes "k1" ∷ [])
      (some (codes "Bearer s"))
      bad_body
      7000
      small_table).0.status
    ≢ 201
unfolding post_shares has_secret text_eq
bad_body_refused h = omega arith

post_shares-refused_example :
    (post_shares toy_checks
      (codes "s")
      (codes "k1" ∷ [])
      (some (codes "Bearer s"))
      bad_body
      7000
      small_table).1
    ≡ small_table
post_shares-refused_example =
    post_shares-refused toy_checks (codes "s") (codes "k1" ∷ []) (some (codes "Bearer s")) bad_body
      7000 small_table bad_body_refused

-- The i-th key that is drawn, and another choice.
abbrev draws : ℕ → Bool
draws zero = true
draws (suc i) = false

load_or_create_restart_example :
    load_or_create_keypairs toy_ecies 3
      (λ i. false)
      (record {
        keys = none;
        file =
            (load_or_create_keypairs toy_ecies 3 draws
              (record { keys = none; file = absent })).1.file;
      })
    ≡ load_or_create_keypairs toy_ecies 3 draws (record { keys = none; file = absent })
load_or_create_restart_example = load_or_create_restart toy_ecies toy_key_laws 3 draws (λ i. false)

abbrev fresh_state : KeyState toy_ecies
fresh_state = record { keys = none; file = absent }

abbrev three_keys : List (KeeperKeypair toy_ecies)
three_keys =
    keypair toy_ecies (keeper_name 0) true
    ∷ keypair toy_ecies (keeper_name 1) false
    ∷ keypair toy_ecies (keeper_name 2) false
    ∷ []

fresh_keys : (load_or_create_keypairs toy_ecies 3 draws fresh_state).0 ≡ ok three_keys
unfolding load_or_create_keypairs zstrategy.Keys.generate
fresh_keys = refl

get_keypair_by_id-generated_example :
    get_keypair_by_id toy_ecies (keeper_name 2) three_keys
    ≡ some (keypair toy_ecies (keeper_name 2) (draws 2))
get_keypair_by_id-generated_example =
    get_keypair_by_id-generated toy_ecies 3 2 draws three_keys fresh_keys (omega arith)

abbrev ticks : List Tick
ticks =
    request (codes "ip") 100
    ∷ request (codes "other") 150
    ∷ swept 4000000
    ∷ request (codes "ip") 4000001
    ∷ []

granted_bound_example : granted (codes "ip") ticks (λ k. none) ≤ 30 + (last_time 0 ticks - 0) / 2000
granted_bound_example =
    granted_bound (codes "ip") ticks 0
      (omega arith, (omega arith, (omega arith, (omega arith, tt))))

abbrev some_buckets : Buckets
some_buckets = λ k. some (record { tokens = pos 500; updated = 1000 })

sweep_unobservable_example :
    (keepers_rate_limit (codes "ip") 4000000 (sweep 4000000 some_buckets)).0
    ≡ (keepers_rate_limit (codes "ip") 4000000 some_buckets).0
sweep_unobservable_example =
    sweep_unobservable (codes "ip") 4000000 some_buckets (refl, omega arith)
