-- ===== src/Examples/Returning.antt =====
-- Balances that are returned, with the toy library.
use zstrategy.Base.{
  ℕ, true, false, List, [], ◌∷◌, none, any, map, ◌==◌, if◌then◌else◌, length, ltb, ◌≡◌, refl,
}
use zstrategy.Base.Text.{Text, codes, text_eq}
use zstrategy.Base.Result.{ok}
use zstrategy.Js.{text, trim, to_lower_case}
use zstrategy.Scripts.Chain.{Setting}
use zstrategy.Scripts.Settings.{require_address, address_from_env_or_deployment}
use zstrategy.Scripts.Tokens.{
  CancelEntry, array, parse_bytes32_list, load_cancel_entries, collect_token_addresses,
}
use zstrategy.Scripts.Tokens.Distinct.{IsDistinct}
use zstrategy.Scripts.Tokens.Collected.{configured, collect_token_addresses_lem}
use zstrategy.Scripts.Holdings.{
  Holdings, ReturnSetting, absent, pending, CommitmentRecord, sweep_expired,
}
use zstrategy.Scripts.ReturnBalances.{
  main, sweep_some, cancel_all, tokens_setting, expired_setting, cancel_setting,
}
use zstrategy.Scripts.ReturnBalances.Outcome.{IsReturned, main-IsReturned}
use zstrategy.Examples.Deploying.{toy_address, signed_setting}

abbrev settings : Setting
settings = signed_setting (
    (codes "COMMITMENT_REGISTRY_ADDRESS", toy_address 27)
    ∷ (codes "COLLATERAL_VAULT_ADDRESS", toy_address 25)
    ∷ (codes "GAS_VAULT_ADDRESS", toy_address 26)
    ∷ (codes "WITHDRAW_TOKENS", codes "0xaa, 0xAA,0xaaaa,")
    ∷ (codes "USDC_ADDRESS", codes "0xbbbb")
    ∷ (codes "EXPIRED_COMMITMENTS", codes "e")
    ∷ (codes "CANCEL_COMMITMENTS_FILE", codes "c.json")
    ∷ [])

-- A commitment by the length of its text; commitment 1 has expired, commitment 2 is pending.
abbrev commitment : ℕ → CommitmentRecord
commitment h =
    if h == 1
    then record { owner = 1; expiry = 50; status = pending; token_in = 2; size = 10 }
    else if h == 2
    then record { owner = 1; expiry = 500; status = pending; token_in = 4; size = 7 }
    else record { owner = 0; expiry = 0; status = absent; token_in = 0; size = 0 }

abbrev returning : ReturnSetting
returning = record {
  setting = settings;
  is_bytes32 = λ t. ltb (length t) 3;
  bytes_of = λ t. length t;
  read_file = λ name. ok (array ((text (codes "cc"), text (codes "n")) ∷ []));
  deployment = none;
  is_registry = true;
  block_time = 100;
  transfers = λ token amount. true;
  pays = λ amount. true;
}

abbrev holdings : Holdings
holdings = record {
  free = λ user token. if token == 2 then 5 else 0;
  locked = λ h token. if h == 1 then 10 else if h == 2 then 7 else 0;
  commitments = commitment;
  nullifiers = λ n. false;
  gas = λ user. 9;
  wallet = λ token. 100;
  ether = 1;
}

abbrev swept : Holdings
swept = (sweep_some returning (codes "e" ∷ []) holdings).1

abbrev entry : CancelEntry
entry = record { commitment_hash = codes "cc"; nullifier = codes "n" }

abbrev closed : Holdings
closed = (cancel_all returning (entry ∷ []) swept).1

abbrev returned : Holdings
returned = (main returning holdings).1

-- The token 2 gets back the ten of commitment 1, and the token 4 the seven of commitment 2.
returned_runs : main returning holdings ≡ (ok tt, returned)
unfolding main address_from_env_or_deployment text_eq collect_token_addresses trim
    parse_bytes32_list sweep_expired load_cancel_entries to_lower_case
returned_runs = refl

main-IsReturned_example :
    (tokens expired : List Text) × (entries : List CancelEntry) × (u v : Holdings) × (tokens_setting
        returning
      ≡ ok tokens)
    × (expired_setting returning ≡ ok expired)
    × (cancel_setting returning ≡ ok entries)
    × (sweep_some returning expired holdings ≡ (ok tt, u))
    × (cancel_all returning entries u ≡ (ok tt, v))
    × IsReturned returning (map returning.address_of tokens) v returned
main-IsReturned_example = main-IsReturned returning holdings returned returned_runs

wallet_2 : returned.wallet 2 ≡ 115
unfolding main address_from_env_or_deployment text_eq collect_token_addresses trim
    parse_bytes32_list sweep_expired load_cancel_entries to_lower_case
wallet_2 = refl

collect_token_addresses_lem_example :
    IsDistinct (codes "0xaa" ∷ codes "0xaaaa" ∷ codes "0xbbbb" ∷ [])
    × ((x : Text)
        → any (text_eq x) (codes "0xaa" ∷ codes "0xaaaa" ∷ codes "0xbbbb" ∷ [])
          ≡ any (text_eq x) (map to_lower_case (configured settings [])))
unfolding collect_token_addresses text_eq trim require_address to_lower_case
collect_token_addresses_lem_example =
    collect_token_addresses_lem settings [] (codes "0xaa" ∷ codes "0xaaaa" ∷ codes "0xbbbb" ∷ [])
      refl
