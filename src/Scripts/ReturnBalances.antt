-- ===== src/Scripts/ReturnBalances.antt =====
-- contracts/scripts/return-vault-balances.ts
pub mod Emptied
pub mod Outcome
pub mod Completed
use zstrategy.Base.{ℕ, Bool, List, [], ◌∷◌, Option, none, some, if◌then◌else◌, ◌==◌}
use zstrategy.Base.Text.{Text, codes}
use zstrategy.Base.Result.{Result}
use zstrategy.Scripts.Run.{Script, give, fail, lift, read, transaction, ◌>>=◌}
use zstrategy.Scripts.Chain.{Setting, PriceFeed, Deployment}
use zstrategy.Scripts.Settings.{address_from_env_or_deployment, feeds_or_none}
use zstrategy.Scripts.Tokens.{
  collect_token_addresses, parse_bytes32_list, load_cancel_entries, CancelEntry,
}
use zstrategy.Scripts.Holdings.{
  Holdings, ReturnSetting, Act, user, sweep_expired, cancel_commitment, withdraw, withdraw_gas,
}

module _ (s : ReturnSetting) where
  abbrev pub token_address : Text → Script Holdings ℕ
  token_address t =
      if s.is_address t then give (s.address_of t) else fail (codes "network does not support ENS")

  unfoldable pub cancel_all : List CancelEntry → Act
  unfolding cancel_commitment
  cancel_all [] = give tt
  cancel_all (entry ∷ entries) =
      transaction
        (cancel_commitment s (s.bytes_of entry.commitment_hash) (s.bytes_of entry.nullifier))
      >>= λ done. cancel_all entries

  abbrev pub withdraw_all : ℕ → ℕ → Act
  withdraw_all a balance = if balance == 0 then give tt else transaction (withdraw s a balance)

  unfoldable pub withdraw_token : Text → Act
  unfolding withdraw
  withdraw_token t = do
    a ← token_address t
    balance ← read (λ w. w.free (user s) a)
    withdraw_all a balance

  unfoldable pub withdraw_tokens : List Text → Act
  unfolding withdraw_token
  withdraw_tokens [] = give tt
  withdraw_tokens (t ∷ ts) = withdraw_token t >>= λ done. withdraw_tokens ts

  abbrev pub withdraw_all_gas : ℕ → Act
  withdraw_all_gas balance = if balance == 0 then give tt else transaction (withdraw_gas s balance)

  unfoldable pub return_gas : Act
  unfolding withdraw_gas
  return_gas = do balance ← read (λ w. w.gas (user s)); withdraw_all_gas balance

  -- A key of the deployment file, `{}` if there is none.
  abbrev pub from_file {κ} : {A : Type κ} → (Deployment → Option A) → Option A
  from_file key = elim s.deployment [ none ↦ none | some d ↦ key d ]

  abbrev pub sweep_some : List Text → Act
  sweep_some [] = give tt
  sweep_some (h ∷ hs) = transaction (sweep_expired s (h ∷ hs))

  -- One of the three addresses.
  abbrev pub address_setting : Text → Text → (Deployment → Option Text) → Result Text
  address_setting env_name key field =
      address_from_env_or_deployment s.setting env_name key (from_file field)

  abbrev pub registry_setting : Result Text
  registry_setting =
      address_setting (codes "COMMITMENT_REGISTRY_ADDRESS") (codes "commitmentRegistry")
        (λ d. d.commitment_registry)

  abbrev pub collateral_setting : Result Text
  collateral_setting =
      address_setting (codes "COLLATERAL_VAULT_ADDRESS") (codes "collateralVault")
        (λ d. d.collateral_vault)

  abbrev pub gas_setting : Result Text
  gas_setting = address_setting (codes "GAS_VAULT_ADDRESS") (codes "gasVault") (λ d. d.gas_vault)

  abbrev pub tokens_setting : Result (List Text)
  tokens_setting =
      collect_token_addresses s.setting (feeds_or_none (from_file (λ d. d.price_feeds)))

  -- The commitments to sweep, and those to cancel, which are read after the sweep.
  abbrev pub expired_setting : Result (List Text)
  expired_setting =
      parse_bytes32_list s.is_bytes32 (codes "EXPIRED_COMMITMENTS")
        (s.env (codes "EXPIRED_COMMITMENTS"))

  abbrev pub cancel_setting : Result (List CancelEntry)
  cancel_setting =
      load_cancel_entries s.is_bytes32 s.read_file (s.env (codes "CANCEL_COMMITMENTS_FILE"))

  unfoldable pub main : Act
  unfolding cancel_all withdraw_tokens return_gas
  main = do
    registry ← lift registry_setting
    collateral ← lift collateral_setting
    gas ← lift gas_setting
    tokens ← lift tokens_setting
    expired ← lift expired_setting
    swept ← sweep_some expired
    entries ← lift cancel_setting
    closed ← cancel_all entries
    emptied ← withdraw_tokens tokens
    return_gas
