-- ===== src/Scripts/Holdings.antt =====
-- What contracts/scripts/return-vault-balances.ts calls of the registry and the two vaults
-- (contracts/contracts/core/CommitmentRegistry.sol, CollateralVault.sol and GasVault.sol): sweepExpired,
-- cancelCommitment, returnCollateral and the two withdrawals. The state is that of the contracts at the three
-- addresses that the script finds; whether the token's transfer or the payment of ether goes through is a
-- parameter.
use zstrategy.Base.{
  ℕ, ◌+◌, ◌-◌, Bool, true, false, not, List, [], ◌∷◌, Option, if◌then◌else◌, ltb, leb, ◌==◌,
}
use zstrategy.Base.Text.{Text, codes}
use zstrategy.Base.Result.{Result}
use zstrategy.Scripts.Run.{Script, give, read, change, require, ◌>>=◌}
use zstrategy.Scripts.Chain.{Setting, Deployment, set_at, sender}
use zstrategy.Scripts.Tokens.{CancelFile}

pub data CommitmentStatus : Type 0 where
  absent pending executed cancelled expired : CommitmentStatus

pub record CommitmentRecord : Type 0 where
  pub owner : ℕ
  pub expiry : ℕ
  pub status : CommitmentStatus
  pub token_in : ℕ
  pub size : ℕ

-- Balances by user and token, locked amounts by commitment and token; the signer's own tokens and ether.
pub record Holdings : Type 0 where
  pub free : ℕ → ℕ → ℕ
  pub locked : ℕ → ℕ → ℕ
  pub commitments : ℕ → CommitmentRecord
  pub nullifiers : ℕ → Bool
  pub gas : ℕ → ℕ
  pub wallet : ℕ → ℕ
  pub ether : ℕ

-- What the script is given beside the settings.
pub record ReturnSetting : Type 0 where
  pub setting : Setting
  pub open setting use *
  pub is_bytes32 : Text → Bool
  pub bytes_of : Text → ℕ
  pub read_file : Text → Result CancelFile
  -- the deployment file, if there is one
  pub deployment : Option Deployment
  -- the vault lets the registry move its funds
  pub is_registry : Bool
  pub block_time : ℕ
  pub transfers : ℕ → ℕ → Bool
  pub pays : ℕ → Bool

abbrev pub Act : Type 0
Act = Script {0, 0} Holdings Unit

abbrev pub is_pending : CommitmentStatus → Bool
is_pending pending = true
is_pending _ = false

abbrev pub set_2 : ℕ → ℕ → ℕ → (ℕ → ℕ → ℕ) → ℕ → ℕ → ℕ
set_2 a b v f = set_at a (set_at b v (f a)) f

module _ (s : ReturnSetting) where
  abbrev pub user : ℕ
  user = sender s.setting

  -- of CollateralVault, called by the registry
  unfoldable pub return_collateral : ℕ → ℕ → ℕ → ℕ → Act
  return_collateral h owner token amount = do
    allowed ← require s.is_registry (codes "Vault: caller not registry")
    locked ← read (λ w. w.locked h token)
    enough ← require (leb amount locked) (codes "Vault: insufficient locked balance")
    unlocked ← change (λ w. record w { locked = set_2 h token (locked - amount) w.locked })
    change (λ w. record w { free = set_2 owner token (w.free owner token + amount) w.free })

  abbrev set_status : ℕ → CommitmentStatus → Holdings → Holdings
  set_status h status w = record w {
    commitments = set_at h (record (w.commitments h) { status = status }) w.commitments;
  }

  abbrev sweep_record : ℕ → CommitmentRecord → Act
  sweep_record h c =
      if not (is_pending c.status)
      then give tt
      else if leb s.block_time c.expiry
      then give tt
      else (do
        marked ← change (set_status h expired)
        return_collateral h c.owner c.token_in c.size)

  -- one round of the loop of sweepExpired
  unfoldable pub sweep_one : ℕ → Act
  unfolding return_collateral
  sweep_one h = do c ← read (λ w. w.commitments h); sweep_record h c

  unfoldable pub sweep_expired : List Text → Act
  unfolding sweep_one
  sweep_expired [] = give tt
  sweep_expired (h ∷ hs) = sweep_one (s.bytes_of h) >>= λ done. sweep_expired hs

  unfoldable pub cancel_commitment : ℕ → ℕ → Act
  unfolding return_collateral
  cancel_commitment h nullifier = do
    c ← read (λ w. w.commitments h)
    own ← require (c.owner == user) (codes "Registry: not owner")
    waiting ← require (is_pending c.status) (codes "Registry: not pending")
    spent ← read (λ w. w.nullifiers nullifier)
    unspent ← require (not spent) (codes "Registry: nullifier spent")
    marked ← change (λ w. record w { nullifiers = set_at nullifier true w.nullifiers })
    closed ← change (set_status h cancelled)
    return_collateral h user c.token_in c.size

  -- of CollateralVault and GasVault, called by the signer
  unfoldable pub withdraw : ℕ → ℕ → Act
  withdraw token amount = do
    positive ← require (ltb 0 amount) (codes "Vault: zero amount")
    free ← read (λ w. w.free user token)
    enough ← require (leb amount free) (codes "Vault: insufficient free balance")
    taken ← change (λ w. record w { free = set_2 user token (free - amount) w.free })
    sent ← require (s.transfers token amount) (codes "SafeERC20FailedOperation")
    change (λ w. record w { wallet = set_at token (w.wallet token + amount) w.wallet })

  unfoldable pub withdraw_gas : ℕ → Act
  withdraw_gas amount = do
    positive ← require (ltb 0 amount) (codes "GasVault: zero amount")
    balance ← read (λ w. w.gas user)
    enough ← require (leb amount balance) (codes "GasVault: insufficient")
    taken ← change (λ w. record w { gas = set_at user (balance - amount) w.gas })
    sent ← require (s.pays amount) (codes "GasVault: transfer failed")
    change (λ w. record w { ether = w.ether + amount })
