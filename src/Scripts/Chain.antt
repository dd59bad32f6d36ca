-- ===== src/Scripts/Chain.antt =====
-- What the scripts read and change: the contracts on the chain as far as the scripts call them
-- (contracts/contracts/core/CommitmentRegistry.sol, CollateralVault.sol, GasVault.sol and
-- adapters/UniswapV3Adapter.sol), and the deployment file of the network.
--
-- ethers and OpenZeppelin's Ownable are parameters. An address on the chain is its number. A call at a text that is
-- not an address throws: that ethers asks a name service about it is not modelled. A transaction that
-- would revert throws and changes nothing.
use zstrategy.Base.{ℕ, suc, Bool, not, List, Option, none, some, if◌then◌else◌, ◌==◌, ◌≡◌}
use zstrategy.Base.Text.{Text, codes}
use zstrategy.Js.{to_lower_case}
use zstrategy.Scripts.Run.{Script, give, fail, read, change, require, ◌>>=◌}

pub record Ethers : Type 0 where
  -- `ethers.isAddress`, the bytes that a call encodes for an address, and the text of an address that a call returns
  pub is_address : Text → Bool
  pub address_of : Text → ℕ
  pub shown : ℕ → Text
  -- `onlyOwner` of the contract at an address lets this sender pass
  pub is_owner : ℕ → ℕ → Bool
  -- the address of the contract that a sender creates at a nonce
  pub create_address : ℕ → ℕ → ℕ

-- What the scripts rely on: the text of a returned address is encoded as that address, and texts that are equal
-- in lower case are encoded as the same address.
pub record IsEthers (e : Ethers) : Type 0 where
  pub address_of-shown : (a : ℕ) → e.address_of (e.shown a) ≡ a
  pub address_of-lower :
      (s t : Text) → to_lower_case s ≡ to_lower_case t → e.address_of s ≡ e.address_of t

-- What a run of a script is given.
pub record Setting : Type 0 where
  pub ethers : Ethers
  pub open ethers use *
  -- `process.env`, the network's name and chain id, the signer's address and the time as a text
  pub env : Text → Option Text
  pub network : Text
  pub chain_id : ℕ
  pub deployer : Text
  pub now : Text

pub record Registry : Type 0 where
  pub gas_vault : ℕ
  pub vault : ℕ
  pub dex_adapter : ℕ
  pub guardian : ℕ
  pub verifiers : ℕ → ℕ
  pub price_feeds : ℕ → ℕ

pub record Adapter : Type 0 where
  pub router : ℕ
  pub fee_tier : ℕ

-- The contracts by their addresses: a vault of either kind by its `registry`, and the deployer's nonce.
pub record Chain : Type 0 where
  pub vaults : ℕ → Option ℕ
  pub registries : ℕ → Option Registry
  pub adapters : ℕ → Option Adapter
  pub nonce : ℕ

pub record PriceFeed : Type 0 where
  pub token : Option Text
  pub feed : Option Text

-- The deployment file; a field that an older file lacks is `none`.
pub record Deployment : Type 0 where
  pub network : Option Text
  pub chain_id : Option ℕ
  pub deployer : Option Text
  pub guardian : Option Text
  pub order_fill_verifier : Option Text
  pub dca_verifier : Option Text
  pub collateral_vault : Option Text
  pub commitment_registry : Option Text
  pub gas_vault : Option Text
  pub dex_adapter : Option Text
  pub price_feeds : Option (List (Text × PriceFeed))
  pub mock_verifier : Option Text
  pub deployed_at : Option Text

pub record World : Type 0 where
  pub chain : Chain
  pub file : Option Deployment

abbrev pub Action : Type 0
Action = Script {0, 0} World Unit

abbrev pub set_at {κ} : {A : Type κ} → ℕ → A → (ℕ → A) → ℕ → A
set_at a v f = λ b. if a == b then v else f b

-- The changes of the chain.
abbrev pub with_nonce : World → World
with_nonce w = record w { chain = record w.chain { nonce = suc w.chain.nonce } }

abbrev pub with_vault : ℕ → ℕ → World → World
with_vault a registry w = record w {
  chain = record w.chain { vaults = set_at a (some registry) w.chain.vaults };
}

abbrev pub with_registry : ℕ → Registry → World → World
with_registry a r w = record w {
  chain = record w.chain { registries = set_at a (some r) w.chain.registries };
}

abbrev pub with_adapter : ℕ → Adapter → World → World
with_adapter a d w = record w {
  chain = record w.chain { adapters = set_at a (some d) w.chain.adapters };
}

-- `fs.writeFileSync` of the deployment file
abbrev pub with_file : Deployment → World → World
with_file d w = record w { file = some d }

abbrev found {κ} : {A : Type κ} → Option A → Script World A
found none = fail (codes "could not decode result data")
found (some x) = give x

module _ (s : Setting) where
  -- `msg.sender` of the scripts' transactions
  abbrev pub sender : ℕ
  sender = s.address_of s.deployer

  abbrev pub resolved : Text → Script World ℕ
  resolved t =
      if s.is_address t then give (s.address_of t) else fail (codes "network does not support ENS")

  -- the address of the next contract that the deployer creates
  abbrev pub next_address : World → ℕ
  next_address w = s.create_address sender w.chain.nonce

  -- `Factory.deploy()` and `getAddress()`, for a contract whose constructor has no guard, and what it stores
  abbrev pub deploy_with : (ℕ → World → World) → Script World Text
  deploy_with store = do
    a ← read next_address
    counted ← change with_nonce
    stored ← change (store a)
    give (s.shown a)

  -- a contract that the scripts do not call, such as a verifier or a library
  unfoldable pub deploy : Script World Text
  deploy = deploy_with (λ a w. w)

  -- a vault of either kind
  unfoldable pub deploy_vault_contract : Script World Text
  deploy_vault_contract = deploy_with (λ a. with_vault a 0)

  unfoldable pub deploy_adapter : ℕ → ℕ → Script World Text
  deploy_adapter router fee_tier =
      deploy_with (λ a. with_adapter a (record { router = router; fee_tier = fee_tier }))

  abbrev pub new_registry : ℕ → ℕ → ℕ → ℕ → Registry
  new_registry gas_vault vault dex_adapter guardian = record {
    gas_vault = gas_vault;
    vault = vault;
    dex_adapter = dex_adapter;
    guardian = guardian;
    verifiers = λ kind. 0;
    price_feeds = λ token. 0;
  }

  -- the constructor of CommitmentRegistry
  unfoldable pub construct_registry : ℕ → ℕ → ℕ → ℕ → Script World Text
  construct_registry gas_vault vault dex_adapter guardian = do
    gas ← require (not (gas_vault == 0)) (codes "Registry: zero gas vault")
    collateral ← require (not (vault == 0)) (codes "Registry: zero vault")
    dex ← require (not (dex_adapter == 0)) (codes "Registry: zero adapter")
    guarded ← require (not (guardian == 0)) (codes "Registry: zero guardian")
    deploy_with (λ a. with_registry a (new_registry gas_vault vault dex_adapter guardian))

  -- the view `registry()` of a vault
  abbrev pub vault_registry : ℕ → Script World ℕ
  vault_registry a w = found (w.chain.vaults a) w

  -- `setRegistry` of either vault; the message of GasVault starts with "GasVault".
  unfoldable pub set_registry : ℕ → ℕ → Action
  set_registry a registry = do
    old ← vault_registry a
    owned ← require (s.is_owner a sender) (codes "OwnableUnauthorizedAccount")
    nonzero ← require (not (registry == 0)) (codes "Vault: zero registry")
    change (with_vault a registry)

  abbrev pub registry_at : ℕ → Script World Registry
  registry_at a w = found (w.chain.registries a) w

  abbrev only_guardian : Registry → Action
  only_guardian r = require (sender == r.guardian) (codes "Registry: caller not guardian")

  -- a view of an adapter, such as `router()`
  abbrev pub adapter_at : ℕ → Script World Adapter
  adapter_at a w = found (w.chain.adapters a) w

  unfoldable pub set_verifier : ℕ → ℕ → ℕ → Action
  set_verifier a kind verifier = do
    r ← registry_at a
    guarded ← only_guardian r
    nonzero ← require (not (verifier == 0)) (codes "Registry: zero verifier")
    change (with_registry a (record r { verifiers = set_at kind verifier r.verifiers }))

  unfoldable pub set_price_feed : ℕ → ℕ → ℕ → Action
  set_price_feed a token feed = do
    r ← registry_at a
    guarded ← only_guardian r
    nonzero ← require (not (token == 0)) (codes "Registry: zero token")
    change (with_registry a (record r { price_feeds = set_at token feed r.price_feeds }))

  unfoldable pub set_dex_adapter : ℕ → ℕ → Action
  set_dex_adapter a adapter = do
    r ← registry_at a
    guarded ← only_guardian r
    nonzero ← require (not (adapter == 0)) (codes "Registry: zero adapter")
    change (with_registry a (record r { dex_adapter = adapter }))
