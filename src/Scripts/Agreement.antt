-- ===== src/Scripts/Agreement.antt =====
-- The deployment file against the chain, over the scripts of contracts/scripts that write it.
pub mod Runs
use zstrategy.Base.{
  ℕ, Bool, true, false, Option, none, some, if◌then◌else◌, ◌==◌, ◌≡◌, refl, sym, ap, ◌∙◌, ==_refl,
  inl, inr, Bool-cases, arith,
}
use zstrategy.Base.Text.{Text}
use zstrategy.Base.Result.{ok}
use zstrategy.Scripts.Chain.{
  Ethers, IsEthers, Setting, Registry, Adapter, Chain, Deployment, World, set_at, next_address,
  with_file,
}
use zstrategy.Scripts.Wiring.{Wires}
use zstrategy.Scripts.Wiring.Spec.{wired, wired_registry}
use zstrategy.Scripts.Deploy.{deployment}
use zstrategy.Scripts.Redeploy.{next_deployment}

-- The chain has a registry with these parts at an address, and both of its vaults point to it.
pub record IsWired (e : Ethers)
    (registry vault gas_vault dex_adapter order_fill_verifier dca_verifier : Text) (c : Chain)
    : Type 0 where
  pub parts : Registry
  pub there : c.registries (e.address_of registry) ≡ some parts
  pub vault_part : parts.vault ≡ e.address_of vault
  pub gas_vault_part : parts.gas_vault ≡ e.address_of gas_vault
  pub dex_adapter_part : parts.dex_adapter ≡ e.address_of dex_adapter
  pub order_fill_part : parts.verifiers 0 ≡ e.address_of order_fill_verifier
  pub dca_part : parts.verifiers 1 ≡ e.address_of dca_verifier
  pub vault_points : c.vaults (e.address_of vault) ≡ some (e.address_of registry)
  pub gas_vault_points : c.vaults (e.address_of gas_vault) ≡ some (e.address_of registry)

-- The file names a registry, its vaults, its adapter and its verifiers, and they are so on the chain.
pub data IsAgreed (e : Ethers) (d : Deployment) (c : Chain) : Type 0 where
  agreed :
      (registry vault gas_vault dex_adapter order_fill_verifier dca_verifier : Text)
      → d.commitment_registry ≡ some registry
      → d.collateral_vault ≡ some vault
      → d.gas_vault ≡ some gas_vault
      → d.dex_adapter ≡ some dex_adapter
      → d.order_fill_verifier ≡ some order_fill_verifier
      → d.dca_verifier ≡ some dca_verifier
      → IsWired e registry vault gas_vault dex_adapter order_fill_verifier dca_verifier c
      → IsAgreed e d c

-- The file of a world, which is there and agrees with its chain.
pub data HasAgreed (e : Ethers) (w : World) : Type 0 where
  has : (d : Deployment) → w.file ≡ some d → IsAgreed e d w.chain → HasAgreed e w

module _ (s : Setting) (laws : IsEthers s.ethers) where
  set_at_here {κ} : {A : Type κ} (a : ℕ) (v : A) (f : ℕ → A) → set_at a v f a ≡ v
  set_at_here a v f = rw (==_refl a) refl

  set_at_either {κ} : {A : Type κ} (a b : ℕ) (v : A) (f : ℕ → A) → set_at a v (set_at b v f) b ≡ v
  set_at_either a b v f = elim (Bool-cases (a == b)) [
    | inl same ↦ rw same refl
    | inr other ↦ rw other (set_at_here b v f)
  ]

  pub wired_there :
      (x : Wires) (w : World)
      → (wired s x w).chain.registries (s.address_of (s.shown (next_address s w)))
        ≡ some (wired_registry s x)
  wired_there x w =
      let a = next_address s w in
      ap (set_at a (some (wired_registry s x)) w.chain.registries) (laws.address_of-shown a)
      ∙ set_at_here a (some (wired_registry s x)) w.chain.registries

  pub wired-IsWired :
      (x : Wires) (w : World)
      → IsWired s.ethers
          (s.shown (next_address s w))
          x.collateral_vault
          x.gas_vault
          x.dex_adapter
          x.order_fill_verifier
          x.dca_verifier
          (wired s x w).chain
  wired-IsWired x w =
      let a = next_address s w in
      let at = laws.address_of-shown a in
      record {
        parts = wired_registry s x;
        there = wired_there x w;
        vault_part = refl;
        gas_vault_part = refl;
        dex_adapter_part = refl;
        order_fill_part = refl;
        dca_part = refl;
        vault_points =
            set_at_either (s.address_of x.gas_vault) (s.address_of x.collateral_vault) (some a)
              w.chain.vaults
            ∙ ap some (sym at);
        gas_vault_points =
            set_at_here (s.address_of x.gas_vault) (some a)
              (set_at (s.address_of x.collateral_vault) (some a) w.chain.vaults)
            ∙ ap some (sym at);
      }

  -- deploy.ts and redeploy-registry.ts write a file that agrees with the chain that they leave.
  pub deployed-HasAgreed :
      (x : Wires) (w w' : World)
      → w' ≡ with_file (deployment s x (s.shown (next_address s w))) (wired s x w)
      → HasAgreed s.ethers w'
  deployed-HasAgreed x w w' same = rw same (
      has (deployment s x (s.shown (next_address s w))) refl (
        agreed (s.shown (next_address s w)) x.collateral_vault x.gas_vault x.dex_adapter
          x.order_fill_verifier x.dca_verifier refl refl refl refl refl refl (wired-IsWired x w)))

  pub redeployed-HasAgreed :
      (d : Deployment) (x : Wires) (w w' : World)
      → w' ≡ with_file (next_deployment s d x (s.shown (next_address s w))) (wired s x w)
      → HasAgreed s.ethers w'
  redeployed-HasAgreed d x w w' same = rw same (
      has (next_deployment s d x (s.shown (next_address s w))) refl (
        agreed (s.shown (next_address s w)) x.collateral_vault x.gas_vault x.dex_adapter
          x.order_fill_verifier x.dca_verifier refl refl refl refl refl refl (wired-IsWired x w)))
