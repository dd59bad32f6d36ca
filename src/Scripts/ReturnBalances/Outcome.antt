-- ===== src/Scripts/ReturnBalances/Outcome.antt =====
-- What return-vault-balances.ts has withdrawn when it ends well (contracts/scripts/return-vault-balances.ts).
use mathlib.Core.Path.{subst}
use zstrategy.Base.{
  ℕ, ◌+◌, ◌-◌, List, any, map, if◌then◌else◌, ◌==◌, ==_iff, ==_refl, ◌≡◌, refl, sym, ap, ◌∙◌, inl,
  inr, arith, Bool-cases,
}
use zstrategy.Base.Text.{Text}
use zstrategy.Base.Result.{ok}
use zstrategy.Scripts.Run.{lift_ok, continue-eq-ok, transaction_ok}
use zstrategy.Scripts.Chain.{set_at}
use zstrategy.Scripts.Tokens.{CancelEntry}
use zstrategy.Scripts.Holdings.{Holdings, ReturnSetting, user, withdraw_gas}
use zstrategy.Scripts.ReturnBalances.{
  withdraw_tokens, return_gas, cancel_all, sweep_some, registry_setting, collateral_setting,
  gas_setting, tokens_setting, expired_setting, cancel_setting, main,
}
use zstrategy.Scripts.ReturnBalances.Emptied.{IsEmptied, withdraw_tokens-IsEmptied}

module _ (s : ReturnSetting) where
  withdraw_gas_ok :
      (w w' : Holdings)
      → withdraw_gas s (w.gas (user s)) w ≡ (ok tt, w')
      → w' ≡ record w {
        gas = set_at (user s) (w.gas (user s) - w.gas (user s)) w.gas;
        ether = w.ether + w.gas (user s);
      }
  unfolding withdraw_gas
  withdraw_gas_ok w w' same = ground arith

  -- The prepaid gas of the user, moved to the signer's ether, and nothing else.
  pub record HasGasBack (v w : Holdings) : Type 0 where
    pub gas_zero : w.gas (user s) ≡ 0
    pub ether_sum : w.ether ≡ v.ether + v.gas (user s)
    pub free_same : w.free ≡ v.free
    pub wallet_same : w.wallet ≡ v.wallet
    pub locked_same : w.locked ≡ v.locked
    pub commitments_same : w.commitments ≡ v.commitments

  return_gas-HasGasBack : (w w' : Holdings) → return_gas s w ≡ (ok tt, w') → HasGasBack w w'
  unfolding return_gas
  return_gas-HasGasBack w w' same = elim (Bool-cases (w.gas (user s) == 0)) [
    | inl zero_balance ↦
        let e = (==_iff (w.gas (user s)) 0).0 zero_balance in
        subst (HasGasBack w) (ap (λ p. p.1) (rw zero_balance at same)) (record {
          gas_zero = e;
          ether_sum = omega (arith, e);
          free_same = refl;
          wallet_same = refl;
          locked_same = refl;
          commitments_same = refl;
        })
    | inr positive ↦
        let e =
          withdraw_gas_ok w w'
            (transaction_ok (withdraw_gas s (w.gas (user s))) w w' (rw positive at same)) in
        subst (HasGasBack w) (sym e) (record {
          gas_zero = rw (==_refl (user s)) (omega arith);
          ether_sum = refl;
          free_same = refl;
          wallet_same = refl;
          locked_same = refl;
          commitments_same = refl;
        })
  ]

  left :
      (tokens : List ℕ) (v w : Holdings) (i : IsEmptied s tokens v w) (a : ℕ)
      → w.free (user s) a ≡ (if any (λ b. b == a) tokens then 0 else v.free (user s) a)
  left tokens v w i a = elim (Bool-cases (any (λ b. b == a) tokens)) [
    | inl here ↦ rw here (i.emptied a here)
    | inr other ↦ rw other (i.others a other)
  ]

  -- What is left in the vaults and what the signer has, against the state `v` before the withdrawals.
  pub record IsReturned (tokens : List ℕ) (v w : Holdings) : Type 0 where
    pub free_left :
        (a : ℕ) → w.free (user s) a ≡ (if any (λ b. b == a) tokens then 0 else v.free (user s) a)
    pub total : (a : ℕ) → w.wallet a + w.free (user s) a ≡ v.wallet a + v.free (user s) a
    pub gas_zero : w.gas (user s) ≡ 0
    pub ether_sum : w.ether ≡ v.ether + v.gas (user s)
    pub locked_same : w.locked ≡ v.locked
    pub commitments_same : w.commitments ≡ v.commitments

  -- A run of return-vault-balances.ts that ends well has swept the commitments of EXPIRED_COMMITMENTS and then cancelled
  -- those of the file of cancellations. Of the state after that, every token of collectTokenAddresses has the
  -- user's free balance zero, every other token's is as before, for each token the sum of the signer's wallet and
  -- the free balance is the same, the user's prepaid gas is zero and the signer's ether has grown by what it was, and
  -- no locked amount or commitment has changed.
  pub main-IsReturned :
      (w w' : Holdings)
      → main s w ≡ (ok tt, w')
      → (tokens expired : List Text) × (entries : List CancelEntry) × (u v : Holdings)
        × (tokens_setting s ≡ ok tokens)
        × (expired_setting s ≡ ok expired)
        × (cancel_setting s ≡ ok entries)
        × (sweep_some s expired w ≡ (ok tt, u))
        × (cancel_all s entries u ≡ (ok tt, v))
        × IsReturned (map s.address_of tokens) v w'
  unfolding main
  main-IsReturned w w' same =
      let (registry, e1, h1) = lift_ok (registry_setting s) _ tt w w' same in
      let (collateral, e2, h2) = lift_ok (collateral_setting s) _ tt w w' h1 in
      let (gas, e3, h3) = lift_ok (gas_setting s) _ tt w w' h2 in
      let (tokens, e4, h4) = lift_ok (tokens_setting s) _ tt w w' h3 in
      let (expired, e5, h5) = lift_ok (expired_setting s) _ tt w w' h4 in
      let (swept, u, e6, h6) = continue-eq-ok (sweep_some s expired w) _ h5 in
      let (entries, e7, h7) = lift_ok (cancel_setting s) _ tt u w' h6 in
      let (closed, v, e8, h8) = continue-eq-ok (cancel_all s entries u) _ h7 in
      let (emptied, x, e9, h9) = continue-eq-ok (withdraw_tokens s tokens v) _ h8 in
      let i = withdraw_tokens-IsEmptied s tokens v x e9 in
      let g = return_gas-HasGasBack x w' h9 in
      let at : (a : ℕ) → w'.free (user s) a ≡ x.free (user s) a =
        λ a. ap (λ f. f (user s) a) g.free_same in
      (
        tokens,
        expired,
        entries,
        u,
        v,
        e4,
        e5,
        e7,
        e6,
        e8,
        record {
          free_left = λ a. at a ∙ left (map s.address_of tokens) v x i a;
          total = λ a. omega (arith, at a, ap (λ f. f a) g.wallet_same, i.total a);
          gas_zero = g.gas_zero;
          ether_sum = g.ether_sum ∙ omega (arith, i.ether_same, ap (λ f. f (user s)) i.gas_same);
          locked_same = g.locked_same ∙ i.locked_same;
          commitments_same = g.commitments_same ∙ i.commitments_same;
        },
      )
