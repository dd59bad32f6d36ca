-- ===== src/Scripts/ReturnBalances/Emptied.antt =====
-- What the withdrawals of return-vault-balances.ts move (contracts/scripts/return-vault-balances.ts).
use mathlib.Core.Path.{subst}
use zstrategy.Base.{
  ℕ, ◌+◌, ◌-◌, true, false, List, [], ◌∷◌, any, map, if◌then◌else◌, ◌==◌, ==_iff, ==_refl, ◌≡◌,
  refl, sym, ap, ◌∙◌, inl, inr, arith, Bool-cases, or-eq-false,
}
use zstrategy.Base.Text.{Text}
use zstrategy.Base.Result.{ok}
use zstrategy.Scripts.Run.{Script, continue-eq-ok, transaction_ok, ◌>>=◌}
use zstrategy.Scripts.Chain.{set_at}
use zstrategy.Scripts.Holdings.{Holdings, ReturnSetting, user, withdraw, set_2}
use zstrategy.Scripts.ReturnBalances.{token_address, withdraw_token, withdraw_tokens}

false_ne_true : false ≡ true → ⊥
false_ne_true h = cc

module _ (s : ReturnSetting) where
  -- A token's balance of the user moved to the wallet, whole.
  abbrev moved : ℕ → Holdings → Holdings
  moved a w = record w {
    free = set_2 (user s) a (w.free (user s) a - w.free (user s) a) w.free;
    wallet = set_at a (w.wallet a + w.free (user s) a) w.wallet;
  }

  withdraw_ok :
      (a : ℕ) (w w' : Holdings) → withdraw s a (w.free (user s) a) w ≡ (ok tt, w') → w' ≡ moved a w
  unfolding withdraw
  withdraw_ok a w w' same = ground arith

  -- Tokens that are emptied and others, from one state to a later one.
  pub record IsEmptied (tokens : List ℕ) (v w : Holdings) : Type 0 where
    pub emptied : (a : ℕ) → any (λ b. b == a) tokens ≡ true → w.free (user s) a ≡ 0
    pub others : (a : ℕ) → any (λ b. b == a) tokens ≡ false → w.free (user s) a ≡ v.free (user s) a
    pub total : (a : ℕ) → w.wallet a + w.free (user s) a ≡ v.wallet a + v.free (user s) a
    pub locked_same : w.locked ≡ v.locked
    pub commitments_same : w.commitments ≡ v.commitments
    pub gas_same : w.gas ≡ v.gas
    pub ether_same : w.ether ≡ v.ether

  token_address_ok {ι} :
      {Next : Type ι} (t : Text) (after : ℕ → Script Holdings Next) (b : Next) (w w' : Holdings)
      → (token_address s t >>= after) w ≡ (ok b, w')
      → after (s.address_of t) w ≡ (ok b, w')
  token_address_ok t after b w w' same = ground arith

  moved_free :
      (a b : ℕ) (w : Holdings)
      → (moved a w).free (user s) b ≡ (if a == b then 0 else w.free (user s) b)
  moved_free a b w = rw (==_refl (user s)) (ground arith)

  moved_total :
      (a b : ℕ) (w : Holdings)
      → (moved a w).wallet b + (moved a w).free (user s) b ≡ w.wallet b + w.free (user s) b
  moved_total a b w = rw (moved_free a b w) (elim (Bool-cases (a == b)) [
    | inl same ↦
        let e : a ≡ b = (==_iff a b).0 same in
        let e' : w.free (user s) a ≡ w.free (user s) b = ap (w.free (user s)) e in
        let e'' : w.wallet a ≡ w.wallet b = ap w.wallet e in rw same (omega arith)
    | inr other ↦ rw other refl
  ])

  -- Nothing moved, as the balance was zero.
  still-IsEmptied : (a : ℕ) (w : Holdings) → w.free (user s) a ≡ 0 → IsEmptied (a ∷ []) w w
  still-IsEmptied a w zero_balance = record {
    emptied = λ b here. ap (w.free (user s)) (sym ((==_iff a b).0 (ground arith))) ∙ zero_balance;
    others = λ b other. refl;
    total = λ b. refl;
    locked_same = refl;
    commitments_same = refl;
    gas_same = refl;
    ether_same = refl;
  }

  moved-IsEmptied : (a : ℕ) (w : Holdings) → IsEmptied (a ∷ []) w (moved a w)
  moved-IsEmptied a w = record {
    emptied = λ b here. rw (moved_free a b w) (ground arith);
    others = λ b other. rw (moved_free a b w) (ground arith);
    total = λ b. moved_total a b w;
    locked_same = refl;
    commitments_same = refl;
    gas_same = refl;
    ether_same = refl;
  }

  withdraw_token-IsEmptied :
      (t : Text) (w w' : Holdings)
      → withdraw_token s t w ≡ (ok tt, w')
      → IsEmptied (s.address_of t ∷ []) w w'
  unfolding withdraw_token
  withdraw_token-IsEmptied t w w' same =
      let a = s.address_of t in
      let h = token_address_ok t _ tt w w' same in
      elim (Bool-cases (w.free (user s) a == 0)) [
        | inl zero_balance ↦
            subst (IsEmptied (a ∷ []) w) (ap (λ p. p.1) (rw zero_balance at h))
              (still-IsEmptied a w ((==_iff (w.free (user s) a) 0).0 zero_balance))
        | inr positive ↦
            let e =
              withdraw_ok a w w'
                (transaction_ok (withdraw s a (w.free (user s) a)) w w' (rw positive at h)) in
            subst (IsEmptied (a ∷ []) w) (sym e) (moved-IsEmptied a w)
      ]

  both-IsEmptied :
      (a : ℕ) (tokens : List ℕ) (u v w : Holdings)
      → IsEmptied (a ∷ []) u v
      → IsEmptied tokens v w
      → IsEmptied (a ∷ tokens) u w
  both-IsEmptied a tokens u v w i j = record {
    emptied = λ b here. elim (Bool-cases (any (λ c. c == b) tokens)) [
      | inl later ↦ j.emptied b later
      | inr never ↦ j.others b never ∙ i.emptied b (ground arith)
    ];
    others = λ b other.
        let (here, later) = or-eq-false (a == b) (any (λ c. c == b) tokens) other in
        j.others b later ∙ i.others b (ground arith);
    total = λ b. j.total b ∙ i.total b;
    locked_same = j.locked_same ∙ i.locked_same;
    commitments_same = j.commitments_same ∙ i.commitments_same;
    gas_same = j.gas_same ∙ i.gas_same;
    ether_same = j.ether_same ∙ i.ether_same;
  }

  nothing-IsEmptied : (w : Holdings) → IsEmptied [] w w
  nothing-IsEmptied w = record {
    emptied = λ b here. absurd (false_ne_true here);
    others = λ b other. refl;
    total = λ b. refl;
    locked_same = refl;
    commitments_same = refl;
    gas_same = refl;
    ether_same = refl;
  }

  pub withdraw_tokens-IsEmptied :
      (tokens : List Text) (w w' : Holdings)
      → withdraw_tokens s tokens w ≡ (ok tt, w')
      → IsEmptied (map s.address_of tokens) w w'
  unfolding withdraw_tokens
  withdraw_tokens-IsEmptied [] w w' same =
      subst (IsEmptied [] w) (ap (λ p. p.1) same) (nothing-IsEmptied w)
  withdraw_tokens-IsEmptied (t ∷ ts) w w' same =
      let (done, u, e, h) = continue-eq-ok (withdraw_token s t w) _ same in
      both-IsEmptied (s.address_of t) (map s.address_of ts) w u w'
        (withdraw_token-IsEmptied t w u e) (withdraw_tokens-IsEmptied ts u w' h)
