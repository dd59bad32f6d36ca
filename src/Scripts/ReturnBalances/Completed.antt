-- ===== src/Scripts/ReturnBalances/Completed.antt =====
-- When return-vault-balances.ts ends well (contracts/scripts/return-vault-balances.ts).
use zstrategy.Base.{ℕ, true, ◌≡◌}
use zstrategy.Base.Text.{Text}
use zstrategy.Base.Result.{Result, ok}
use zstrategy.Scripts.Holdings.{Holdings, ReturnSetting, Act}

-- A run that ends well.
abbrev pub EndsWell : Act → Holdings → Type 0
EndsWell act w = (w' : Holdings) × (act w ≡ (ok tt, w'))

module _ (s : ReturnSetting) where
  -- Every payment out of the vaults goes through.
  pub record PaysOut : Type 0 where
    pub token_paid : (a n : ℕ) → s.transfers a n ≡ true
    pub ether_paid : (n : ℕ) → s.pays n ≡ true
