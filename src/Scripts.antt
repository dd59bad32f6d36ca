-- ===== src/Scripts.antt =====
-- The administration scripts of contracts/scripts, with the contracts' operations that they call.
pub mod Run
pub mod Chain
pub mod Settings
pub mod Wiring
pub mod Deploy
pub mod Redeploy
pub mod Verifiers
pub mod FeeTier
pub mod Agreement
pub mod Tokens
pub mod Holdings
pub mod ReturnBalances
