-- ===== src/Lib.antt =====
-- zstrategy: a non-custodial trading program in which a keeper network executes hidden orders. The
-- browser derives a secret from a wallet's signature, splits it among the keepers, encrypts the shares
-- and registers a commitment on chain. The backend forwards the shares to the keeper and later asks it
-- to execute. The keeper checks the order's condition itself, reconstructs the secret from the shares,
-- makes a zero-knowledge proof and submits the transaction. Modelled are the TypeScript parts of the
-- keeper and of the frontend that do this, and the scripts that deploy and administer the contracts.
--
-- The files and the code:
--   Shares: keeper/src/store/shares.ts and db.ts. The table is a list of rows; insertShares,
--   deleteSharesForCommitment and getSharesForCommitment are insert_shares,
--   delete_shares_for_commitment and get_shares_for_commitment.
--   Keys: keeper/src/threshold/keys.ts. The process's cached keypairs and the key file are the record
--   KeyState; loadOrCreateKeypairs, publicKeyset and getKeypairById have the same names.
--   Reconstruct: keeper/src/threshold/reconstruct.ts, reconstructUserSecret.
--   Oracle: keeper/src/chain/oracle.ts, fetchFeed and fetchPairPrice; Oracle/Contract has the
--   arithmetic of _readOraclePrice of contracts/contracts/core/CommitmentRegistry.sol.
--   Zk: keeper/src/zk/orderFill.ts and dca.ts, the circuits' inputs and the proof with its off-chain
--   verification.
--   Request: keeper/src/types.ts. Js: the values of a JSON body, and the conversions that the handlers
--   use.
--   Submitter: keeper/src/execution/submitter.ts; its types are in Submitter/Types, the proofs it asks
--   for in Submitter/Proof. An attempt maps a world (the node, the clock and the provers during that
--   attempt) to the calls that others see and a result; submit_from is the loop of attempts,
--   submit_execution the function.
--   ShareApi, ExecuteApi, RateLimit: keeper/src/api/server.ts. ShareApi has requireSecret and the
--   routes that store and delete shares, ExecuteApi the route that executes, RateLimit the token
--   buckets of GET /api/keepers.
--   Threshold: frontend/src/lib/threshold.ts, splitAndEncryptSecret; Threshold/Delivery follows the
--   secret from there through ShareApi and Shares to Reconstruct.
--   Commitment: frontend/src/lib/commitment.ts and dcaCommitment.ts.
--   Dca: frontend/src/app/(dashboard)/dca/page.tsx, buildSchedule and handleSubmit.
--   Orders: frontend/src/app/(dashboard)/orders/page.tsx, the price and the expiry of an order and
--   handleSubmit.
--   Strategies: frontend/src/lib/strategyStore.ts, the object stores of the browser. Backup:
--   frontend/src/lib/backup.ts, exportStrategies and importStrategies. VaultValue:
--   frontend/src/hooks/useVaultTvl.ts, the feeds that are read and the index of a token's results.
--   Toasts: frontend/src/hooks/useTxToast.ts, the four effects of useTxToast on its two refs and the
--   calls of sonner, and frontend/src/lib/explorerUrl.ts.
--   Scripts: contracts/scripts. Scripts/Run has a script as a function of the world that it changes;
--   Scripts/Chain the world (the contracts that the scripts call, after contracts/contracts, and the
--   deployment file) and the contracts' operations; Scripts/Settings requireAddress,
--   addressFromEnvOrDeployment and collectPriceFeeds; Scripts/Wiring the steps that deploy and wire a
--   registry, with Spec the world that they aim at; Scripts/Deploy deploy.ts, Scripts/Redeploy
--   redeploy-registry.ts, Scripts/Verifiers redeploy-verifiers.ts and swap-to-mock-verifier.ts,
--   Scripts/FeeTier swap-dex-fee-tier.ts; Scripts/Agreement runs of these, one after the other.
--   Scripts/Tokens, Scripts/Holdings and Scripts/ReturnBalances are return-vault-balances.ts, with the
--   balances and the commitments that it changes.
--   Base: shared names and lemmas, on texts, digits, lists, integers and results that may throw.
--   Examples: runs at concrete inputs.
--
-- How the parts meet: ExecuteApi calls Oracle, Reconstruct and Submitter; Submitter calls Oracle and
-- Zk; ShareApi calls Shares; Backup reads and writes the store of Strategies, whose records Orders and
-- Dca make; Reconstruct reads Shares and Keys. The scripts share the world of Scripts/Chain and the
-- file in it. State is passed explicitly: the table, the key state, the counters, the buckets, the
-- toasts and the scripts' world are arguments and results; a script that throws keeps what it has
-- changed. What may throw is a Result with the error's message.
--
-- Parameters: eciesjs (Ecies), shamir-secret-sharing (Shamir), viem (Viem, Hashing), ethers and
-- better-sqlite3 (Checks, AddressChecks), noir_js and bb.js (Prover), the chain (Feeds, World), the
-- wallet and the browser's services (DcaPorts, OrderPorts, Browser for the backup and ToastLibrary for
-- the toasts), of the scripts ethers and OpenZeppelin's Ownable (Ethers), what a token's transfer does
-- and the files that are read (ReturnSetting). What a theorem needs of them is a record of laws among
-- its hypotheses, and Examples has instances.
--
-- Bounds and fuel: the loop of attempts is bounded by the code's own MAX_RETRIES. Printing a number
-- has the number's successor as fuel, which is more than its digits. random_bytes32, the rejection
-- loop of randomBytes32, takes as fuel how many draws are looked at, since the code's loop has no
-- bound; Commitment/Draws shows when that is enough.
--
-- Not modelled: metrics and logs; numbers in a JSON body that are no integers; the rounding of doubles
-- in the rate limit; the backend (Go), the circuits (Noir), the contracts (Solidity) but for the price
-- and the operations that the scripts call; the frontend's views. Of the scripts, the console's
-- output, name resolution of a text that is no address, and gas and nonces of transactions that are no
-- deployments. Of the order form, what it computes in floating point is a field of the model's form.
pub mod Base
pub mod Shares
pub mod Keys
pub mod Reconstruct
pub mod Threshold
pub mod Js
pub mod Oracle
pub mod Request
pub mod Zk
pub mod Submitter
pub mod ShareApi
pub mod ExecuteApi
pub mod RateLimit
pub mod Commitment
pub mod Dca
pub mod Orders
pub mod Strategies
pub mod Backup
pub mod VaultValue
pub mod Toasts
pub mod Scripts
mod Examples
