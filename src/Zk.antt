-- ===== src/Zk.antt =====
-- keeper/src/zk/orderFill.ts and dca.ts: the inputs of the two circuits, and a proof that is handed on
-- only after bb.js has verified it. Noir and Barretenberg are the record `Prover`, for a type of
-- inputs.
pub mod Gate
use zstrategy.Base.{ℕ, Bool, true, false, List, ◌++◌, Option, none, some, ◌==◌, if◌then◌else◌}
use zstrategy.Base.Int.{ℤ}
use zstrategy.Base.Text.{Text, codes}
use zstrategy.Base.Digits.{print}
use zstrategy.Base.Digits.Hex.{bytes_to_hex}
use zstrategy.Base.Result.{Result, ok, throw, ◌>>=◌, ◌>>◌}
use zstrategy.Js.{Value, print_int}

pub record Prover (Inputs : Type 0) : Type 1 where
  pub Witness : Type 0
  pub ProofData : Type 0
  -- `noir.execute`, `backend.generateProof`, `proofData.proof`, `backend.verifyProof`
  pub execute : Inputs → Result Witness
  pub generate_proof : Witness → Result ProofData
  pub proof : ProofData → List ℕ
  pub verify_proof : ProofData → Result Bool

-- The module's variable `cached`: the first circuit that loads stays for every later call.
unfoldable pub load_circuit {ℓ} :
    {P : Type ℓ} → (Text → Result P) → Text → Option P → Result P × Option P
load_circuit load path (some p) = (ok p, some p)
load_circuit load path none = elim (load path) [ ok p ↦ (ok p, some p) | throw m ↦ (throw m, none) ]

-- What noir_js is given, in the names of the circuits' `main`.
pub record OrderFillInputs : Type 0 where
  pub price : Text
  pub direction : Bool
  pub nonce : Value
  pub user_secret : Text
  pub commitment_hash : Text
  pub oracle_price : Text
  pub nullifier : Value
  pub token_in : Text
  pub token_out : Text
  pub size : Text
  pub min_out : Text
  pub expiry : Text

pub record DcaInputs : Type 0 where
  pub scheduled_lo : Text
  pub scheduled_hi : Text
  pub nonce : Value
  pub user_secret : Text
  pub commitment_hash : Text
  pub execution_timestamp : Text
  pub nullifier : Value
  pub token_in : Text
  pub token_out : Text
  pub size : Text
  pub min_out : Text
  pub expiry : Text

pub record OrderFillWitness : Type 0 where
  pub price : ℤ
  pub direction : ℕ
  pub nonce : Value
  pub user_secret : Text
  pub commitment_hash : Text
  pub oracle_price : ℕ
  pub nullifier : Value
  pub token_in : Text
  pub token_out : Text
  pub size : ℤ
  pub min_out : ℤ
  pub expiry : ℤ

pub record DcaWitness : Type 0 where
  pub scheduled_lo : ℤ
  pub scheduled_hi : ℤ
  pub nonce : Value
  pub user_secret : Text
  pub commitment_hash : Text
  pub execution_timestamp : ℕ
  pub nullifier : Value
  pub token_in : Text
  pub token_out : Text
  pub size : ℤ
  pub min_out : ℤ
  -- a number, `none` for NaN
  pub expiry : Option ℤ

abbrev pub print_number : Option ℤ → Text
print_number none = codes "NaN"
print_number (some z) = print_int z

unfoldable pub order_fill_inputs : OrderFillWitness → OrderFillInputs
order_fill_inputs w = record {
  price = print_int w.price;
  direction = w.direction == 1;
  nonce = w.nonce;
  user_secret = w.user_secret;
  commitment_hash = w.commitment_hash;
  oracle_price = print 10 w.oracle_price;
  nullifier = w.nullifier;
  token_in = w.token_in;
  token_out = w.token_out;
  size = print_int w.size;
  min_out = print_int w.min_out;
  expiry = print_int w.expiry;
}

unfoldable pub dca_inputs : DcaWitness → DcaInputs
dca_inputs w = record {
  scheduled_lo = print_int w.scheduled_lo;
  scheduled_hi = print_int w.scheduled_hi;
  nonce = w.nonce;
  user_secret = w.user_secret;
  commitment_hash = w.commitment_hash;
  execution_timestamp = print 10 w.execution_timestamp;
  nullifier = w.nullifier;
  token_in = w.token_in;
  token_out = w.token_out;
  size = print_int w.size;
  min_out = print_int w.min_out;
  expiry = print_number w.expiry;
}

-- The off-chain integrity gate, for the circuit with a name.
unfoldable pub gate : Text → Result Bool → Result (Unit {0})
gate name (ok true) = ok tt
gate name (ok false) =
    throw
      (codes "[ZK] " ++ (name ++ codes " off-chain verifyProof returned FAIL — refusing to submit"))
gate name (throw m) =
    throw (
      codes "[ZK] " ++ (name ++ (codes " off-chain verifyProof threw — refusing to submit: " ++ m)))

module _ {Inputs : Type 0} (p : Prover Inputs) where
  -- From the inputs to the proof in hexadecimal, the same in both files.
  unfoldable pub proof_of : Text → Inputs → Result Text
  proof_of name inputs = do
    witness ← p.execute inputs
    proof_data ← p.generate_proof witness
    gate name (p.verify_proof proof_data)
    ok (codes "0x" ++ bytes_to_hex (p.proof proof_data))

unfoldable pub generate_order_fill_proof : Prover OrderFillInputs → OrderFillWitness → Result Text
generate_order_fill_proof p w = proof_of p (codes "order_fill") (order_fill_inputs w)

unfoldable pub generate_dca_proof : Prover DcaInputs → DcaWitness → Result Text
generate_dca_proof p w = proof_of p (codes "dca") (dca_inputs w)
