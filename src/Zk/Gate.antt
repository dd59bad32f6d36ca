-- ===== src/Zk/Gate.antt =====
-- The off-chain verification that stands between a proof and its use (keeper/src/zk).
use zstrategy.Base.{Bool, true, false, ◌++◌, ◌≡◌, refl, ◌↔◌}
use zstrategy.Base.Text.{Text, codes}
use zstrategy.Base.Digits.Hex.{bytes_to_hex}
use zstrategy.Base.Result.{Result, ok, throw, >>=-eq-ok}
use zstrategy.Zk.{Prover, gate, proof_of}

-- The text is the hexadecimal form of a proof of the inputs that bb.js made and verified.
abbrev pub IsVerifiedProof : {Inputs : Type 0} → Prover Inputs → Inputs → Text → Type 0
IsVerifiedProof p inputs proof =
    (witness : p.Witness) × (made : p.ProofData) × (p.execute inputs ≡ ok witness)
    × (p.generate_proof witness ≡ ok made)
    × (p.verify_proof made ≡ ok true)
    × (proof ≡ codes "0x" ++ bytes_to_hex (p.proof made))

gate-eq-ok : (name : Text) (r : Result Bool) (u : Unit {0}) → gate name r ≡ ok u → r ≡ ok true
unfolding gate
gate-eq-ok name (ok true) u h = refl
gate-eq-ok name (ok false) u h = cc
gate-eq-ok name (throw m) u h = cc

module _ {Inputs : Type 0} (p : Prover Inputs) (name : Text) (inputs : Inputs) (proof : Text) where
  proof_of_sound : proof_of p name inputs ≡ ok proof → IsVerifiedProof p inputs proof
  unfolding proof_of
  proof_of_sound h =
      let (w, ew, h1) = >>=-eq-ok (p.execute inputs) _ {b = proof} h in
      let (made, em, h2) = >>=-eq-ok (p.generate_proof w) _ {b = proof} h1 in
      let (u, eg, h3) = >>=-eq-ok (gate name (p.verify_proof made)) _ {b = proof} h2 in
      (w, made, ew, em, gate-eq-ok name (p.verify_proof made) u eg, cc)

  proof_of_complete : IsVerifiedProof p inputs proof → proof_of p name inputs ≡ ok proof
  unfolding proof_of gate
  proof_of_complete (w, made, ew, em, ev, same) = rw (ew, em, ev, same) refl

-- A proof is returned exactly when the circuit's witness, the proof and its verification all
-- succeed and the verification says true; so neither a verification that fails nor one that throws
-- lets a proof through.
pub proof_of_iff :
    {Inputs : Type 0} (p : Prover Inputs) (name : Text) (inputs : Inputs) (proof : Text)
    → (proof_of p name inputs ≡ ok proof) ↔ IsVerifiedProof p inputs proof
proof_of_iff p name inputs proof =
    (proof_of_sound p name inputs proof, proof_of_complete p name inputs proof)
