-- ===== src/Examples/Drawing.antt =====
-- Draws of 32 bytes, of which the first is not below the field's modulus.
use zstrategy.Base.{
  ℕ, zero, suc, ◌+◌, ◌≤◌, ◌<◌, List, [], ◌∷◌, ◌++◌, some, All, replicate, ◌≡◌, refl, arith,
}
use zstrategy.Base.Int.{pos}
use zstrategy.Base.Result.{ok}
use zstrategy.Js.{text, big_int}
use zstrategy.Commitment.{bn254_field_modulus, random_bytes32}
use zstrategy.Commitment.Draws.{drawn, draws, bytes_value, IsDraw, random_bytes32_ends}

-- The second draw is the number 2 in 32 bytes.
abbrev draw : ℕ → List ℕ
draw zero = replicate 32 255
draw (suc i) = replicate 31 0 ++ 2 ∷ []

draw-IsDraw : (i : ℕ) → IsDraw (draw i)
draw-IsDraw zero = (omega arith, refl)
draw-IsDraw (suc i) = (omega arith, refl)

random_bytes32_ends_example :
    (j : ℕ) × (j ≤ 1)
    × (random_bytes32 draw 0 5 ≡ some (drawn (draw (0 + j))))
    × (big_int (text (drawn (draw (0 + j)))) ≡ ok (pos (bytes_value 0 (draw (0 + j)))))
    × (bytes_value 0 (draw (0 + j)) < bn254_field_modulus)
    × All (λ bytes. bn254_field_modulus ≤ bytes_value 0 bytes) (draws draw 0 j)
random_bytes32_ends_example = random_bytes32_ends draw draw-IsDraw 0 1 5 (omega arith) (omega arith)
