-- ===== src/Examples/Toys.antt =====
-- Packages with the behaviour that the properties ask of them, and requests to run.
use zstrategy.Base.{
  ℕ, zero, suc, ◌+◌, ◌≤◌, ◌<◌, Bool, true, false, List, [], ◌∷◌, ◌++◌, length, drop, replicate,
  length-replicate, All, ◌==◌, ◌≡◌, refl, ap, sym, ◌∙◌, arith,
}
use zstrategy.Base.Text.{Text, codes}
use zstrategy.Base.Digits.Hex.{IsBytes, bytes_to_hex, bytes_of_hex, bytes_of_hex-bytes_to_hex}
use zstrategy.Base.Result.{Result, ok, throw}
use zstrategy.Js.{Value, text}
use zstrategy.Keys.{Ecies, KeeperKeypair, keypair}
use zstrategy.Keys.Reload.{KeyLaws}
use zstrategy.Reconstruct.{Shamir}
use zstrategy.Threshold.{Viem}
use zstrategy.Threshold.Laws.{ViemLaws, SealingLaws}
use zstrategy.Threshold.Delivery.{ShamirLaws, IsSelection, nothing, chosen, passed}
use zstrategy.ShareApi.{Checks}
use zstrategy.ShareApi.Storing.{BindsTexts}

-- A list of numbers in bytes: each number in ones, and a zero after it.
abbrev ones : ℕ → List ℕ → List ℕ
ones zero t = t
ones (suc n) t = 1 ∷ ones n t

abbrev pub in_ones : List ℕ → List ℕ
in_ones [] = []
in_ones (n ∷ ns) = ones n (0 ∷ in_ones ns)

abbrev pub from_ones : ℕ → List ℕ → List ℕ
from_ones acc [] = []
from_ones acc (zero ∷ s) = acc ∷ from_ones 0 s
from_ones acc (suc k ∷ s) = from_ones (suc acc) s

from_ones-ones : (n acc : ℕ) (t : List ℕ) → from_ones acc (ones n t) ≡ from_ones (acc + n) t
from_ones-ones zero acc t = ap (λ a. from_ones a t) (omega arith)
from_ones-ones (suc n) acc t = from_ones-ones n (suc acc) t ∙ ap (λ a. from_ones a t) (omega arith)

pub from_ones-in_ones : (ns : List ℕ) → from_ones 0 (in_ones ns) ≡ ns
from_ones-in_ones [] = refl
from_ones-in_ones (n ∷ ns) =
    let p : 0 + n ≡ n = omega arith in
    from_ones-ones n 0 (0 ∷ in_ones ns)
    ∙ ap (λ a. from_ones a (0 ∷ in_ones ns)) p
    ∙ ap (λ l. n ∷ l) (from_ones-in_ones ns)

ones-IsBytes : (n : ℕ) (t : List ℕ) → IsBytes t → IsBytes (ones n t)
ones-IsBytes zero t b = b
ones-IsBytes (suc n) t b = (omega arith, ones-IsBytes n t b)

pub in_ones-IsBytes : (ns : List ℕ) → IsBytes (in_ones ns)
in_ones-IsBytes [] = tt
in_ones-IsBytes (n ∷ ns) = ones-IsBytes n (0 ∷ in_ones ns) (omega arith, in_ones-IsBytes ns)

-- Two keys, of secrets 1 and 2.
abbrev pub toy_secret : Bool → List ℕ
toy_secret true = 1 ∷ []
toy_secret false = 2 ∷ []

abbrev pub toy_from_secret : List ℕ → Result Bool
toy_from_secret [] = throw (codes "no key")
toy_from_secret (x ∷ xs) = ok (x == 1)

abbrev pub toy_ecies : Ecies
toy_ecies = record {
  PrivateKey = Bool;
  from_secret = toy_from_secret;
  secret = toy_secret;
  public_bytes = toy_secret;
  encrypt = λ seed key message. in_ones message;
  decrypt = λ secret message. ok (from_ones 0 message);
}

toy_secret-IsBytes : (b : Bool) → IsBytes (toy_secret b)
toy_secret-IsBytes true = (omega arith, tt)
toy_secret-IsBytes false = (omega arith, tt)

toy_from-secret : (b : Bool) → toy_from_secret (toy_secret b) ≡ ok b
toy_from-secret true = refl
toy_from-secret false = refl

pub toy_key_laws : KeyLaws toy_ecies
toy_key_laws = record { from_secret-secret = toy_from-secret; secret-IsBytes = toy_secret-IsBytes }

pub toy_sealing : SealingLaws toy_ecies
toy_sealing = record {
  decrypt-encrypt = λ seed pk message. ap (λ l. ok l) (from_ones-in_ones message);
  encrypt-IsBytes = λ seed pk message. in_ones-IsBytes message;
  public_bytes-IsBytes = toy_secret-IsBytes;
}

abbrev pub toy_keys : List (KeeperKeypair toy_ecies)
toy_keys =
    keypair toy_ecies (codes "keeper-0") true ∷ keypair toy_ecies (codes "keeper-1") false ∷ []

-- Every share is the secret.
abbrev pub toy_split : ℕ → List ℕ → ℕ → ℕ → Result (List (List ℕ))
toy_split draw secret n zero = throw (codes "threshold must be at least 2")
toy_split draw secret n (suc k) = ok (replicate n secret)

abbrev pub toy_combine : List (List ℕ) → Result (List ℕ)
toy_combine [] = throw (codes "shares must have at least 2 elements")
toy_combine (s ∷ ss) = ok s

abbrev pub toy_shamir : Shamir
toy_shamir = record { split = toy_split; combine = toy_combine }

replicate-All : (n : ℕ) (a : List ℕ) → All (λ x. x ≡ a) (replicate n a)
replicate-All zero a = tt
replicate-All (suc n) a = (refl, replicate-All n a)

selection-All :
    (a : List ℕ) (ys xs : List (List ℕ))
    → IsSelection ys xs
    → All (λ x. x ≡ a) xs
    → All (λ x. x ≡ a) ys
selection-All a ys xs (nothing _) same = tt
selection-All a ys xs (chosen x c r sel) (h, same) = (h, selection-All a c r sel same)
selection-All a ys xs (passed x c r sel) (h, same) = selection-All a c r sel same

combine-All :
    (a : List ℕ) (ys : List (List ℕ)) → All (λ x. x ≡ a) ys → 0 < length ys → toy_combine ys ≡ ok a
combine-All a [] same lt = absurd (omega arith)
combine-All a (y ∷ ys) (h, same) lt = ap (λ l. ok l) h

ok_injective : {A : Type 0} (a b : A) → ◌≡◌ {A = Result A} (ok a) (ok b) → a ≡ b
ok_injective a b h = cc

toy_length-split :
    (draw : ℕ) (secret : List ℕ) (n k : ℕ) (shares : List (List ℕ))
    → toy_split draw secret n k ≡ ok shares
    → length shares ≡ n
toy_length-split draw secret n zero shares h = absurd cc
toy_length-split draw secret n (suc k) shares h =
    ap (λ l. length l) (sym (ok_injective (replicate n secret) shares h))
    ∙ length-replicate n secret

toy_combine-split :
    (draw : ℕ) (secret : List ℕ) (n k : ℕ) (shares some_shares : List (List ℕ))
    → toy_split draw secret n k ≡ ok shares
    → IsSelection some_shares shares
    → k ≤ length some_shares
    → toy_combine some_shares ≡ ok secret
toy_combine-split draw secret n zero shares some_shares h sel le = absurd cc
toy_combine-split draw secret n (suc k) shares some_shares h sel le =
    combine-All secret some_shares
      (selection-All secret some_shares shares sel
        (rw (sym (ok_injective (replicate n secret) shares h)) (replicate-All n secret)))
      (omega arith)

pub toy_shamir_laws : ShamirLaws toy_shamir
toy_shamir_laws = record { length-split = toy_length-split; combine-split = toy_combine-split }

abbrev pub toy_viem : Viem
toy_viem = record {
  hex_to_bytes = λ t. ok (bytes_of_hex (drop 2 t));
  bytes_to_hex = λ bytes. codes "0x" ++ bytes_to_hex bytes;
}

pub toy_viem_laws : ViemLaws toy_viem
toy_viem_laws = record {
  bytes_to_hex_lem = λ bytes. refl;
  hex_to_bytes-bytes_to_hex = λ bytes b. ap (λ l. ok l) (bytes_of_hex-bytes_to_hex bytes b);
}

-- Strings are bound as they are, and other values refused.
abbrev pub toy_bind : Value → Result Text
toy_bind (text s) = ok s
toy_bind _ = throw (codes "TypeError")

abbrev pub toy_checks : Checks
toy_checks = record { is_hash = λ v. true; bind_text = toy_bind }

pub toy_binds : BindsTexts toy_checks
toy_binds s = refl

abbrev pub toy_user_secret : List ℕ
toy_user_secret = replicate 32 7

sevens-IsBytes : (n : ℕ) → IsBytes (replicate n 7)
sevens-IsBytes zero = tt
sevens-IsBytes (suc n) = (omega arith, sevens-IsBytes n)

pub toy_user_secret-IsBytes : IsBytes toy_user_secret
toy_user_secret-IsBytes = sevens-IsBytes 32
