-- ===== src/Keys/Reload.antt =====
-- The keyset over restarts of the process and over repeated calls (keeper/src/threshold/keys.ts).
use zstrategy.Base.{
  ℕ, zero, suc, ◌+◌, ◌<◌, ◌≤◌, List, map, none, some, length, drop, ◌≡◌, ◌≢◌, refl, ap, arith, inl,
  inr, Bool-cases, ==_refl,
}
use zstrategy.Base.Text.{Text, text_eq, text_eq_iff, text_eq_refl}
use zstrategy.Base.Digits.{print, read_digits-print}
use zstrategy.Base.Digits.Hex.{IsBytes, bytes_of_hex-bytes_to_hex}
use zstrategy.Base.Result.{ok, throw, map_result}
use zstrategy.Keys.{
  Ecies, StoredKey, absent, stored, keeper_name, KeeperKeypair, KeyState, keypair, load_key,
  generate, on_disk, load_or_create_keypairs, get_keypair_by_id, wrong_key_count,
}

-- `new PrivateKey(pk.secret)` is `pk` again, and a secret is made of bytes.
pub record KeyLaws (e : Ecies) : Type 0 where
  pub from_secret-secret : (pk : e.PrivateKey) → e.from_secret (e.secret pk) ≡ ok pk
  pub secret-IsBytes : (pk : e.PrivateKey) → IsBytes (e.secret pk)

module _ (e : Ecies) (laws : KeyLaws e) where
  load_key-on_disk :
      (id : Text) (pk : e.PrivateKey)
      → load_key e (on_disk e (keypair e id pk)) ≡ ok (keypair e id pk)
  unfolding load_key
  load_key-on_disk id pk =
      rw (
        bytes_of_hex-bytes_to_hex (e.secret pk) (laws.secret-IsBytes pk),
        laws.from_secret-secret pk,
      )

  map_result-generate :
      (draw : ℕ → e.PrivateKey) (i n : ℕ)
      → map_result (load_key e) (map (on_disk e) (generate e draw i n)) ≡ ok (generate e draw i n)
  unfolding generate
  map_result-generate draw i zero = refl
  map_result-generate draw i (suc n) =
      rw (load_key-on_disk (keeper_name i) (draw i), map_result-generate draw (i + 1) n)

module _ (e : Ecies) where
  length-generate :
      (draw : ℕ → e.PrivateKey) (i n : ℕ) → length (map (on_disk e) (generate e draw i n)) ≡ n
  unfolding generate
  length-generate draw i zero = refl
  length-generate draw i (suc n) = ap suc (length-generate draw (i + 1) n)

-- A process that starts without a key file generates keys; a process that starts later from the
-- file that it wrote, with the same THRESHOLD_N, gets the same keypairs and leaves the same state,
-- whatever keys it could have drawn.
pub load_or_create_restart :
    (e : Ecies) (laws : KeyLaws e) (n : ℕ) (draw draw' : ℕ → e.PrivateKey)
    → load_or_create_keypairs e n draw' (record {
      keys = none;
      file = (load_or_create_keypairs e n draw (record { keys = none; file = absent })).1.file;
    })
      ≡ load_or_create_keypairs e n draw (record { keys = none; file = absent })
unfolding load_or_create_keypairs
load_or_create_restart e laws n draw draw' =
    rw (length-generate e draw 0 n, map_result-generate e laws draw 0 n) (rw (==_refl n))

-- With no keys in the process, a key file with another number of keys than THRESHOLD_N makes the
-- call throw, and leaves the state.
pub load_or_create-wrong_count :
    (e : Ecies) (n : ℕ) (draw : ℕ → e.PrivateKey) (s : KeyState e) (objects : List StoredKey)
    → s.keys ≡ none
    → s.file ≡ stored objects
    → length objects ≢ n
    → load_or_create_keypairs e n draw s ≡ (throw (wrong_key_count (length objects) n), s)
unfolding load_or_create_keypairs
load_or_create-wrong_count e n draw s objects k f ne = ground (arith, ne)

print_injective : (i j : ℕ) → print 10 i ≡ print 10 j → i ≡ j
print_injective i j h = cc (
  read_digits-print 10 i (omega arith) (omega arith),
  read_digits-print 10 j (omega arith) (omega arith),
  h,
)

keeper_name_injective : (i j : ℕ) → keeper_name i ≡ keeper_name j → i ≡ j
unfolding keeper_name
keeper_name_injective i j h = print_injective i j (ap (λ l. drop 7 l) h)

module _ (e : Ecies) where
  find-generate :
      (draw : ℕ → e.PrivateKey) (i n j : ℕ)
      → i ≤ j
      → j < i + n
      → get_keypair_by_id e (keeper_name j) (generate e draw i n)
        ≡ some (keypair e (keeper_name j) (draw j))
  unfolding generate get_keypair_by_id
  find-generate draw i zero j lo hi = absurd (omega arith)
  find-generate draw i (suc n) j lo hi =
      elim (Bool-cases (text_eq (keeper_name i) (keeper_name j))) [
        | inl same ↦
            let e' : i ≡ j = keeper_name_injective i j ((text_eq_iff _ _).0 same) in
            rw (same, e') refl
        | inr other ↦
            let ne : i ≢ j = λ (p : i ≡ j). cc (p, other, text_eq_refl (keeper_name i)) in
            rw other (find-generate draw (i + 1) n j (omega arith) (omega arith))
      ]

-- Of a fresh keyset of n keys, the keeper with number i < n is found by its name, and its keypair
-- is the one of the i-th key that was drawn.
pub get_keypair_by_id-generated :
    (e : Ecies) (n i : ℕ) (draw : ℕ → e.PrivateKey) (keys : List (KeeperKeypair e))
    → (load_or_create_keypairs e n draw (record { keys = none; file = absent })).0 ≡ ok keys
    → i < n
    → get_keypair_by_id e (keeper_name i) keys ≡ some (keypair e (keeper_name i) (draw i))
unfolding load_or_create_keypairs
get_keypair_by_id-generated e n i draw keys h lt =
    let e' : generate e draw 0 n ≡ keys = cc in
    rw (← e') (find-generate e draw 0 n i (omega arith) (omega arith))
