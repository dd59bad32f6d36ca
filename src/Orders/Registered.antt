-- ===== src/Orders/Registered.antt =====
-- What a submitted order registers, saves and posts (frontend/src/app/(dashboard)/orders/page.tsx).
use zstrategy.Base.{
  List, [], ◌∷◌, ◌++◌, ap, ◌∙◌, ℕ, ◌||◌, not, Option, none, some, ◌≡◌, refl, inl, inr, Bool-cases,
}
use mathlib.Core.Path.{subst}
use zstrategy.Base.Text.{Text, codes}
use zstrategy.Base.Result.{Result, ok, ◌>>=◌, >>=-eq-ok}
use zstrategy.Js.{print_int}
use zstrategy.Base.Int.{pos}
use zstrategy.Request.{Direction, buy, sell}
use zstrategy.Submitter.{direction_number}
use zstrategy.Keys.{KeeperPubkey}
use zstrategy.Commitment.{
  Packed, address, uint, bytes32, hash_packed, reduce_to_field, commitment_hash, derive_strategy_id,
  derive_user_secret, nullifier_hash, strategy_id_signing_message,
}
use zstrategy.Dca.{is_zero}
use zstrategy.Orders.{
  OrderForm, OrderPorts, Placed, price_big, expiry_of, order_hash, place_for, place_if,
  handle_order,
}

ok_injective : {A : Type 0} (a b : A) → ◌≡◌ {A = Result A} (ok a) (ok b) → a ≡ b
ok_injective a b h = cc

module _ (ports : OrderPorts) (f : OrderForm) where
  -- The hash of packed values, as an element of the field.
  abbrev pub IsFieldHash : List Packed → Text → Type 0
  IsFieldHash values hash =
      (packed : Text) × (digest : Text) × (ports.hashing.encode_packed values ≡ ok packed)
      × (ports.hashing.keccak256 packed ≡ ok digest)
      × (reduce_to_field digest ≡ ok hash)

  -- The secret is the one that the owner's wallet gives: the hash, as an element of the field, of the
  -- wallet's signature under the message for the strategy's id, which is the hash of the owner and the nonce.
  pub record IsSecretOf (owner strategy_id user_secret : Text) : Type 0 where
    pub id_packed : Text
    pub signature : Text
    pub digest : Text
    pub id_packs : ports.hashing.encode_packed (address owner ∷ bytes32 f.nonce ∷ []) ≡ ok id_packed
    pub id_hash : ports.hashing.keccak256 id_packed ≡ ok strategy_id
    pub signed :
        ports.sign_message (codes "zstrategy: derive user_secret for strategyId=" ++ strategy_id)
        ≡ ok signature
    pub hashed : ports.hashing.keccak256 signature ≡ ok digest
    pub reduced : reduce_to_field digest ≡ ok user_secret

  -- 0 for BUY and 1 for SELL.
  abbrev direction_code : Direction → ℕ
  direction_code buy = 0
  direction_code sell = 1

  -- The order is one: what is registered is the hash of the form's fields, with the expiry and the price that are
  -- saved and posted, and for the secret that is shared among the keepers.
  pub record IsOneOrder (owner : Text) (expiry : ℕ) (p : Placed) : Type 0 where
    pub user_secret : Text
    pub keepers : List KeeperPubkey
    pub is_secret : IsSecretOf owner p.saved.strategy_id user_secret
    pub registered :
        IsFieldHash
          (address f.token_in
            ∷ address f.token_out
            ∷ uint 256 f.amount
            ∷ uint 256 f.min_out
            ∷ uint 64 (pos expiry)
            ∷ uint 64 (price_big f)
            ∷ uint 8 (pos (direction_code f.direction))
            ∷ bytes32 f.nonce
            ∷ bytes32 user_secret
            ∷ [])
          p.registration.commitment_hash
    pub nullified : IsFieldHash (bytes32 user_secret ∷ bytes32 f.nonce ∷ []) p.post.nullifier
    pub keepers_listed : ports.list_keepers ≡ ok keepers
    pub shared : ports.split_and_encrypt user_secret keepers ≡ ok p.post.encrypted_shares
    pub record_saved : ports.save_strategy p.saved ≡ ok tt
    pub saved_hash : p.saved.commitment_hash ≡ p.registration.commitment_hash
    pub posted_hash : p.post.commitment_hash ≡ p.registration.commitment_hash
    pub saved_expiry : p.saved.expiry ≡ expiry
    pub posted_expiry : p.post.expiry ≡ expiry
    pub registered_expiry : p.registration.expiry ≡ expiry
    pub saved_price : p.saved.price ≡ print_int (price_big f)
    pub posted_price : p.post.limit_price ≡ p.saved.price
    pub registered_tokens :
        (p.registration.token_in ≡ f.token_in) × (p.registration.token_out ≡ f.token_out)
    pub registered_amounts : (p.registration.size ≡ f.amount) × (p.registration.min_out ≡ f.min_out)
    pub saved_nonce : p.saved.nonce ≡ f.nonce
    pub posted_nonce : p.post.nonce ≡ f.nonce

  hash_packed_ok :
      (values : List Packed) (hash : Text)
      → (hash_packed ports.hashing values >>= reduce_to_field) ≡ ok hash
      → IsFieldHash values hash
  hash_packed_ok values hash h =
      let (digest, e, h1) = >>=-eq-ok (hash_packed ports.hashing values) _ h in
      let (packed, e1, h2) = >>=-eq-ok (ports.hashing.encode_packed values) _ e in
      (packed, digest, e1, h2, h1)

  secret_of :
      (owner strategy_id signature user_secret : Text)
      → derive_strategy_id ports.hashing owner f.nonce ≡ ok strategy_id
      → ports.sign_message (strategy_id_signing_message strategy_id) ≡ ok signature
      → derive_user_secret ports.hashing signature ≡ ok user_secret
      → IsSecretOf owner strategy_id user_secret
  unfolding derive_strategy_id derive_user_secret strategy_id_signing_message
  secret_of owner strategy_id signature user_secret h1 h2 h3 =
      let (packed, e1, e2) = >>=-eq-ok (ports.hashing.encode_packed _) _ h1 in
      let (digest, e3, e4) = >>=-eq-ok (ports.hashing.keccak256 signature) _ h3 in
      record {
        id_packed = packed;
        signature = signature;
        digest = digest;
        id_packs = e1;
        id_hash = e2;
        signed = h2;
        hashed = e3;
        reduced = e4;
      }

  direction_lem : (d : Direction) → direction_number d ≡ direction_code d
  direction_lem buy = refl
  direction_lem sell = refl

  order_hash_ok :
      (expiry : ℕ) (user_secret hash : Text)
      → order_hash ports f expiry user_secret ≡ ok hash
      → IsFieldHash
          (address f.token_in
            ∷ address f.token_out
            ∷ uint 256 f.amount
            ∷ uint 256 f.min_out
            ∷ uint 64 (pos expiry)
            ∷ uint 64 (price_big f)
            ∷ uint 8 (pos (direction_code f.direction))
            ∷ bytes32 f.nonce
            ∷ bytes32 user_secret
            ∷ [])
          hash
  unfolding commitment_hash
  order_hash_ok expiry user_secret hash h =
      hash_packed_ok _ hash (rw (direction_lem f.direction) at h)

  nullifier_ok :
      (user_secret nullifier : Text)
      → nullifier_hash ports.hashing user_secret f.nonce ≡ ok nullifier
      → IsFieldHash (bytes32 user_secret ∷ bytes32 f.nonce ∷ []) nullifier
  unfolding nullifier_hash
  nullifier_ok user_secret nullifier h = hash_packed_ok _ nullifier h

  unit_lem : (u : Unit {0}) → u ≡ tt
  unit_lem tt = refl

  place_for-IsOneOrder :
      (owner : Text) (expiry : ℕ) (p : Placed)
      → place_for ports f owner expiry ≡ ok p
      → IsOneOrder owner expiry p
  unfolding place_for
  place_for-IsOneOrder owner expiry p h =
      let (strategy_id, e1, h1) =
        >>=-eq-ok (derive_strategy_id ports.hashing owner f.nonce) _ {b = p} h in
      let (keepers, e2, h2) = >>=-eq-ok ports.list_keepers _ {b = p} h1 in
      let (signature, e3, h3) =
        >>=-eq-ok (ports.sign_message (strategy_id_signing_message strategy_id)) _ {b = p} h2 in
      let (user_secret, e4, h4) =
        >>=-eq-ok (derive_user_secret ports.hashing signature) _ {b = p} h3 in
      let (nullifier, e5, h5) =
        >>=-eq-ok (nullifier_hash ports.hashing user_secret f.nonce) _ {b = p} h4 in
      let (hash, e6, h6) = >>=-eq-ok (order_hash ports f expiry user_secret) _ {b = p} h5 in
      let (shares, e7, h7) = >>=-eq-ok (ports.split_and_encrypt user_secret keepers) _ {b = p} h6 in
      let (done, e8, h8) = >>=-eq-ok (ports.save_strategy _) _ {b = p} h7 in
      subst (λ x. IsOneOrder owner expiry x) (ok_injective _ p h8)
        (record {
          user_secret = user_secret;
          keepers = keepers;
          is_secret = secret_of owner strategy_id signature user_secret e1 e3 e4;
          registered = order_hash_ok expiry user_secret hash e6;
          nullified = nullifier_ok user_secret nullifier e5;
          keepers_listed = e2;
          shared = e7;
          record_saved = e8 ∙ ap ok (unit_lem done);
          saved_hash = refl;
          posted_hash = refl;
          saved_expiry = refl;
          posted_expiry = refl;
          registered_expiry = refl;
          saved_price = refl;
          posted_price = refl;
          registered_tokens = (refl, refl);
          registered_amounts = (refl, refl);
          saved_nonce = refl;
          posted_nonce = refl;
        })

  none_is_some : {A : Type 0} {a : A} → ¬ (none ≡ some a)
  none_is_some h = cc

  some_injective : {A : Type 0} (a b : A) → ◌≡◌ {A = Option A} (some a) (some b) → a ≡ b
  some_injective a b h = cc

  place_if-eq-ok :
      (who : Option Text) (e : Option ℕ) (p : Placed)
      → place_if ports f who e ≡ some (ok p)
      → (owner : Text) × (expiry : ℕ) × (who ≡ some owner)
        × (e ≡ some expiry)
        × (place_for ports f owner expiry ≡ ok p)
  place_if-eq-ok none e p h = absurd (none_is_some h)
  place_if-eq-ok (some owner) none p h = absurd (none_is_some h)
  place_if-eq-ok (some owner) (some expiry) p h =
      elim (Bool-cases (not f.is_connected || is_zero f.amount || is_zero (price_big f))) [
        | inl ignored ↦ absurd (none_is_some (rw ignored at h))
        | inr checked ↦ (
          owner,
          expiry,
          refl,
          refl,
          some_injective (place_for ports f owner expiry) (ok p) (rw checked at h),
        )
      ]

  -- When an order goes through, its form has an owner and an expiry. The hash that is registered is that of the form's
  -- fields with this expiry, the order's price and the user's secret, which is the hash of the signature that the
  -- wallet gives under the message for the strategy's id, that of the owner and the nonce; with it the form's tokens and
  -- amounts are registered. The local record, which is
  -- saved, and the body that is posted have this hash, this expiry, this price and the form's nonce; the nullifier
  -- posted is the hash of the same secret and the nonce, and the shares posted are what splitting the same secret
  -- among the keepers listed gives.
  pub handle_order-IsOneOrder :
      (p : Placed)
      → handle_order ports f ≡ some (ok p)
      → (owner : Text) × (expiry : ℕ) × (f.address ≡ some owner)
        × (expiry_of f ≡ some expiry)
        × IsOneOrder owner expiry p
  unfolding handle_order
  handle_order-IsOneOrder p h =
      let (owner, expiry, who, at, done) = place_if-eq-ok f.address (expiry_of f) p h in
      (owner, expiry, who, at, place_for-IsOneOrder owner expiry p done)
