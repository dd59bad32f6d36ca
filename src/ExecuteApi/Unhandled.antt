-- ===== src/ExecuteApi/Unhandled.antt =====
-- When an accepted request is not submitted, since its conversions throw (keeper/src/api/server.ts).
use zstrategy.Base.{Option, ◌≡◌, refl, ℕ}
use zstrategy.Base.Int.{ℤ}
use zstrategy.Base.Text.{Text, codes}
use zstrategy.Base.Result.{Result, ok, throw}
use zstrategy.Js.{text, or_else, big_int}
use zstrategy.ExecuteApi.{AddressChecks, ExecuteBody, request_of}

-- The first of the five conversions that throws, with what it throws: both addresses, the size, the
-- minimal output and the limit price, which is "0" where it is left out.
pub data FailsToConvert (checks : AddressChecks) (b : ExecuteBody) (m : Text) : Type 0 where
  token_in : checks.get_address b.token_in ≡ throw m → FailsToConvert checks b m
  token_out :
      (i : Text)
      → checks.get_address b.token_in ≡ ok i
      → checks.get_address b.token_out ≡ throw m
      → FailsToConvert checks b m
  size :
      (i o : Text)
      → checks.get_address b.token_in ≡ ok i
      → checks.get_address b.token_out ≡ ok o
      → big_int b.size ≡ throw m
      → FailsToConvert checks b m
  min_out :
      (i o : Text) (n : ℤ)
      → checks.get_address b.token_in ≡ ok i
      → checks.get_address b.token_out ≡ ok o
      → big_int b.size ≡ ok n
      → big_int b.min_out ≡ throw m
      → FailsToConvert checks b m
  limit_price :
      (i o : Text) (n k : ℤ)
      → checks.get_address b.token_in ≡ ok i
      → checks.get_address b.token_out ≡ ok o
      → big_int b.size ≡ ok n
      → big_int b.min_out ≡ ok k
      → big_int (or_else b.limit_price (text (codes "0"))) ≡ throw m
      → FailsToConvert checks b m

module _ (checks : AddressChecks) (b : ExecuteBody) (stamp : Option ℕ) (secret : Text) where
  FailsToConvert-request_of :
      (m : Text) → FailsToConvert checks b m → request_of checks b stamp secret ≡ throw m
  unfolding request_of
  FailsToConvert-request_of m (token_in e) = rw e refl
  FailsToConvert-request_of m (token_out i e1 e) = rw (e1, e) refl
  FailsToConvert-request_of m (size i o e1 e2 e) = rw (e1, e2, e) refl
  FailsToConvert-request_of m (min_out i o n e1 e2 e3 e) = rw (e1, e2, e3, e) refl
  FailsToConvert-request_of m (limit_price i o n k e1 e2 e3 e4 e) = rw (e1, e2, e3, e4, e) refl
