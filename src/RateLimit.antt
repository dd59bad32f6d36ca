-- ===== src/RateLimit.antt =====
-- keeper/src/api/server.ts: keepersRateLimit, the token bucket of GET /api/keepers for each source address, and
-- the periodic sweep. Tokens are counted in units of 1/2000, which makes the refill of 30 tokens in 60000
-- milliseconds one unit a millisecond; the code's doubles round these fractions, which is not modelled. The
-- Map is a function from addresses.
pub mod Bound
use zstrategy.Base.{
  ℕ, suc, ◌*◌, ◌-◌, Bool, true, false, ◌&&◌, List, [], ◌∷◌, Option, none, some, if◌then◌else◌, ltb,
  ◌==◌,
}
use zstrategy.Base.Int.{ℤ, pos, negsuc, ltb_ℤ, sub_ℕ, ◌+ℤ◌, ◌-ℤ◌}
use zstrategy.Base.Text.{Text, codes, text_eq}
use zstrategy.Js.{trim}

pub record Bucket : Type 0 where
  pub tokens : ℤ
  pub updated : ℕ

abbrev pub Buckets : Type 0
Buckets = Text → Option Bucket

-- One token, and KEEPERS_RATE_PER_MIN tokens.
abbrev pub one_token : ℕ
one_token = 2000

abbrev pub full : ℕ
full = 30 * 2000

abbrev pub bucket_ttl_ms : ℕ
bucket_ttl_ms = 60 * 60 * 1000

-- `text.split(",")[0]`
first_part : Text → Text
first_part [] = []
first_part (c ∷ s) = let rest = first_part s in if c == b',' then [] else c ∷ rest

-- `x || y` on texts
abbrev or_text : Text → Text → Text
or_text [] y = y
or_text (c ∷ s) y = c ∷ s

abbrev header_part : Option Text → Text
header_part none = []
header_part (some h) = trim (first_part h)

abbrev if_present : Option Text → Text
if_present none = []
if_present (some a) = a

-- The address of a request, by its header x-forwarded-for and its socket.
unfoldable pub client_ip : Option Text → Option Text → Text
unfolding first_part
client_ip forwarded_for remote_address =
    or_text (header_part forwarded_for) (or_text (if_present remote_address) (codes "unknown"))

-- The bucket of an address, a full one if there is none.
abbrev pub bucket_or_full : Option Bucket → ℕ → Bucket
bucket_or_full none now = record { tokens = pos full; updated = now }
bucket_or_full (some b) now = b

abbrev pub set_bucket : Text → Bucket → Buckets → Buckets
set_bucket ip b m = λ k. if text_eq ip k then some b else m k

-- Math.min(KEEPERS_RATE_PER_MIN, …), after the time that has passed, which may be negative.
unfoldable pub refill : Bucket → ℕ → ℤ
refill b now =
    let t = b.tokens +ℤ (pos now -ℤ pos b.updated) in if ltb_ℤ (pos full) t then pos full else t

-- Below the refill: `false` is the answer 429.
abbrev pub spend : Text → ℕ → ℤ → Buckets → Bool × Buckets
spend ip now t m =
    if ltb_ℤ t (pos one_token)
    then (false, set_bucket ip (record { tokens = t; updated = now }) m)
    else (true, set_bucket ip (record { tokens = t -ℤ pos one_token; updated = now }) m)

unfoldable pub keepers_rate_limit : Text → ℕ → Buckets → Bool × Buckets
keepers_rate_limit ip now m = spend ip now (refill (bucket_or_full (m ip) now) now) m

-- `b.updated < cutoff`
abbrev pub swept_away : ℕ → Option Bucket → Option Bucket
swept_away now none = none
swept_away now (some b) =
    if ltb_ℤ (pos b.updated) (pos now -ℤ pos bucket_ttl_ms) then none else some b

unfoldable pub sweep : ℕ → Buckets → Buckets
sweep now m = λ k. swept_away now (m k)

-- What happens to the buckets, with the clock's milliseconds.
pub data Tick : Type 0 where
  request : Text → ℕ → Tick
  swept : ℕ → Tick

abbrev pub time_of : Tick → ℕ
time_of (request ip now) = now
time_of (swept now) = now

abbrev pub count_if : Bool → ℕ → ℕ
count_if true n = suc n
count_if false n = n

-- How many requests of an address are let through in a run.
unfoldable pub granted : Text → List Tick → Buckets → ℕ
granted ip [] m = 0
granted ip (request who now ∷ ticks) m =
    let (let_through, m') = keepers_rate_limit who now m in
    count_if (text_eq who ip && let_through) (granted ip ticks m')
granted ip (swept now ∷ ticks) m = granted ip ticks (sweep now m)
