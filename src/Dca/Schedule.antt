-- ===== src/Dca/Schedule.antt =====
-- The windows of a DCA strategy (frontend/src/app/(dashboard)/dca/page.tsx).
use zstrategy.Base.{
  List, [], ◌∷◌, All, ℕ, zero, suc, ◌+◌, ◌-◌, ◌*◌, ◌≤◌, ◌<◌, length, ◌≡◌, refl, ap, arith,
}
use native.Mathlib.Nat.{mul-le-mul_right}
use zstrategy.Dca.{Window, window_of, windows_from, build_schedule}

pub length-windows_from :
    (interval now i left : ℕ) → length (windows_from interval now i left) ≡ left
unfolding windows_from
length-windows_from interval now i zero = refl
length-windows_from interval now i (suc left) =
    ap suc (length-windows_from interval now (i + 1) left)

next_interval : (interval i j : ℕ) → i < j → (i + 1) * interval + interval ≤ (j + 1) * interval
next_interval interval i j lt =
    let p : (i + 2) * interval ≤ (j + 1) * interval = mul-le-mul_right interval (omega arith) in
    omega (arith, p)

first_interval : (interval i : ℕ) → interval ≤ (i + 1) * interval
first_interval interval i = omega arith

-- The window of a round whose time is `center`: it opens after the start, lies evenly around the center, has three tenths of the
-- interval for its length, rounded down to an even number, and its commitment expires an interval after it closes.
pub record IsRound (interval now center : ℕ) (w : Window) : Type 0 where
  pub opens_later : now < w.scheduled_lo
  pub closes_later : w.scheduled_lo ≤ w.scheduled_hi
  pub centered : w.scheduled_lo + w.scheduled_hi ≡ center + center
  pub short : 10 * (w.scheduled_hi - w.scheduled_lo) ≤ 3 * interval
  pub long : 3 * interval < 10 * (w.scheduled_hi - w.scheduled_lo) + 20
  pub expires_later : w.expiry ≡ w.scheduled_hi + interval

-- The i-th round is i + 1 intervals after the start, and so on for the rest.
abbrev pub AreRounds : ℕ → ℕ → ℕ → List Window → Type 0
AreRounds interval now i [] = Unit
AreRounds interval now i (w ∷ ws) =
    IsRound interval now (now + (i + 1) * interval) w × AreRounds interval now (i + 1) ws

-- Every window closes before each later one opens.
abbrev pub AreApart : List Window → Type 0
AreApart [] = Unit
AreApart (w ∷ ws) = All (λ w'. w.scheduled_hi < w'.scheduled_lo) ws × AreApart ws

window_of-IsRound :
    (interval now i : ℕ)
    → 0 < interval
    → IsRound interval now (now + (i + 1) * interval) (window_of interval now i)
window_of-IsRound interval now i positive =
    let first = first_interval interval i in
    record {
      opens_later = omega (arith, first);
      closes_later = omega (arith, first);
      centered = omega (arith, first);
      short = omega (arith, first);
      long = omega (arith, first);
      expires_later = refl;
    }

windows_from-AreRounds :
    (interval now i left : ℕ)
    → 0 < interval
    → AreRounds interval now i (windows_from interval now i left)
unfolding windows_from
windows_from-AreRounds interval now i zero positive = tt
windows_from-AreRounds interval now i (suc left) positive = (
  window_of-IsRound interval now i positive,
  windows_from-AreRounds interval now (i + 1) left positive,
)

windows_from-later :
    (interval now i k left : ℕ)
    → 0 < interval
    → i < k
    → All
        (λ w'. (window_of interval now i).scheduled_hi < w'.scheduled_lo)
        (windows_from interval now k left)
unfolding windows_from
windows_from-later interval now i k zero positive lt = tt
windows_from-later interval now i k (suc left) positive lt = (
  omega (arith, next_interval interval i k lt),
  windows_from-later interval now i (k + 1) left positive (omega (arith, lt)),
)

windows_from-AreApart :
    (interval now i left : ℕ) → 0 < interval → AreApart (windows_from interval now i left)
unfolding windows_from
windows_from-AreApart interval now i zero positive = tt
windows_from-AreApart interval now i (suc left) positive = (
  windows_from-later interval now i (i + 1) left positive (omega arith),
  windows_from-AreApart interval now (i + 1) left positive,
)

-- For an interval that is not zero, the schedule has a window for each round and none more. The window of each round, the last one included, opens after the
-- start and before it closes or as it closes, lies evenly around the round's time, which is a whole number of
-- intervals after the start, one more for each round, is three tenths of the interval long, rounded down to an even
-- number, and its commitment expires an interval after it closes; and it closes before each later one opens.
pub build_schedule_lem :
    (round_count interval now : ℕ)
    → 0 < interval
    → (length (build_schedule round_count interval now) ≡ round_count)
      × AreRounds interval now 0 (build_schedule round_count interval now)
      × AreApart (build_schedule round_count interval now)
unfolding build_schedule
build_schedule_lem round_count interval now positive = (
  length-windows_from interval now 0 round_count,
  windows_from-AreRounds interval now 0 round_count positive,
  windows_from-AreApart interval now 0 round_count positive,
)
