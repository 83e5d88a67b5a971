-- ===== src/Common/Text/Number.antt =====
-- Decimal numerals: a number in a template text, `${n}`.
use Prim.Native.Nat.{ℕ, zero, suc, ◌/◌, ◌%◌, ◌≤◌}
use Prim.Native.String
use Prim.Native.String.{String}
use mathlib.Core.Path.{◌≡◌, refl}
use native.Mathlib.Omega.{arith}
use mathlib.Core.Bool.{false}
use mathlib.Core.Logic.{inl, inr}
use acp_webui.Common.Tests.{ltb, Bool-cases, if◌then◌else◌}
use acp_webui.Common.Text.{◌<>◌}

pub digit : ℕ → String
digit d = String.slice "0123456789" d (suc d)

-- Each round divides by ten: `n` rounds are enough for `n`.
decimal_rounds : ℕ → ℕ → String
unfolding digit
decimal_rounds zero n = digit n
decimal_rounds (suc fuel) n =
    let front = decimal_rounds fuel (n / 10) in
    if ltb n 10 then digit n else front <> digit (n % 10)

unfoldable pub decimal : ℕ → String
unfolding decimal_rounds
decimal n = decimal_rounds n n

decimal_rounds_enough :
    (fuel more n : ℕ) → n ≤ fuel → n ≤ more → decimal_rounds fuel n ≡ decimal_rounds more n
unfolding decimal_rounds
decimal_rounds_enough zero zero n h k = refl
decimal_rounds_enough zero (suc more) n h k = ground arith
decimal_rounds_enough (suc fuel) zero n h k = ground arith
decimal_rounds_enough (suc fuel) (suc more) n h k = elim (Bool-cases (ltb n 10)) [
  | inl small ↦ rw small refl
  | inr large ↦
      rw large (rw (decimal_rounds_enough fuel more (n / 10) (ground arith) (ground arith)) refl)
]

-- The numeral of a number of several digits is that of its tenth, then the last digit.
pub decimal_step : (n : ℕ) → ltb n 10 ≡ false → decimal n ≡ decimal (n / 10) <> digit (n % 10)
unfolding decimal decimal_rounds
decimal_step zero h = absurd (ground arith)
decimal_step (suc n) h =
    rw h (rw (decimal_rounds_enough n (suc n / 10) (suc n / 10) (ground arith) (omega arith)) refl)
