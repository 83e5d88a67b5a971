-- ===== src/Common/Host.antt =====
-- What the browser decides: how a date text is read and how two texts collate.
pub mod Laws
use Prim.Native.Nat.{ℕ, compare, Ordering}
use Prim.Native.String.{String}
use mathlib.Core.Option.{Option, none, some}

-- Times are counted in milliseconds from the earliest instant that a `Date` can hold, 8.64e15
-- milliseconds before 1970, so that they are natural numbers. Only their order and their
-- differences are used.
pub record Host : Type 0 where
  -- `Date.parse`; `none` is NaN
  pub parse_date : String → Option ℕ
  -- `left.localeCompare(right)`, by its sign
  pub locale_compare : String → String → Ordering

-- The clock as one event handler reads it: `new Date().toISOString()` and `${Date.now()}`.
pub record Clock : Type 0 where
  pub iso : String
  pub millis : String

-- The sign of `Date.parse(a) - Date.parse(b)`. NaN counts as 0 in a comparator, and is falsy.
unfoldable pub date_order : Host → String → String → Ordering
date_order h a b = elim (h.parse_date a) [
  | none ↦ Ordering.eq
  | some s ↦ elim (h.parse_date b) [ none ↦ Ordering.eq | some t ↦ compare s t ]
]
