-- ===== src/Common/Host/Laws.antt =====
-- About the order of dates.
use acp_webui.Common.Tests.{is_gt}
use acp_webui.Common.Host.{Host, date_order}
use Prim.Native.Nat.{ℕ, ◌≤◌}
use Prim.Native.String.{String}
use mathlib.Core.Path.{◌≡◌}
use mathlib.Core.Bool.{true, false}
use mathlib.Core.Option.{some}
use native.Mathlib.Omega.{arith}

-- A text that the host reads as a date.
abbrev pub IsDate : Host → String → Type 0
IsDate h a = (t : ℕ) × (h.parse_date a ≡ some t)

module _ (h : Host) where
  pub date_order-asym :
      (a b : String)
      → IsDate h a
      → IsDate h b
      → is_gt (date_order h a b) ≡ true
      → is_gt (date_order h b a) ≡ false
  unfolding date_order
  date_order-asym a b (s, p) (t, q) later = ground arith

  pub date_order_trans :
      (a b c : String)
      → IsDate h a
      → IsDate h b
      → IsDate h c
      → is_gt (date_order h a b) ≡ false
      → is_gt (date_order h b c) ≡ false
      → is_gt (date_order h a c) ≡ false
  unfolding date_order
  date_order_trans a b c (s, p) (t, q) (u, r) k l = ground arith

  -- Not later than: the times are in order.
  pub date_order_le :
      (a b : String) {s t : ℕ}
      → h.parse_date a ≡ some s
      → h.parse_date b ≡ some t
      → is_gt (date_order h a b) ≡ false
      → s ≤ t
  unfolding date_order
  date_order_le a b p q k = ground arith
