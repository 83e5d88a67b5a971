-- ===== src/Common/Text/Laws.antt =====
-- About `trim`.
use Prim.Native.Char.{Char}
use Prim.Native.String.{String}
use text.Mathlib.TextLemmas.{cons-ne-nil, tail-eq_of_cons-eq}
use mathlib.Core.Path.{◌≡◌, refl, ap, ◌∙◌}
use mathlib.Core.Bool.{◌&&◌}
use mathlib.Core.Logic.{inl, inr}
use native.Mathlib.Omega.{arith}
use acp_webui.Common.Tests.{Bool-cases}
use acp_webui.Common.Text.{is_empty, is_space, trim, trim_end, trim_start}

trim_end_idem : (s : String) → trim_end (trim_end s) ≡ trim_end s
unfolding trim_end
trim_end_idem String.[] = refl
trim_end_idem (String.◌∷◌ c s) = elim (Bool-cases (is_empty (trim_end s) && is_space c)) [
  | inl blank ↦ rw blank
  | inr kept ↦ rw kept (rw (trim_end_idem s) (rw kept))
]

trim_start_idem : (s : String) → trim_start (trim_start s) ≡ trim_start s
unfolding trim_start
trim_start_idem String.[] = refl
trim_start_idem (String.◌∷◌ c s) = elim (Bool-cases (is_space c)) [
  | inl blank ↦ rw blank (trim_start_idem s)
  | inr kept ↦ rw kept (rw kept)
]

tail_trimmed : (c : Char) (s : String) → trim_end (String.◌∷◌ c s) ≡ String.◌∷◌ c s → trim_end s ≡ s
unfolding trim_end
tail_trimmed c s h = elim (Bool-cases (is_empty (trim_end s) && is_space c)) [
  | inl blank ↦ ground (arith, h, cons-ne-nil c s)
  | inr kept ↦ tail-eq_of_cons-eq {x = c} {y = c} (rw kept at h)
]

trim_start-trimmed : (s : String) → trim_end s ≡ s → trim_end (trim_start s) ≡ trim_start s
unfolding trim_start
trim_start-trimmed String.[] h = h
trim_start-trimmed (String.◌∷◌ c s) h = elim (Bool-cases (is_space c)) [
  | inl blank ↦ rw blank (trim_start-trimmed s (tail_trimmed c s h))
  | inr kept ↦ rw kept h
]

-- A trimmed text is left alone.
pub trim_idem : (s : String) → trim (trim s) ≡ trim s
unfolding trim
trim_idem s =
    ap trim_start (trim_start-trimmed (trim_end s) (trim_end_idem s)) ∙ trim_start_idem (trim_end s)
