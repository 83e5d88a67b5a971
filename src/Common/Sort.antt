-- ===== src/Common/Sort.antt =====
-- `Array.prototype.sort` with a comparator: stable, so that equal elements keep their order. Only
-- whether a comparator is positive decides: `after x y` is `compare(x, y) > 0`.
pub mod Laws
use mathlib.Core.Bool.{Bool}
use mathlib.Core.List.{List, [], ◌∷◌}
use acp_webui.Common.Tests.{if◌then◌else◌}

module _ {ℓ} {A : Type ℓ} (after : A → A → Bool) where
  -- Puts `x` before the first element that it does not come after.
  unfoldable pub insert : A → List A → List A
  insert x [] = x ∷ []
  insert x (y ∷ ys) = let rest = insert x ys in if after x y then y ∷ rest else x ∷ y ∷ ys

  unfoldable pub sort : List A → List A
  unfolding insert
  sort [] = []
  sort (x ∷ xs) = insert x (sort xs)
