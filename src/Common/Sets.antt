-- ===== src/Common/Sets.antt =====
-- A JavaScript `Set` of texts, as the list of its members in the order of their insertion.
pub mod Laws
use Prim.Native.Nat.{ℕ, zero, suc, ◌-◌}
use Prim.Native.String.{String}
use mathlib.Core.Bool.{Bool, true, false}
use mathlib.Core.Option.{Option, none, some}
use mathlib.Core.List.{List, [], ◌∷◌, ◌++◌}
use text.Mathlib.Text.{◌==◌}
use acp_webui.Common.Tests.{if◌then◌else◌}
use acp_webui.Common.Lists.{any, length}

-- `set.has(x)`, and `xs.includes(x)` of an array
abbrev pub has : String → List String → Bool
has x xs = any (λ y. y == x) xs

-- `set.add(x)`
unfoldable pub add : String → List String → List String
add x xs = if has x xs then xs else xs ++ x ∷ []

-- `for (const x of xs) set.add(x)`
unfoldable pub add_all : List String → List String → List String
unfolding add
add_all [] set = set
add_all (x ∷ xs) set = add_all xs (add x set)

-- `Array.from(new Set(xs))`
unfoldable pub unique : List String → List String
unfolding add_all
unique xs = add_all xs []

module _ {ℓ} {A : Type ℓ} where
  -- `xs.slice(0, n)` and `xs.slice(n)`
  abbrev pub take : ℕ → List A → List A
  take zero xs = []
  take (suc n) [] = []
  take (suc n) (x ∷ xs) = x ∷ take n xs

  abbrev pub drop : ℕ → List A → List A
  drop zero xs = xs
  drop (suc n) [] = []
  drop (suc n) (x ∷ xs) = drop n xs

  -- `xs.slice(-n)`, for an `n` that is not 0
  abbrev pub take_last : ℕ → List A → List A
  take_last n xs = drop (length xs - n) xs

  -- `xs.at(-1)`
  abbrev pub last? : List A → Option A
  last? [] = none
  last? (x ∷ []) = some x
  last? (x ∷ y ∷ ys) = last? (y ∷ ys)
