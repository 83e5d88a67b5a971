-- ===== src/Common/Keyed/Sorted.antt =====
-- About a sort of an array whose elements have a text key.
use Prim.Native.String.{String}
use mathlib.Core.Path.{◌≡◌, refl, ap, ◌∙◌}
use mathlib.Core.Logic.{◌≢◌, inl, inr}
use mathlib.Core.Bool.{Bool}
use mathlib.Core.Option.{some}
use mathlib.Core.List.{List, [], ◌∷◌}
use native.Mathlib.Omega.{arith}
use text.Mathlib.Text.{◌==◌}
use text.Mathlib.TextEquality.{eq_iff}
use acp_webui.Common.Tests.{if◌then◌else◌, Bool-cases}
use acp_webui.Common.Lists.{All}
use acp_webui.Common.Sort.{insert, sort}
use acp_webui.Common.Sort.Laws.{insert-All, sort-All}
use acp_webui.Common.Keyed.Laws.{at_key, has_key, HasDistinctKeys}

module _ {ℓ} {A : Type ℓ} (after : A → A → Bool) (key : A → String) where
  at_key-insert :
      (k : String) (x : A) (xs : List A)
      → All (λ y. key y ≢ key x) xs
      → at_key key k (insert after x xs) ≡ (if key x == k then some x else at_key key k xs)
  unfolding insert
  at_key-insert k x [] h = refl
  at_key-insert k x (y ∷ ys) (p, h) =
      ground (arith, at_key-insert k x ys h, eq_iff (key x) k, eq_iff (key y) k)

  insert-HasDistinctKeys :
      (x : A) (xs : List A)
      → All (λ y. key y ≢ key x) xs
      → HasDistinctKeys key xs
      → HasDistinctKeys key (insert after x xs)
  unfolding insert
  insert-HasDistinctKeys x [] p h = (tt, tt)
  insert-HasDistinctKeys x (y ∷ ys) (p, ps) (q, h) = elim (Bool-cases (after x y)) [
    | inl later ↦ rw later (
      insert-All after (λ z. key z ≢ key y) x ys (λ e. p (ground (arith, e))) q,
      insert-HasDistinctKeys x ys ps h,
    )
    | inr fits ↦ rw fits ((p, ps), (q, h))
  ]

  -- A sort keeps the keys distinct.
  pub sort-HasDistinctKeys :
      (xs : List A) → HasDistinctKeys key xs → HasDistinctKeys key (sort after xs)
  unfolding sort
  sort-HasDistinctKeys [] h = tt
  sort-HasDistinctKeys (x ∷ xs) (p, h) =
      insert-HasDistinctKeys x (sort after xs) (sort-All after (λ y. key y ≢ key x) xs p)
        (sort-HasDistinctKeys xs h)

  -- A sort of elements with distinct keys leaves every key its element.
  pub at_key-sort :
      (k : String) (xs : List A)
      → HasDistinctKeys key xs
      → at_key key k (sort after xs) ≡ at_key key k xs
  unfolding sort
  at_key-sort k [] h = refl
  at_key-sort k (x ∷ xs) (p, h) =
      at_key-insert k x (sort after xs) (sort-All after (λ y. key y ≢ key x) xs p)
      ∙ ap (λ r. if key x == k then some x else r) (at_key-sort k xs h)

  has_key-insert :
      (item x : A) (xs : List A) → has_key key item (insert after x xs) ≡ has_key key item (x ∷ xs)
  unfolding insert
  has_key-insert item x [] = refl
  has_key-insert item x (y ∷ ys) = ground (arith, has_key-insert item x ys)

  -- A sort keeps the set of keys.
  pub has_key-sort :
      (item : A) (xs : List A) → has_key key item (sort after xs) ≡ has_key key item xs
  unfolding sort
  has_key-sort item [] = refl
  has_key-sort item (x ∷ xs) =
      ground (arith, has_key-insert item x (sort after xs), has_key-sort item xs)
