-- ===== src/Common/Keyed/Mapped.antt =====
-- Arrays with a text key under a map that keeps the keys, and with an element put in front.
use Prim.Native.String.{String}
use mathlib.Core.Path.{◌≡◌, ◌∙◌, sym}
use mathlib.Core.Logic.{◌≢◌, inl, inr}
use mathlib.Core.Bool.{not}
use mathlib.Core.List.{List, [], ◌∷◌, map}
use native.Mathlib.Omega.{arith}
use text.Mathlib.Text.{◌==◌}
use text.Mathlib.TextEquality.{eq_iff}
use acp_webui.Common.Tests.{Bool-cases}
use acp_webui.Common.Lists.{All, filter}
use acp_webui.Common.Keyed.Laws.{HasDistinctKeys}

module _ {ℓ} {A : Type ℓ} (key : A → String) where
  module _ (f : A → A) (keeps : (x : A) → key (f x) ≡ key x) where
    map-distinct_from :
        (k : String) (xs : List A) → All (λ y. key y ≢ k) xs → All (λ y. key y ≢ k) (map f xs)
    map-distinct_from k [] h = tt
    map-distinct_from k (x ∷ xs) (p, h) = (λ e. p (sym (keeps x) ∙ e), map-distinct_from k xs h)

    pub map-HasDistinctKeys :
        (xs : List A) → HasDistinctKeys key xs → HasDistinctKeys key (map f xs)
    map-HasDistinctKeys [] h = tt
    map-HasDistinctKeys (x ∷ xs) (apart, h) =
        rw (keeps x) (map-distinct_from (key x) xs apart, map-HasDistinctKeys xs h)

  -- After a filter by the key, no element has the key.
  pub filter-distinct_from :
      (k : String) (xs : List A) → All (λ y. key y ≢ k) (filter (λ x. not (key x == k)) xs)
  filter-distinct_from k [] = tt
  filter-distinct_from k (x ∷ xs) = elim (Bool-cases (key x == k)) [
    | inl same ↦ rw same (filter-distinct_from k xs)
    | inr other ↦ rw other (λ e. ground (arith, eq_iff (key x) k), filter-distinct_from k xs)
  ]
