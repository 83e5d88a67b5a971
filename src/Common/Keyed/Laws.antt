-- ===== src/Common/Keyed/Laws.antt =====
-- Laws of the update by key: look-up after update, distinct keys, repetition; and what a sort keeps.
use Prim.Native.Nat.{◌<◌}
use Prim.Native.String.{String}
use mathlib.Core.Path.{◌≡◌, refl}
use mathlib.Core.Logic.{◌≢◌, inl, inr}
use mathlib.Core.Bool.{Bool, true, false, not}
use mathlib.Core.Option.{Option, none, some}
use mathlib.Core.List.{List, [], ◌∷◌, ◌++◌}
use native.Mathlib.Omega.{arith}
use text.Mathlib.Text.{◌==◌}
use text.Mathlib.TextEquality.{eq_iff}
use text.Mathlib.TextPositions.{eq_refl}
use acp_webui.Common.Tests.{if◌then◌else◌, Bool-cases}
use acp_webui.Common.Lists.{any, filter, find, length, All, All-append, All-filter}
use acp_webui.Common.Keyed.{replace, upsert}

module _ {ℓ} {A : Type ℓ} (key : A → String) where
  -- The first element with the key.
  abbrev pub at_key : String → List A → Option A
  at_key k xs = find (λ x. key x == k) xs

  -- No two elements have the same key.
  abbrev pub HasDistinctKeys : List A → Type 0
  HasDistinctKeys [] = Unit
  HasDistinctKeys (x ∷ xs) = All (λ y. key y ≢ key x) xs × HasDistinctKeys xs

  abbrev pub has_key : A → List A → Bool
  has_key item xs = any (λ candidate. key candidate == key item) xs

  replace_absent : (item : A) (xs : List A) → has_key item xs ≡ false → replace key item xs ≡ xs
  unfolding replace
  replace_absent item [] h = refl
  replace_absent item (x ∷ xs) h = ground (arith, replace_absent item xs)

  at_key-replace :
      (k : String) (item : A) (xs : List A)
      → at_key k (replace key item xs)
        ≡ (if key item == k then (if has_key item xs then some item else none) else at_key k xs)
  unfolding replace
  at_key-replace k item [] = ground arith
  at_key-replace k item (x ∷ xs) = ground (
    arith,
    at_key-replace k item xs,
    eq_iff (key x) (key item),
    eq_iff (key item) k,
    eq_iff (key x) k,
  )

  at_key-append :
      (k : String) (item : A) (xs : List A)
      → has_key item xs ≡ false
      → at_key k (xs ++ item ∷ []) ≡ (if key item == k then some item else at_key k xs)
  at_key-append k item [] h = refl
  at_key-append k item (x ∷ xs) h = ground (
    arith,
    at_key-append k item xs,
    eq_iff (key x) (key item),
    eq_iff (key item) k,
    eq_iff (key x) k,
  )

  -- After an update the key has the new element, and every other key what it had.
  pub at_key-upsert :
      (k : String) (item : A) (xs : List A)
      → at_key k (upsert key item xs) ≡ (if key item == k then some item else at_key k xs)
  unfolding upsert
  at_key-upsert k item xs = elim (Bool-cases (has_key item xs)) [
    | inl old ↦ rw old (rw (at_key-replace k item xs) (rw old))
    | inr new ↦ rw new (at_key-append k item xs new)
  ]

  has_key-replace : (item : A) (xs : List A) → has_key item (replace key item xs) ≡ has_key item xs
  unfolding replace
  has_key-replace item [] = refl
  has_key-replace item (x ∷ xs) = ground (arith, has_key-replace item xs, eq_refl (key item))

  has_key-append : (item : A) (xs : List A) → has_key item (xs ++ item ∷ []) ≡ true
  has_key-append item [] = rw (eq_refl (key item))
  has_key-append item (x ∷ xs) = ground (arith, has_key-append item xs)

  -- Whether the key was there or not, it is there after the update.
  pub has_key-upsert : (item : A) (xs : List A) → has_key item (upsert key item xs) ≡ true
  unfolding upsert
  has_key-upsert item xs = elim (Bool-cases (has_key item xs)) [
    | inl old ↦ rw old (rw (has_key-replace item xs) old)
    | inr new ↦ rw new (has_key-append item xs)
  ]

  -- Every element with the key of `item` is `item`.
  abbrev pub Holds : A → List A → Type ℓ
  Holds item xs = All (λ x. key x ≡ key item → x ≡ item) xs

  replace-Holds : (item : A) (xs : List A) → Holds item (replace key item xs)
  unfolding replace
  replace-Holds item [] = tt
  replace-Holds item (x ∷ xs) = elim (Bool-cases (key x == key item)) [
    | inl same ↦ rw same (λ _. refl, replace-Holds item xs)
    | inr other ↦ rw other (λ e. ground (arith, eq_iff (key x) (key item)), replace-Holds item xs)
  ]

  absent-Holds : (item : A) (xs : List A) → has_key item xs ≡ false → Holds item xs
  absent-Holds item [] h = tt
  absent-Holds item (x ∷ xs) h =
      (λ e. ground (arith, eq_iff (key x) (key item)), absent-Holds item xs (ground arith))

  pub upsert-Holds : (item : A) (xs : List A) → Holds item (upsert key item xs)
  unfolding upsert
  upsert-Holds item xs = elim (Bool-cases (has_key item xs)) [
    | inl old ↦ rw old (replace-Holds item xs)
    | inr new ↦ rw new (All-append _ xs (item ∷ []) (absent-Holds item xs new) (λ _. refl, tt))
  ]

  replace_of_Holds : (item : A) (xs : List A) → Holds item xs → replace key item xs ≡ xs
  unfolding replace
  replace_of_Holds item [] h = refl
  replace_of_Holds item (x ∷ xs) (same, h) =
      ground (arith, replace_of_Holds item xs h, eq_iff (key x) (key item))

  -- An update that finds its own element changes nothing.
  pub upsert_of_Holds :
      (item : A) (xs : List A) → has_key item xs ≡ true → Holds item xs → upsert key item xs ≡ xs
  unfolding upsert
  upsert_of_Holds item xs found h = rw found (replace_of_Holds item xs h)

  replace-distinct_from :
      (k : String) (item : A) (xs : List A)
      → All (λ y. key y ≢ k) xs
      → All (λ y. key y ≢ k) (replace key item xs)
  unfolding replace
  replace-distinct_from k item [] h = tt
  replace-distinct_from k item (x ∷ xs) (p, h) =
      (ground (arith, eq_iff (key x) (key item)), replace-distinct_from k item xs h)

  replace-HasDistinctKeys :
      (item : A) (xs : List A) → HasDistinctKeys xs → HasDistinctKeys (replace key item xs)
  unfolding replace
  replace-HasDistinctKeys item [] h = tt
  replace-HasDistinctKeys item (x ∷ xs) (p, h) = elim (Bool-cases (key x == key item)) [
    | inl same ↦
        rw (same, ← (eq_iff (key x) (key item)).0 same)
          (replace-distinct_from (key x) item xs p, replace-HasDistinctKeys item xs h)
    | inr other ↦
        rw other (replace-distinct_from (key x) item xs p, replace-HasDistinctKeys item xs h)
  ]

  append-HasDistinctKeys :
      (item : A) (xs : List A)
      → has_key item xs ≡ false
      → HasDistinctKeys xs
      → HasDistinctKeys (xs ++ item ∷ [])
  append-HasDistinctKeys item [] e h = (tt, tt)
  append-HasDistinctKeys item (x ∷ xs) e (p, h) = (
    All-append _ xs (item ∷ []) p (ground (arith, eq_iff (key x) (key item)), tt),
    append-HasDistinctKeys item xs (ground arith) h,
  )

  -- An update keeps the keys distinct.
  pub upsert-HasDistinctKeys :
      (item : A) (xs : List A) → HasDistinctKeys xs → HasDistinctKeys (upsert key item xs)
  unfolding upsert
  upsert-HasDistinctKeys item xs h = elim (Bool-cases (has_key item xs)) [
    | inl old ↦ rw old (replace-HasDistinctKeys item xs h)
    | inr new ↦ rw new (append-HasDistinctKeys item xs new h)
  ]

  -- A filter keeps the keys distinct.
  pub filter-HasDistinctKeys :
      (p : A → Bool) (xs : List A) → HasDistinctKeys xs → HasDistinctKeys (filter p xs)
  filter-HasDistinctKeys p [] h = tt
  filter-HasDistinctKeys p (x ∷ xs) (apart, h) = elim (Bool-cases (p x)) [
    | inl kept ↦ rw kept (All-filter (λ y. key y ≢ key x) p xs apart, filter-HasDistinctKeys p xs h)
    | inr gone ↦ rw gone (filter-HasDistinctKeys p xs h)
  ]

  -- After every element with a key has been filtered out, the key is gone and the others stay.
  pub at_key-filter :
      (k gone : String) (xs : List A)
      → at_key k (filter (λ x. not (key x == gone)) xs) ≡ (if k == gone then none else at_key k xs)
  at_key-filter k gone [] = ground arith
  at_key-filter k gone (x ∷ xs) =
      ground (arith, at_key-filter k gone xs, eq_iff (key x) gone, eq_iff (key x) k, eq_iff k gone)

  pub at_key-pos : (k : String) (xs : List A) {x : A} → at_key k xs ≡ some x → 0 < length xs
  at_key-pos k [] h = cc
  at_key-pos k (x ∷ xs) h = omega arith

module _ {ℓ κ} {A : Type ℓ} (key : A → String) (P : A → Type κ) where
  replace-All : (item : A) (xs : List A) → P item → All P xs → All P (replace key item xs)
  unfolding replace
  replace-All item [] p v = tt
  replace-All item (x ∷ xs) p (q, v) = elim (Bool-cases (key x == key item)) [
    | inl same ↦ rw same (p, replace-All item xs p v)
    | inr other ↦ rw other (q, replace-All item xs p v)
  ]

  -- What holds of the element and of every old one holds of every element after an update.
  pub upsert-All : (item : A) (xs : List A) → P item → All P xs → All P (upsert key item xs)
  unfolding upsert
  upsert-All item xs p v = elim (Bool-cases (has_key key item xs)) [
    | inl old ↦ rw old (replace-All item xs p v)
    | inr new ↦ rw new (All-append P xs (item ∷ []) v (p, tt))
  ]
