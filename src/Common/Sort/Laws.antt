-- ===== src/Common/Sort/Laws.antt =====
-- About the stable sort: permutation, order, and what holds of every element.
use mathlib.Core.Path.{◌≡◌, refl}
use mathlib.Core.Bool.{Bool, true, false}
use mathlib.Core.Logic.{inl, inr}
use mathlib.Core.List.{List, [], ◌∷◌, Perm}
use mathlib.Core.List.Perm
use acp_webui.Common.Tests.{Bool-cases}
use acp_webui.Common.Lists.{All, All-filter, filter}
use acp_webui.Common.Sort.{insert, sort}

module _ {ℓ} {A : Type ℓ} (after : A → A → Bool) where
  insert-perm : (x : A) (xs : List A) → Perm (insert after x xs) (x ∷ xs)
  unfolding insert
  insert-perm x [] = Perm.refl (x ∷ [])
  insert-perm x (y ∷ ys) = elim (Bool-cases (after x y)) [
    | inl later ↦ rw later (Perm.trans (Perm.cons y (insert-perm x ys)) (Perm.swap x y ys))
    | inr fits ↦ rw fits (Perm.refl (x ∷ y ∷ ys))
  ]

  -- The sort permutes its array.
  pub sort-perm : (xs : List A) → Perm (sort after xs) xs
  unfolding sort
  sort-perm [] = Perm.refl []
  sort-perm (x ∷ xs) = Perm.trans (insert-perm x (sort after xs)) (Perm.cons x (sort-perm xs))

module _ {ℓ κ} {A : Type ℓ} (after : A → A → Bool) (P : A → Type κ) where
  pub insert-All : (x : A) (xs : List A) → P x → All P xs → All P (insert after x xs)
  unfolding insert
  insert-All x [] p h = (p, tt)
  insert-All x (y ∷ ys) p (q, h) = elim (Bool-cases (after x y)) [
    | inl later ↦ rw later (q, insert-All x ys p h)
    | inr fits ↦ rw fits (p, (q, h))
  ]

  pub sort-All : (xs : List A) → All P xs → All P (sort after xs)
  unfolding sort
  sort-All [] h = tt
  sort-All (x ∷ xs) (p, h) = insert-All x (sort after xs) p (sort-All xs h)

-- Every element is in the relation with each later one.
module _ {ℓ κ} {A : Type ℓ} (R : A → A → Type κ) where
  abbrev pub Pairwise : List A → Type κ
  Pairwise [] = Unit
  Pairwise (x ∷ xs) = All (R x) xs × Pairwise xs

-- No element comes after a later one.
module _ {ℓ} {A : Type ℓ} (after : A → A → Bool) where
  abbrev pub IsSorted : List A → Type ℓ
  IsSorted [] = Unit
  IsSorted (x ∷ xs) = All (λ y. after x y ≡ false) xs × IsSorted xs

  insert_of_IsSorted : (x : A) (xs : List A) → IsSorted (x ∷ xs) → insert after x xs ≡ x ∷ xs
  unfolding insert
  insert_of_IsSorted x [] h = refl
  insert_of_IsSorted x (y ∷ ys) h = rw h.0.0

  -- The sort leaves an ordered array alone.
  pub sort_of_IsSorted : (xs : List A) → IsSorted xs → sort after xs ≡ xs
  unfolding sort
  sort_of_IsSorted [] h = refl
  sort_of_IsSorted (x ∷ xs) h = rw (sort_of_IsSorted xs h.1) (insert_of_IsSorted x xs h)

-- The comparator is a total order, up to ties, on the elements with `P`.
pub record IsOrder {ℓ κ} {A : Type ℓ} (after : A → A → Bool) (P : A → Type κ) : Type (ℓ ⊔ κ) where
  pub asym : (x y : A) → P x → P y → after x y ≡ true → after y x ≡ false
  pub trans :
      (x y z : A) → P x → P y → P z → after x y ≡ false → after y z ≡ false → after x z ≡ false

module _ {ℓ κ} {A : Type ℓ} {after : A → A → Bool} {P : A → Type κ} (o : IsOrder after P) where
  below-All :
      (x y : A) (zs : List A)
      → P x
      → P y
      → All P zs
      → after x y ≡ false
      → All (λ z. after y z ≡ false) zs
      → All (λ z. after x z ≡ false) zs
  below-All x y [] p q h e k = tt
  below-All x y (z ∷ zs) p q (r, h) e (d, k) = (o.trans x y z p q r e d, below-All x y zs p q h e k)

  pub insert-IsSorted :
      (x : A) (xs : List A)
      → P x
      → All P xs
      → IsSorted after xs
      → IsSorted after (insert after x xs)
  unfolding insert
  insert-IsSorted x [] p h s = (tt, tt)
  insert-IsSorted x (y ∷ ys) p (q, h) (k, s) = elim (Bool-cases (after x y)) [
    | inl later ↦ rw later (
      insert-All after (λ z. after y z ≡ false) x ys (o.asym x y p q later) k,
      insert-IsSorted x ys p h s,
    )
    | inr fits ↦ rw fits ((fits, below-All x y ys p q h fits k), (k, s))
  ]

  -- The sort orders an array of elements with `P`.
  pub sort-IsSorted : (xs : List A) → All P xs → IsSorted after (sort after xs)
  unfolding sort
  sort-IsSorted [] h = tt
  sort-IsSorted (x ∷ xs) (p, h) =
      insert-IsSorted x (sort after xs) p (sort-All after P xs h) (sort-IsSorted xs h)

-- A filter keeps an array ordered.
pub filter-IsSorted {ℓ} :
    {A : Type ℓ} (after : A → A → Bool) (p : A → Bool) (xs : List A)
    → IsSorted after xs
    → IsSorted after (filter p xs)
filter-IsSorted after p [] h = tt
filter-IsSorted after p (x ∷ xs) (below, h) = elim (Bool-cases (p x)) [
  | inl kept ↦
      rw kept (All-filter (λ y. after x y ≡ false) p xs below, filter-IsSorted after p xs h)
  | inr gone ↦ rw gone (filter-IsSorted after p xs h)
]

-- The order of the comparator is a relation of its own, on the elements with `P`.
module _ {ℓ κ μ} {A : Type ℓ} {after : A → A → Bool} {P : A → Type κ} (R : A → A → Type μ)
    (related : (x y : A) → P x → P y → after x y ≡ false → R x y) where
  related-All :
      (x : A) (ys : List A) → P x → All P ys → All (λ y. after x y ≡ false) ys → All (R x) ys
  related-All x [] p h k = tt
  related-All x (y ∷ ys) p (q, h) (e, k) = (related x y p q e, related-All x ys p h k)

  pub IsSorted-Pairwise : (xs : List A) → All P xs → IsSorted after xs → Pairwise R xs
  IsSorted-Pairwise [] h k = tt
  IsSorted-Pairwise (x ∷ xs) (p, h) (d, k) = (related-All x xs p h d, IsSorted-Pairwise xs h k)
