-- ===== src/Common/Sets/Laws.antt =====
-- Laws of a set of texts: its members, and that none stands twice.
use acp_webui.Common.Tests.{Bool-cases, if◌then◌else◌}
use acp_webui.Common.Lists.{All, All-append}
use acp_webui.Common.Keyed.Laws.{HasDistinctKeys}
use acp_webui.Common.Sets.{add, add_all, has, unique}
use Prim.Native.String.{String}
use mathlib.Core.Path.{◌≡◌, sym, refl, ◌∙◌}
use mathlib.Core.Logic.{◌≢◌, inl, inr}
use mathlib.Core.Bool.{Bool, true, false, ◌||◌}
use mathlib.Core.List.{List, [], ◌∷◌, ◌++◌, append-nil, append_assoc}
use native.Mathlib.Omega.{arith}
use text.Mathlib.Text.{◌==◌}
use text.Mathlib.TextEquality.{eq_iff}

-- No text twice.
abbrev pub HasNoRepeats : List String → Type 0
HasNoRepeats ids = HasDistinctKeys (λ i. i) ids

has-append : (k id : String) (ids : List String) → has k (ids ++ id ∷ []) ≡ (has k ids || id == k)
has-append k id [] = ground arith
has-append k id (i ∷ ids) = ground (arith, has-append k id ids)

pub has-add : (k id : String) (ids : List String) → has k (add id ids) ≡ (has k ids || id == k)
unfolding add
has-add k id ids = elim (Bool-cases (has id ids)) [
  | inr new ↦ rw new (has-append k id ids)
  | inl old ↦ rw old (absorbed ids old)
]
  where
    absorbed : (ids : List String) → has id ids ≡ true → has k ids ≡ (has k ids || id == k)
    absorbed [] h = cc
    absorbed (i ∷ ids) h = ground (arith, absorbed ids, eq_iff i id, eq_iff i k, eq_iff id k)

append-HasNoRepeats :
    (id : String) (ids : List String)
    → has id ids ≡ false
    → HasNoRepeats ids
    → HasNoRepeats (ids ++ id ∷ [])
append-HasNoRepeats id [] h v = (tt, tt)
append-HasNoRepeats id (i ∷ ids) h (apart, v) = (
  All-append (λ y. y ≢ i) ids (id ∷ []) apart ((λ e. ground (arith, eq_iff i id, sym e)), tt),
  append-HasNoRepeats id ids (ground arith) v,
)

pub add-HasNoRepeats :
    (id : String) (ids : List String) → HasNoRepeats ids → HasNoRepeats (add id ids)
unfolding add
add-HasNoRepeats id ids v = elim (Bool-cases (has id ids)) [
  | inl old ↦ rw old v
  | inr new ↦ rw new (append-HasNoRepeats id ids new v)
]

pub add_if-HasNoRepeats :
    (b : Bool) (id : String) (ids : List String)
    → HasNoRepeats ids
    → HasNoRepeats (if b then add id ids else ids)
add_if-HasNoRepeats true id ids v = add-HasNoRepeats id ids v
add_if-HasNoRepeats false id ids v = v

has-add_all : (k : String) (xs set : List String) → has k (add_all xs set) ≡ (has k set || has k xs)
unfolding add_all
has-add_all k [] set = ground arith
has-add_all k (x ∷ xs) set = has-add_all k xs (add x set) ∙ ground (arith, has-add k x set)

add_all-HasNoRepeats : (xs set : List String) → HasNoRepeats set → HasNoRepeats (add_all xs set)
unfolding add_all
add_all-HasNoRepeats [] set v = v
add_all-HasNoRepeats (x ∷ xs) set v = add_all-HasNoRepeats xs (add x set) (add-HasNoRepeats x set v)

pub has-unique : (k : String) (xs : List String) → has k (unique xs) ≡ has k xs
unfolding unique
has-unique k xs = has-add_all k xs []

pub unique-HasNoRepeats : (xs : List String) → HasNoRepeats (unique xs)
unfolding unique
unique-HasNoRepeats xs = add_all-HasNoRepeats xs [] tt

add_all-fresh :
    (xs set : List String)
    → All (λ x. has x set ≡ false) xs
    → HasNoRepeats xs
    → add_all xs set ≡ set ++ xs
unfolding add_all add
add_all-fresh [] set h v = sym (append-nil set)
add_all-fresh (x ∷ xs) set (new, h) (apart, v) =
    rw new (add_all-fresh xs (set ++ x ∷ []) (still xs h apart) v) ∙ append_assoc set (x ∷ []) xs
  where
    still :
        (ys : List String)
        → All (λ y. has y set ≡ false) ys
        → All (λ y. y ≢ x) ys
        → All (λ y. has y (set ++ x ∷ []) ≡ false) ys
    still [] h a = tt
    still (y ∷ ys) (p, h) (q, a) =
        (has-append y x set ∙ ground (arith, p, q, eq_iff x y), still ys h a)

-- A list without repetitions is its own set.
pub unique_lem : (xs : List String) → HasNoRepeats xs → unique xs ≡ xs
unfolding unique
unique_lem xs v = add_all-fresh xs [] (none_yet xs) v
  where
    none_yet : (ys : List String) → All (λ y. has y [] ≡ false) ys
    none_yet [] = tt
    none_yet (y ∷ ys) = (refl, none_yet ys)
