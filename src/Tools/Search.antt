-- ===== src/Tools/Search.antt =====
-- About frontend/src/utils/toolDisplay.ts: the search of a payload for a text under some keys.
use acp_webui.Common.{
  String, ℕ, zero, suc, Option, none, some, List, [], ◌∷◌, ◌++◌, flat_map, head?, or_else?, ◌≡◌,
  refl, sym, ◌∙◌, ap₂, is_empty, Bool-cases, inl, inr,
}
use mathlib.Core.List.{append-nil}
use acp_webui.Common.{filter}
use acp_webui.Common.Text.{trim}
use acp_webui.Common.Text.Split.{join}
use acp_webui.Types.{Json, Fields, field_of}
use acp_webui.Tools.Values.{
  at_field, candidate_text, find_string, at_value, find_string_from, first_found, has_ink, members,
  texts, nested_keys, truthy_text,
}

abbrev one : Option String → List String
one none = []
one (some s) = s ∷ []

abbrev listed_value : Option Json → List Json
listed_value none = []
listed_value (some v) = v ∷ []

-- The value of a field, as a list of none or one.
abbrev value_at : String → Fields → List Json
value_at key fields = listed_value (field_of key fields)

-- All the texts under the keys, in the order in which they are met: those of an object before those of
-- the objects in it, down to a depth.
unfoldable pub texts_under : List String → ℕ → Json → List String
texts_under keys zero v = []
texts_under keys (suc d) (Json.array vs) = flat_map (texts_under keys d) (members vs)
texts_under keys (suc d) (Json.object fields) =
    flat_map (λ key. flat_map (λ v. one (candidate_text v)) (value_at key fields)) keys
    ++ flat_map (λ key. flat_map (texts_under keys d) (value_at key fields)) nested_keys
texts_under keys (suc d) (Json.text s) = []
texts_under keys (suc d) Json.null = []
texts_under keys (suc d) (Json.boolean b) = []
texts_under keys (suc d) (Json.number n) = []

head?-append : (xs ys : List String) → head? (xs ++ ys) ≡ or_else? (head? xs) (head? ys)
head?-append [] ys = refl
head?-append (x ∷ xs) ys = refl

-- What is found is not empty.
abbrev IsFound : Option String → Type 0
IsFound o = truthy_text o ≡ o

truthy_text-IsFound : (o : Option String) → IsFound (truthy_text o)
truthy_text-IsFound none = refl
truthy_text-IsFound (some s) = elim (Bool-cases (is_empty s)) [
  | inl blank ↦ rw blank refl
  | inr ink ↦ rw ink (rw ink refl)
]

or_else?-IsFound : (o p : Option String) → IsFound o → IsFound p → IsFound (or_else? o p)
or_else?-IsFound none p h k = k
or_else?-IsFound (some s) p h k = h

module _ {ℓ} {A : Type ℓ} (f : A → Option String) where
  first_found-IsFound : (xs : List A) → IsFound (first_found f xs)
  unfolding first_found
  first_found-IsFound [] = refl
  first_found-IsFound (x ∷ xs) =
      or_else?-IsFound (truthy_text (f x)) (first_found f xs) (truthy_text-IsFound (f x))
        (first_found-IsFound xs)

  first_found-head? :
      (g : A → List String)
      → ((x : A) → truthy_text (f x) ≡ head? (g x))
      → (xs : List A) → first_found f xs ≡ head? (flat_map g xs)
  unfolding first_found
  first_found-head? g h [] = refl
  first_found-head? g h (x ∷ xs) =
      rw (head?-append (g x) (flat_map g xs), sym (h x), sym (first_found-head? g h xs)) refl

candidate_text-IsFound : (v : Json) → IsFound (candidate_text v)
unfolding candidate_text
candidate_text-IsFound (Json.text s) = truthy_text-IsFound (some (trim s))
candidate_text-IsFound (Json.array vs) =
    truthy_text-IsFound (some (join " " (filter has_ink (texts (members vs)))))
candidate_text-IsFound Json.null = refl
candidate_text-IsFound (Json.boolean b) = refl
candidate_text-IsFound (Json.number n) = refl
candidate_text-IsFound (Json.object fields) = refl

at_value-IsFound :
    (f : Json → Option String)
    → ((v : Json) → IsFound (f v))
    → (o : Option Json) → IsFound (at_value f o)
at_value-IsFound f h none = refl
at_value-IsFound f h (some v) = h v

find_string_from-IsFound :
    (keys : List String) (d : ℕ) (v : Json) → IsFound (find_string_from keys d v)
unfolding find_string_from
find_string_from-IsFound keys zero v = refl
find_string_from-IsFound keys (suc d) (Json.array vs) = first_found-IsFound _ (members vs)
find_string_from-IsFound keys (suc d) (Json.object fields) =
    or_else?-IsFound (first_found (at_field candidate_text fields) keys)
      (first_found (at_field (find_string_from keys d) fields) nested_keys)
      (first_found-IsFound (at_field candidate_text fields) keys)
      (first_found-IsFound (at_field (find_string_from keys d) fields) nested_keys)
find_string_from-IsFound keys (suc d) (Json.text s) = refl
find_string_from-IsFound keys (suc d) Json.null = refl
find_string_from-IsFound keys (suc d) (Json.boolean b) = refl
find_string_from-IsFound keys (suc d) (Json.number n) = refl

head?-one : (o : Option String) → o ≡ head? (one o)
head?-one none = refl
head?-one (some s) = refl

-- A value's text is the first of its list, if that holds of each value.
at_value-head? :
    (f : Json → Option String) (g : Json → List String)
    → ((v : Json) → IsFound (f v))
    → ((v : Json) → f v ≡ head? (g v))
    → (o : Option Json) → truthy_text (at_value f o) ≡ head? (flat_map g (listed_value o))
at_value-head? f g found h none = refl
at_value-head? f g found h (some v) = rw (append-nil (g v)) (found v ∙ h v)

find_string_from-texts_under :
    (keys : List String) (d : ℕ) (v : Json)
    → find_string_from keys d v ≡ head? (texts_under keys d v)
unfolding find_string_from texts_under at_field
find_string_from-texts_under keys zero v = refl
find_string_from-texts_under keys (suc d) (Json.array vs) =
    first_found-head? (find_string_from keys d) (texts_under keys d)
      (λ v. find_string_from-IsFound keys d v ∙ find_string_from-texts_under keys d v) (members vs)
find_string_from-texts_under keys (suc d) (Json.object fields) =
    ap₂ or_else?
      (first_found-head? (at_field candidate_text fields) _
        (λ key.
          at_value-head? candidate_text (λ v. one (candidate_text v)) candidate_text-IsFound
            (λ v. head?-one (candidate_text v)) (field_of key fields))
        keys)
      (first_found-head? (at_field (find_string_from keys d) fields) _
        (λ key.
          at_value-head? (find_string_from keys d) (texts_under keys d)
            (find_string_from-IsFound keys d) (find_string_from-texts_under keys d)
            (field_of key fields))
        nested_keys)
    ∙ sym (head?-append _ _)
find_string_from-texts_under keys (suc d) (Json.text s) = refl
find_string_from-texts_under keys (suc d) Json.null = refl
find_string_from-texts_under keys (suc d) (Json.boolean b) = refl
find_string_from-texts_under keys (suc d) (Json.number n) = refl

-- The search of a payload finds the first of all the texts that stand under the keys, at most four
-- levels deep and those of an object before those of the objects in it, and finds none exactly if
-- there is none.
pub find_string-texts_under :
    (v : Json) (keys : List String) → find_string v keys ≡ head? (texts_under keys 5 v)
unfolding find_string
find_string-texts_under v keys = find_string_from-texts_under keys 5 v
