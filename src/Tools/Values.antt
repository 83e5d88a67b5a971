-- ===== src/Tools/Values.antt =====
-- frontend/src/utils/toolDisplay.ts: what is looked up in the payload of a tool call.
use acp_webui.Common.{
  String, ℕ, zero, suc, Bool, not, Option, none, some, List, [], ◌∷◌, map, filter, flat_map,
  if◌then◌else◌, is_empty, or_else?,
}
use acp_webui.Common.Text.{trim}
use acp_webui.Common.Text.Split.{join, nonempty}
use acp_webui.Types.{Json, Elements, Fields, field_of}

abbrev pub members : Elements → List Json
members Elements.nil = []
members (Elements.cons v rest) = v ∷ members rest

-- An optional text that is not empty: the others are falsy.
abbrev pub truthy_text : Option String → Option String
truthy_text none = none
truthy_text (some s) = if is_empty s then none else some s

-- `const found = f(x); if (found) return found;` for each `x`, then `return undefined`.
unfoldable pub first_found {ℓ} : {A : Type ℓ} → (A → Option String) → List A → Option String
first_found f [] = none
first_found f (x ∷ xs) = or_else? (truthy_text (f x)) (first_found f xs)

unfoldable pub as_record : Json → Option Fields
as_record (Json.object fields) = some fields
as_record Json.null = none
as_record (Json.boolean b) = none
as_record (Json.number n) = none
as_record (Json.text s) = none
as_record (Json.array vs) = none

abbrev pub text_of : Json → Option String
text_of (Json.text s) = some s
text_of Json.null = none
text_of (Json.boolean b) = none
text_of (Json.number n) = none
text_of (Json.array vs) = none
text_of (Json.object fields) = none

-- The texts of a list of values.
abbrev pub texts : List Json → List String
texts vs = flat_map (λ v. elim (text_of v) [ none ↦ [] | some s ↦ s ∷ [] ]) vs

abbrev pub at_value : (Json → Option String) → Option Json → Option String
at_value f none = none
at_value f (some v) = f v

unfoldable pub string_field : Option Fields → String → Option String
unfolding field_of
string_field none key = none
string_field (some fields) key = at_value text_of (field_of key fields)

abbrev pub has_ink : String → Bool
unfolding trim
has_ink s = not (is_empty (trim s))

abbrev pub nested_keys : List String
nested_keys = "input" ∷ "params" ∷ "arguments" ∷ "toolCall" ∷ "data" ∷ []

-- The candidate that stands under a key of `findString`.
unfoldable pub candidate_text : Json → Option String
unfolding trim join
candidate_text (Json.text s) = truthy_text (some (trim s))
candidate_text (Json.array vs) = truthy_text (some (join " " (filter has_ink (texts (members vs)))))
candidate_text Json.null = none
candidate_text (Json.boolean b) = none
candidate_text (Json.number n) = none
candidate_text (Json.object fields) = none

unfoldable pub at_field : (Json → Option String) → Fields → String → Option String
unfolding field_of
at_field f fields key = at_value f (field_of key fields)

-- `findString(value, keys, depth)`: the last argument is 5 - depth.
unfoldable pub find_string_from : List String → ℕ → Json → Option String
unfolding first_found candidate_text at_field
find_string_from keys zero v = none
find_string_from keys (suc d) (Json.array vs) = first_found (find_string_from keys d) (members vs)
find_string_from keys (suc d) (Json.object fields) =
    or_else? (first_found (at_field candidate_text fields) keys)
      (first_found (at_field (find_string_from keys d) fields) nested_keys)
find_string_from keys (suc d) (Json.text s) = none
find_string_from keys (suc d) Json.null = none
find_string_from keys (suc d) (Json.boolean b) = none
find_string_from keys (suc d) (Json.number n) = none

unfoldable pub find_string : Json → List String → Option String
unfolding find_string_from
find_string v keys = find_string_from keys 5 v

unfoldable pub text_from_content : Option Json → Option String
unfolding trim join string_field as_record
text_from_content none = none
text_from_content (some (Json.text s)) = truthy_text (some (trim s))
text_from_content (some (Json.array vs)) = truthy_text (
    some (
      join "\n" (
        nonempty (
          map (λ part. elim (string_field (as_record part) "text") [ none ↦ "" | some s ↦ trim s ])
            (members vs)))))
text_from_content (some Json.null) = none
text_from_content (some (Json.boolean b)) = none
text_from_content (some (Json.number n)) = none
text_from_content (some (Json.object fields)) = none

-- `findContentText(value, depth)`: the first argument is 5 - depth.
unfoldable pub find_content_text_from : ℕ → Json → Option String
unfolding first_found text_from_content at_field field_of
find_content_text_from zero v = none
find_content_text_from (suc d) (Json.array vs) = first_found (find_content_text_from d) (members vs)
find_content_text_from (suc d) (Json.object fields) =
    or_else? (text_from_content (field_of "content" fields))
      (first_found (at_field (find_content_text_from d) fields) nested_keys)
find_content_text_from (suc d) (Json.text s) = none
find_content_text_from (suc d) Json.null = none
find_content_text_from (suc d) (Json.boolean b) = none
find_content_text_from (suc d) (Json.number n) = none

unfoldable pub find_content_text : Json → Option String
unfolding find_content_text_from
find_content_text v = find_content_text_from 5 v

abbrev output_keys : List String
output_keys =
    "stderr" ∷ "stdout" ∷ "error" ∷ "message" ∷ "output" ∷ "text" ∷ "content" ∷ "diff" ∷ "markdown"
    ∷ []

-- `none` is null or undefined.
unfoldable pub output_from_payload : Option Json → String
unfolding join string_field
output_from_payload none = ""
output_from_payload (some (Json.text s)) = s
output_from_payload (some (Json.object fields)) = join "\n" (
    filter has_ink (
      flat_map (λ key. elim (string_field (some fields) key) [ none ↦ [] | some s ↦ s ∷ [] ])
        output_keys))
output_from_payload (some (Json.array vs)) = ""
output_from_payload (some Json.null) = ""
output_from_payload (some (Json.boolean b)) = ""
output_from_payload (some (Json.number n)) = ""
