-- ===== src/Stored/Objects.antt =====
-- Objects that are used as maps, `Storage`, and `JSON` (a parameter), as the modules that keep something
-- in the browser use them.
use acp_webui.Common.{
  String, ℕ, suc, not, Option, none, some, List, [], ◌∷◌, filter, if◌then◌else◌, is_empty, ◌==◌,
}
use acp_webui.Common.Keyed.{upsert}
use acp_webui.Common.Keyed.Laws.{at_key}
use acp_webui.Common.Text.Number.{decimal}
use acp_webui.Types.{Elements, Fields, Json}

-- `JSON.parse`, with `none` where it throws, and `JSON.stringify`.
pub record Codec : Type 0 where
  pub parse : String → Option Json
  pub stringify : Json → String

-- `localStorage`: `getItem`, with `none` for null.
abbrev pub Storage : Type 0
Storage = String → Option String

-- `storage.setItem(key, value)`
abbrev pub set_item : String → String → Storage → Storage
set_item key value storage = λ k. if key == k then some value else storage k

-- `const raw = storage.getItem(key); if (!raw) return ...; JSON.parse(raw)`: `none` where there is
-- nothing, or no JSON.
abbrev pub parse_raw : Codec → Option String → Option Json
parse_raw c none = none
parse_raw c (some raw) = if is_empty raw then none else c.parse raw

unfoldable pub read_json : Codec → String → Storage → Option Json
read_json c key storage = parse_raw c (storage key)

module _ {ℓ} {A : Type ℓ} where
  abbrev pub entry_key : String × A → String
  entry_key e = e.0

  abbrev pub value? : Option (String × A) → Option A
  value? none = none
  value? (some e) = some e.1

  -- `map[key]`
  abbrev pub value_of : String → List (String × A) → Option A
  value_of key map = value? (at_key entry_key key map)

  -- `map[key] = value`, and `{ ...map, [key]: value }`
  unfoldable pub put : String → A → List (String × A) → List (String × A)
  unfolding upsert
  put key value map = upsert entry_key (key, value) map

  -- `delete map[key]`
  abbrev pub remove : String → List (String × A) → List (String × A)
  remove key map = filter (λ e. not (entry_key e == key)) map

-- An object with the entries of a map, by what is written for a value.
module _ {ℓ} {A : Type ℓ} (write : A → Json) where
  abbrev pub fields_of : List (String × A) → Fields
  fields_of [] = Fields.end
  fields_of ((key, value) ∷ map) = Fields.field key (write value) (fields_of map)

-- `Object.entries(value)`
abbrev pub field_entries : Fields → List (String × Json)
field_entries Fields.end = []
field_entries (Fields.field key value rest) = (key, value) ∷ field_entries rest

unfoldable pub element_entries : ℕ → Elements → List (String × Json)
unfolding decimal
element_entries n Elements.nil = []
element_entries n (Elements.cons v rest) = (decimal n, v) ∷ element_entries (suc n) rest
