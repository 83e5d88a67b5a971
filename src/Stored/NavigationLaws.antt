-- ===== src/Stored/NavigationLaws.antt =====
-- About frontend/src/app/workspaceAgentNavigation.ts: what is remembered and forgotten.
use acp_webui.Common.{
  String, false, ◌||◌, Option, none, some, [], ◌∷◌, if◌then◌else◌, ◌≡◌, refl, sym, ap, ◌∙◌, ◌==◌,
  eq_iff, is_empty, or_else?, Bool-cases, inl, inr,
}
use acp_webui.Types.{Fields, Json, field_of}
use acp_webui.Stored.Objects.{Codec, Storage, fields_of, put, value_of}
use acp_webui.Stored.ObjectLaws.{
  HasKeysOnce, put-HasKeysOnce, read_json-set_item, value_of-absent, value_of-put,
}
use acp_webui.Stored.Navigation.{
  WorkspaceMap, map_json, is_version_one, navigation_key, normalize_fields, normalize_workspace_map,
  put_if_text, read_remembered_workspace_agent_id, read_workspace_agent_navigation, state_in,
  state_json, write_workspace_agent_navigation,
}

put_if_text-HasKeysOnce :
    (key : String) (value : Json) (map : WorkspaceMap)
    → HasKeysOnce map
    → HasKeysOnce (put_if_text key value map)
unfolding put_if_text
put_if_text-HasKeysOnce key (Json.text value) map v =
    elim (Bool-cases (is_empty key || is_empty value)) [
      | inl blank ↦ rw blank v
      | inr kept ↦ rw kept (put-HasKeysOnce key value map v)
    ]
put_if_text-HasKeysOnce key Json.null map v = v
put_if_text-HasKeysOnce key (Json.boolean b) map v = v
put_if_text-HasKeysOnce key (Json.number n) map v = v
put_if_text-HasKeysOnce key (Json.array vs) map v = v
put_if_text-HasKeysOnce key (Json.object fields) map v = v

normalize_fields-HasKeysOnce :
    (fields : Fields) (map : WorkspaceMap)
    → HasKeysOnce map
    → HasKeysOnce (normalize_fields fields map)
unfolding normalize_fields
normalize_fields-HasKeysOnce Fields.end map v = v
normalize_fields-HasKeysOnce (Fields.field key value rest) map v =
    normalize_fields-HasKeysOnce rest (put_if_text key value map)
      (put_if_text-HasKeysOnce key value map v)

normalize-HasKeysOnce : (value : Option Json) → HasKeysOnce (normalize_workspace_map value)
unfolding normalize_workspace_map
normalize-HasKeysOnce (some (Json.object fields)) = normalize_fields-HasKeysOnce fields [] tt
normalize-HasKeysOnce (some Json.null) = tt
normalize-HasKeysOnce (some (Json.boolean b)) = tt
normalize-HasKeysOnce (some (Json.number n)) = tt
normalize-HasKeysOnce (some (Json.text s)) = tt
normalize-HasKeysOnce (some (Json.array vs)) = tt
normalize-HasKeysOnce none = tt

pub state_in-HasKeysOnce :
    (value : Option Json) → HasKeysOnce (state_in value).current_agent_id_by_workspace
unfolding state_in
state_in-HasKeysOnce (some (Json.object fields)) =
    elim (Bool-cases (is_version_one (field_of "version" fields))) [
      | inl first ↦ rw first (normalize-HasKeysOnce (field_of "currentAgentIdByWorkspace" fields))
      | inr other ↦ rw other tt
    ]
state_in-HasKeysOnce (some Json.null) = tt
state_in-HasKeysOnce (some (Json.boolean b)) = tt
state_in-HasKeysOnce (some (Json.number n)) = tt
state_in-HasKeysOnce (some (Json.text s)) = tt
state_in-HasKeysOnce (some (Json.array vs)) = tt
state_in-HasKeysOnce none = tt

-- What normalizing keeps of an entry.
abbrev pub kept : String → Option String → Option String
kept key none = none
kept key (some value) = if is_empty key || is_empty value then none else some value

normalize-kept :
    (k : String) (map next : WorkspaceMap)
    → HasKeysOnce map
    → value_of k (normalize_fields (fields_of Json.text map) next)
      ≡ or_else? (kept k (value_of k map)) (value_of k next)
unfolding normalize_fields put_if_text
normalize-kept k [] next v = refl
normalize-kept k ((key, value) ∷ map) next (apart, v) =
    let after : WorkspaceMap → Option String =
      λ n. value_of k (normalize_fields (fields_of Json.text map) n) in
    let gone = value_of-absent key map apart in
    elim (Bool-cases (is_empty key || is_empty value)) [
      | inl blank ↦
          let step : put_if_text key (Json.text value) next ≡ next = rw blank refl in
          ap after step ∙ normalize-kept k map next v ∙ elim (Bool-cases (key == k)) [
            | inl same ↦ rw (same, sym ((eq_iff key k).0 same), gone) (rw blank refl)
            | inr other ↦ rw other refl
          ]
      | inr ink ↦
          let step : put_if_text key (Json.text value) next ≡ put key value next = rw ink refl in
          ap after step
          ∙ normalize-kept k map (put key value next) v
          ∙ elim (Bool-cases (key == k)) [
            | inl same ↦
                rw (value_of-put k key value next, same, sym ((eq_iff key k).0 same), gone)
                  (rw ink refl)
            | inr other ↦ rw (value_of-put k key value next, other) refl
          ]
    ]

pub kept_idem : (k : String) (o : Option String) → kept k (kept k o) ≡ kept k o
kept_idem k none = refl
kept_idem k (some value) = elim (Bool-cases (is_empty k || is_empty value)) [
  | inl blank ↦ rw blank refl
  | inr ink ↦ rw ink (rw ink refl)
]

or_else?-none : (o : Option String) → or_else? o none ≡ o
or_else?-none none = refl
or_else?-none (some value) = refl

normalized :
    (k : String) (map : WorkspaceMap)
    → HasKeysOnce map
    → value_of k (normalize_workspace_map (some (map_json map))) ≡ kept k (value_of k map)
unfolding normalize_workspace_map
normalized k map v = normalize-kept k map [] v ∙ or_else?-none (kept k (value_of k map))

written :
    (k : String) (map : WorkspaceMap)
    → HasKeysOnce map
    → value_of k (state_in (some (state_json map))).current_agent_id_by_workspace
      ≡ kept k (value_of k map)
unfolding state_in state_json field_of
written k map v =
    let inner = normalize_workspace_map (some (map_json map)) in
    normalized k inner (normalize-HasKeysOnce (some (map_json map)))
    ∙ ap (kept k) (normalized k map v)
    ∙ kept_idem k (value_of k map)

-- Reading what was written keeps the entries of which neither the workspace nor the agent is empty.
pub read-write :
    (c : Codec) (map : WorkspaceMap) (storage : Storage) (k : String)
    → HasKeysOnce map
    → c.parse (c.stringify (state_json map)) ≡ some (state_json map)
    → is_empty (c.stringify (state_json map)) ≡ false
    → read_remembered_workspace_agent_id c k (
        write_workspace_agent_navigation c (record { current_agent_id_by_workspace = map }) storage)
      ≡ kept k (value_of k map)
unfolding read_remembered_workspace_agent_id read_workspace_agent_navigation
    write_workspace_agent_navigation
read-write c map storage k v faithful ink =
    let read = read_json-set_item c navigation_key (state_json map) storage faithful ink in
    ap (λ value. value_of k (state_in value).current_agent_id_by_workspace) read ∙ written k map v
