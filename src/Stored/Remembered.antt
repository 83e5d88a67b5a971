-- ===== src/Stored/Remembered.antt =====
-- About frontend/src/app/workspaceAgentNavigation.ts: the agent that is read for a workspace after it
-- was remembered or forgotten, and the one that is opened.
use acp_webui.Common.{
  String, false, ◌||◌, Option, none, some, [], if◌then◌else◌, ◌≡◌, refl, sym, ap, ◌∙◌, ◌==◌, eq_iff,
  is_empty, Bool-cases, inl, inr,
}
use acp_webui.Types.{Fields, Json, field_of}
use acp_webui.Stored.Objects.{Codec, Storage, put, read_json, remove, value_of}
use acp_webui.Stored.ObjectLaws.{put-HasKeysOnce, remove-HasKeysOnce, value_of-put, value_of-remove}
use acp_webui.Stored.Navigation.{
  WorkspaceMap, forget_workspace_agent, is_version_one, navigation_key, normalize_fields,
  normalize_workspace_map, put_if_text, read_remembered_workspace_agent_id,
  read_workspace_agent_navigation, remember_workspace_agent, state_in, state_json,
}
use acp_webui.Stored.NavigationLaws.{kept, read-write, state_in-HasKeysOnce}

-- A map whose entries are all kept.
abbrev IsNormal : WorkspaceMap → Type 0
IsNormal map = (k : String) → kept k (value_of k map) ≡ value_of k map

put_if_text-IsNormal :
    (key : String) (value : Json) (map : WorkspaceMap)
    → IsNormal map
    → IsNormal (put_if_text key value map)
unfolding put_if_text
put_if_text-IsNormal key (Json.text value) map v k =
    elim (Bool-cases (is_empty key || is_empty value)) [
      | inl blank ↦ rw blank (v k)
      | inr ink ↦
          rw (ink, value_of-put k key value map)
            (elim (Bool-cases (key == k)) [
              | inl same ↦ rw (same, sym ((eq_iff key k).0 same)) (rw ink refl)
              | inr other ↦ rw other (v k)
            ])
    ]
put_if_text-IsNormal key Json.null map v k = v k
put_if_text-IsNormal key (Json.boolean b) map v k = v k
put_if_text-IsNormal key (Json.number n) map v k = v k
put_if_text-IsNormal key (Json.array vs) map v k = v k
put_if_text-IsNormal key (Json.object fields) map v k = v k

normalize_fields-IsNormal :
    (fields : Fields) (map : WorkspaceMap) → IsNormal map → IsNormal (normalize_fields fields map)
unfolding normalize_fields
normalize_fields-IsNormal Fields.end map v = v
normalize_fields-IsNormal (Fields.field key value rest) map v =
    normalize_fields-IsNormal rest (put_if_text key value map)
      (put_if_text-IsNormal key value map v)

normalize-IsNormal : (value : Option Json) → IsNormal (normalize_workspace_map value)
unfolding normalize_workspace_map
normalize-IsNormal (some (Json.object fields)) k = normalize_fields-IsNormal fields [] (λ k. refl) k
normalize-IsNormal (some Json.null) k = refl
normalize-IsNormal (some (Json.boolean b)) k = refl
normalize-IsNormal (some (Json.number n)) k = refl
normalize-IsNormal (some (Json.text s)) k = refl
normalize-IsNormal (some (Json.array vs)) k = refl
normalize-IsNormal none k = refl

state_in-IsNormal : (value : Option Json) → IsNormal (state_in value).current_agent_id_by_workspace
unfolding state_in
state_in-IsNormal (some (Json.object fields)) k =
    elim (Bool-cases (is_version_one (field_of "version" fields))) [
      | inl first ↦ rw first (normalize-IsNormal (field_of "currentAgentIdByWorkspace" fields) k)
      | inr other ↦ rw other refl
    ]
state_in-IsNormal (some Json.null) k = refl
state_in-IsNormal (some (Json.boolean b)) k = refl
state_in-IsNormal (some (Json.number n)) k = refl
state_in-IsNormal (some (Json.text s)) k = refl
state_in-IsNormal (some (Json.array vs)) k = refl
state_in-IsNormal none k = refl

-- The map that is read.
abbrev pub map_read : Codec → Storage → WorkspaceMap
map_read c storage = (read_workspace_agent_navigation c storage).current_agent_id_by_workspace

module _ (c : Codec) (storage : Storage) (workspace_id : String) where
  -- After an agent is remembered for a workspace it is read for that workspace, unless the
  -- workspace or the agent is an empty text, and for the others what was read before, if JSON reads
  -- the text that it wrote as the value it wrote and the text is not empty.
  pub read-remember_workspace_agent :
      (agent_id k : String)
      → c.parse (c.stringify (state_json (put workspace_id agent_id (map_read c storage))))
        ≡ some (state_json (put workspace_id agent_id (map_read c storage)))
      → is_empty (c.stringify (state_json (put workspace_id agent_id (map_read c storage)))) ≡ false
      → read_remembered_workspace_agent_id c k
          (remember_workspace_agent c workspace_id agent_id storage).1
        ≡ (if workspace_id == k
            then kept workspace_id (some agent_id)
            else read_remembered_workspace_agent_id c k storage)
  unfolding remember_workspace_agent read_workspace_agent_navigation
      read_remembered_workspace_agent_id
  read-remember_workspace_agent agent_id k faithful ink =
      let value = read_json c navigation_key storage in
      let map = (state_in value).current_agent_id_by_workspace in
      (unfold read_remembered_workspace_agent_id in
        unfold read_workspace_agent_navigation in
        read-write c (put workspace_id agent_id map) storage k
          (put-HasKeysOnce workspace_id agent_id map (state_in-HasKeysOnce value)) faithful ink)
      ∙ ap (kept k) (value_of-put k workspace_id agent_id map)
      ∙ elim (Bool-cases (workspace_id == k)) [
        | inl same ↦ rw (same, sym ((eq_iff workspace_id k).0 same)) refl
        | inr other ↦ rw other (state_in-IsNormal value k)
      ]

  -- An agent that is forgotten is not read for its workspace, and the others stay.
  pub read-forget_workspace_agent :
      (k : String)
      → c.parse (c.stringify (state_json (remove workspace_id (map_read c storage))))
        ≡ some (state_json (remove workspace_id (map_read c storage)))
      → is_empty (c.stringify (state_json (remove workspace_id (map_read c storage)))) ≡ false
      → read_remembered_workspace_agent_id c k (forget_workspace_agent c workspace_id storage).1
        ≡ (if workspace_id == k then none else read_remembered_workspace_agent_id c k storage)
  unfolding forget_workspace_agent read_workspace_agent_navigation
      read_remembered_workspace_agent_id
  read-forget_workspace_agent k faithful ink =
      let value = read_json c navigation_key storage in
      let map = (state_in value).current_agent_id_by_workspace in
      (unfold read_remembered_workspace_agent_id in
        unfold read_workspace_agent_navigation in
        read-write c (remove workspace_id map) storage k
          (remove-HasKeysOnce workspace_id map (state_in-HasKeysOnce value)) faithful ink)
      ∙ ap (kept k) (value_of-remove k workspace_id map)
      ∙ elim (Bool-cases (workspace_id == k)) [
        | inl same ↦ rw same refl
        | inr other ↦ rw other (state_in-IsNormal value k)
      ]
