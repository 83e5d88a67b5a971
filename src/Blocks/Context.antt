-- ===== src/Blocks/Context.antt =====
-- frontend/src/app/timelineBlocks.ts: which items are folded into others, and what a tool call takes
-- from the permission requests and the artifacts that belong to it.
use acp_webui.Common.{
  String, Bool, false, not, ◌&&◌, ◌||◌, Option, none, some, List, [], ◌∷◌, if◌then◌else◌, is_empty,
  is_space, is_some, truthy, or_else, length, nat_eq, ◌==◌, ◌<>◌,
}
use acp_webui.Common.Sets.{add, has, unique}
use acp_webui.Common.Text.{to_lower_case}
use acp_webui.Common.Text.Split.{every, has_word, is_code, is_one_of, pieces, squash}
use acp_webui.Types.{Fields, Json, PermissionItem, ReviewArtifactItem, ReviewArtifactSummary}
use acp_webui.Types.{TimelineItem, ToolCallItem}
use acp_webui.Tools.Kind.{text_or}
use acp_webui.Tools.Values.{as_record}

-- `value[key] = v` on a copy of an object
unfoldable pub set_field : String → Json → Fields → Fields
set_field key v Fields.end = Fields.field key v Fields.end
set_field key v (Fields.field k w rest) =
    if k == key then Fields.field k v rest else Fields.field k w (set_field key v rest)

-- The text of an id that is there and is not empty.
abbrev pub id_text : Option String → List String
id_text none = []
id_text (some id) = if is_empty id then [] else id ∷ []

-- Whether an id is there, is not empty and is in a set.
abbrev pub has_id? : Option String → List String → Bool
has_id? none set = false
has_id? (some id) set = not (is_empty id) && has id set

-- A map from ids to permission requests: the last one set comes first.
abbrev pub PermissionMap : Type 0
PermissionMap = List (String × PermissionItem)

abbrev pub permission_at : String → PermissionMap → Option PermissionItem
permission_at id [] = none
permission_at id ((k, item) ∷ map) = if k == id then some item else permission_at id map

abbrev set_permission : Option String → PermissionItem → PermissionMap → PermissionMap
set_permission none item map = map
set_permission (some id) item map = if is_empty id then map else (id, item) ∷ map

unfoldable pub permission_map_from : List TimelineItem → PermissionMap → PermissionMap
permission_map_from [] map = map
permission_map_from (TimelineItem.permission item ∷ timeline) map =
    permission_map_from timeline (set_permission item.tool_call_id item map)
permission_map_from (TimelineItem.message item ∷ timeline) map = permission_map_from timeline map
permission_map_from (TimelineItem.tool_call item ∷ timeline) map = permission_map_from timeline map
permission_map_from (TimelineItem.review_artifact item ∷ timeline) map =
    permission_map_from timeline map

unfoldable pub permission_map : List TimelineItem → PermissionMap
unfolding permission_map_from
permission_map timeline = permission_map_from timeline []

-- The permission request of a tool call.
abbrev pub permission_of : Option String → PermissionMap → Option PermissionItem
permission_of none map = none
permission_of (some id) map = if is_empty id then none else permission_at id map

abbrev pub input_fields : Json → Fields
unfolding as_record
input_fields input = or_else (as_record input) Fields.end

unfoldable pub with_permission : ToolCallItem → Option PermissionItem → ToolCallItem
unfolding set_field
with_permission item none = item
with_permission item (some permission) = if is_empty permission.title then item else record item {
  tool_kind = text_or permission.permission_kind item.tool_kind;
  title = permission.title;
  input = Json.object (set_field "command" (Json.text permission.title) (input_fields item.input));
}

unfoldable pub tool_call_with_permission_context : ToolCallItem → PermissionMap → ToolCallItem
unfolding with_permission
tool_call_with_permission_context item permissions =
    with_permission item (permission_of item.tool_call_id permissions)

abbrev permission_words : List String
permission_words = "permission" ∷ "approval" ∷ []

-- `/\b(permission|approval)\s+(request|requested|resolved)\b/.test(text)`
unfoldable pub tells_of_permission : List (Bool × String) → Bool
tells_of_permission [] = false
tells_of_permission ((b, word) ∷ []) = false
tells_of_permission ((b, word) ∷ (b', gap) ∷ []) = false
tells_of_permission ((b, word) ∷ (b', gap) ∷ (b'', next) ∷ ps) =
    b
      && is_one_of permission_words word
      && every is_space gap
      && is_one_of ("request" ∷ "requested" ∷ "resolved" ∷ []) next
    || tells_of_permission ((b', gap) ∷ (b'', next) ∷ ps)

unfoldable pub is_permission_bookkeeping_kind : String → Bool
unfolding squash to_lower_case has_word
is_permission_bookkeeping_kind value =
    has_word permission_words (squash (λ c. is_code b'-' c || is_code b'_' c) (to_lower_case value))

unfoldable pub should_fold_permission_tool_call : ToolCallItem → PermissionMap → Bool
unfolding is_permission_bookkeeping_kind tells_of_permission pieces to_lower_case
should_fold_permission_tool_call item permissions =
    not (is_some (permission_of item.tool_call_id permissions))
    && is_permission_bookkeeping_kind item.tool_kind
    && tells_of_permission
        (pieces (to_lower_case (item.tool_kind <> " " <> item.title <> " " <> item.summary)))

abbrev pub should_fold_permission : PermissionItem → Bool
should_fold_permission item = truthy item.tool_call_id

unfoldable pub should_fold_review_artifact :
    ReviewArtifactItem → (visible_tool_call_ids folded_artifact_ids : List String) → Bool
should_fold_review_artifact item visible folded =
    not (item.artifact_kind == "image") && (has item.id folded || has_id? item.tool_call_id visible)

abbrev pub is_id : Option String → String → Bool
is_id none id = false
is_id (some k) id = k == id

-- The ids of the artifacts that are linked to a tool call.
unfoldable pub add_linked : String → List ReviewArtifactSummary → List String → List String
unfolding add
add_linked id [] ids = ids
add_linked id (artifact ∷ artifacts) ids =
    add_linked id artifacts (if is_id artifact.tool_call_id id then add artifact.id ids else ids)

-- The ids of the artifacts of a tool call, with those that are linked to it.
unfoldable pub all_artifact_ids :
    Option String → List ReviewArtifactSummary → List String → List String
unfolding add_linked unique
all_artifact_ids none review_artifacts ids = ids
all_artifact_ids (some id) review_artifacts ids =
    let linked = add_linked id review_artifacts (unique ids) in
    if is_empty id || nat_eq (length linked) (length ids) then ids else linked

unfoldable pub with_linked_artifact_ids : ToolCallItem → List ReviewArtifactSummary → ToolCallItem
unfolding all_artifact_ids
with_linked_artifact_ids item review_artifacts = record item {
  review_artifact_ids =
      all_artifact_ids item.tool_call_id review_artifacts item.review_artifact_ids;
}
