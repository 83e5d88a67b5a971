-- ===== src/Stored/Navigation.antt =====
-- frontend/src/app/workspaceAgentNavigation.ts: the agent that was last open in each workspace.
use acp_webui.Common.{
  String, Bool, false, not, ◌&&◌, ◌||◌, Option, none, some, List, [], find, if◌then◌else◌, is_empty,
  ◌==◌,
}
use acp_webui.Types.{AgentRuntimeStatus, Fields, Json, field_of}
use acp_webui.Stored.Objects.{Codec, Storage, fields_of, put, read_json, remove, set_item, value_of}

abbrev pub navigation_key : String
navigation_key = "workspaceAgentNavigation"

abbrev pub WorkspaceMap : Type 0
WorkspaceMap = List (String × String)

-- The state's `version` is always 1.
pub record WorkspaceAgentNavigationState : Type 0 where
  pub current_agent_id_by_workspace : WorkspaceMap

unfoldable pub empty_state : WorkspaceAgentNavigationState
empty_state = record { current_agent_id_by_workspace = [] }

-- `if (workspaceId && typeof agentId === "string" && agentId) next[workspaceId] = agentId`
unfoldable pub put_if_text : String → Json → WorkspaceMap → WorkspaceMap
unfolding put
put_if_text key (Json.text value) next =
    if is_empty key || is_empty value then next else put key value next
put_if_text key Json.null next = next
put_if_text key (Json.boolean b) next = next
put_if_text key (Json.number n) next = next
put_if_text key (Json.array vs) next = next
put_if_text key (Json.object fields) next = next

unfoldable pub normalize_fields : Fields → WorkspaceMap → WorkspaceMap
unfolding put_if_text
normalize_fields Fields.end next = next
normalize_fields (Fields.field key value rest) next =
    normalize_fields rest (put_if_text key value next)

-- `none` is undefined
unfoldable pub normalize_workspace_map : Option Json → WorkspaceMap
unfolding normalize_fields
normalize_workspace_map (some (Json.object fields)) = normalize_fields fields []
normalize_workspace_map (some Json.null) = []
normalize_workspace_map (some (Json.boolean b)) = []
normalize_workspace_map (some (Json.number n)) = []
normalize_workspace_map (some (Json.text s)) = []
normalize_workspace_map (some (Json.array vs)) = []
normalize_workspace_map none = []

abbrev pub is_version_one : Option Json → Bool
is_version_one (some (Json.number n)) = n == "1"
is_version_one (some Json.null) = false
is_version_one (some (Json.boolean b)) = false
is_version_one (some (Json.text s)) = false
is_version_one (some (Json.array vs)) = false
is_version_one (some (Json.object fields)) = false
is_version_one none = false

-- The state in a value, if it is one.
unfoldable pub state_in : Option Json → WorkspaceAgentNavigationState
unfolding field_of normalize_workspace_map empty_state
state_in (some (Json.object fields)) =
    if is_version_one (field_of "version" fields)
    then record {
      current_agent_id_by_workspace =
          normalize_workspace_map (field_of "currentAgentIdByWorkspace" fields);
    }
    else empty_state
state_in (some Json.null) = empty_state
state_in (some (Json.boolean b)) = empty_state
state_in (some (Json.number n)) = empty_state
state_in (some (Json.text s)) = empty_state
state_in (some (Json.array vs)) = empty_state
state_in none = empty_state

unfoldable pub read_workspace_agent_navigation : Codec → Storage → WorkspaceAgentNavigationState
unfolding read_json state_in
read_workspace_agent_navigation c storage = state_in (read_json c navigation_key storage)

abbrev pub map_json : WorkspaceMap → Json
map_json map = Json.object (fields_of Json.text map)

-- What is written for a map.
unfoldable pub state_json : WorkspaceMap → Json
unfolding normalize_workspace_map
state_json map = Json.object (
    Fields.field "version" (Json.number "1") (
      Fields.field "currentAgentIdByWorkspace"
        (map_json (normalize_workspace_map (some (map_json map)))) Fields.end))

unfoldable pub write_workspace_agent_navigation :
    Codec → WorkspaceAgentNavigationState → Storage → Storage
unfolding state_json
write_workspace_agent_navigation c state storage =
    set_item navigation_key (c.stringify (state_json state.current_agent_id_by_workspace)) storage

unfoldable pub read_remembered_workspace_agent_id : Codec → String → Storage → Option String
unfolding read_workspace_agent_navigation
read_remembered_workspace_agent_id c workspace_id storage =
    value_of workspace_id (read_workspace_agent_navigation c storage).current_agent_id_by_workspace

unfoldable pub remember_workspace_agent :
    Codec → (workspace_id agent_id : String) → Storage → WorkspaceAgentNavigationState × Storage
unfolding read_workspace_agent_navigation write_workspace_agent_navigation put
remember_workspace_agent c workspace_id agent_id storage =
    let state = read_workspace_agent_navigation c storage in
    let next : WorkspaceAgentNavigationState = record {
      current_agent_id_by_workspace = put workspace_id agent_id state.current_agent_id_by_workspace;
    } in
    (next, write_workspace_agent_navigation c next storage)

unfoldable pub forget_workspace_agent :
    Codec → (workspace_id : String) → Storage → WorkspaceAgentNavigationState × Storage
unfolding read_workspace_agent_navigation write_workspace_agent_navigation
forget_workspace_agent c workspace_id storage =
    let state = read_workspace_agent_navigation c storage in
    let next : WorkspaceAgentNavigationState = record {
      current_agent_id_by_workspace = remove workspace_id state.current_agent_id_by_workspace;
    } in
    (next, write_workspace_agent_navigation c next storage)

unfoldable pub is_available_workspace_agent : AgentRuntimeStatus → Bool
is_available_workspace_agent agent = agent.enabled && not (agent.status.state == "disabled")

abbrev pub id_of : Option AgentRuntimeStatus → Option String
id_of none = none
id_of (some agent) = some agent.id

unfoldable pub if_available : Option AgentRuntimeStatus → Option AgentRuntimeStatus
unfolding is_available_workspace_agent
if_available none = none
if_available (some agent) = if is_available_workspace_agent agent then some agent else none

-- The agent with a remembered id, if it is there and available.
unfoldable pub remembered_agent :
    Option String → List AgentRuntimeStatus → Option AgentRuntimeStatus
unfolding if_available
remembered_agent none agents = none
remembered_agent (some id) agents =
    if is_empty id then none else if_available (find (λ agent. agent.id == id) agents)

unfoldable pub or_first_available :
    Option AgentRuntimeStatus → List AgentRuntimeStatus → Option String
unfolding is_available_workspace_agent
or_first_available (some agent) agents = some agent.id
or_first_available none agents = id_of (find is_available_workspace_agent agents)

-- `none` is a workspace that is null.
unfoldable pub resolve_workspace_agent_id :
    Codec → Option String → List AgentRuntimeStatus → Storage → Option String
unfolding remembered_agent or_first_available read_remembered_workspace_agent_id
resolve_workspace_agent_id c none agents storage = none
resolve_workspace_agent_id c (some workspace_id) agents storage =
    if is_empty workspace_id
    then none
    else or_first_available
        (remembered_agent (read_remembered_workspace_agent_id c workspace_id storage) agents) agents

-- `workspaceSessionsRouteTarget`: the route and the parameter `workspaceId`
unfoldable pub workspace_sessions_route_target : String → String × String
workspace_sessions_route_target workspace_id = ("/workspaces/$workspaceId/sessions", workspace_id)
