-- ===== src/Pages/Labels.antt =====
-- frontend/src/utils/permissionMode.ts, frontend/src/utils/sessionStatus.ts, frontend/src/utils/format.ts
-- and frontend/src/app/sessionCreationRoutes.ts: labels and the targets of routes.
use acp_webui.Common.{
  String, ℕ, ◌-◌, ◌/◌, Bool, true, false, ◌||◌, Option, none, some, List, [], ◌∷◌, find,
  if◌then◌else◌, is_empty, ltb, or_else, ◌==◌, ◌<>◌,
}
use acp_webui.Common.Host.{Host}
use acp_webui.Common.Text.{capital, to_lower_case, trim}
use acp_webui.Common.Text.Number.{decimal}
use acp_webui.Common.Text.Split.{is_code, squash}
use acp_webui.Types.{
  AgentPermissionModeStatus, AgentRuntimeStatus, ConnectionStatus, PermissionModeId, Session,
  SessionDetail,
}
use acp_webui.App.Agents.{fallback_permission_modes}

unfoldable pub fallback_permission_mode_label : PermissionModeId → String
fallback_permission_mode_label mode =
    if mode == "manual"
    then "Manual"
    else if mode == "full_auto"
    then "Full auto"
    else if mode == "yolo"
    then "YOLO"
    else mode

unfoldable pub fallback_permission_mode_description : PermissionModeId → String
fallback_permission_mode_description mode =
    if mode == "manual"
    then "Ask before approval-managed actions"
    else if mode == "full_auto"
    then "Sandboxed automatic execution"
    else if mode == "yolo"
    then "No approvals / no sandbox"
    else "Agent-provided permission mode"

abbrev mode_at :
    PermissionModeId → List AgentPermissionModeStatus → Option AgentPermissionModeStatus
mode_at mode modes = find (λ item. item.id == mode) modes

unfoldable pub permission_mode_label : PermissionModeId → List AgentPermissionModeStatus → String
unfolding fallback_permission_mode_label
permission_mode_label mode modes = elim (mode_at mode modes) [
  | none ↦ fallback_permission_mode_label mode
  | some item ↦ item.label
]

unfoldable pub permission_mode_description :
    PermissionModeId → List AgentPermissionModeStatus → String
unfolding fallback_permission_mode_description
permission_mode_description mode modes = elim (mode_at mode modes) [
  | none ↦ fallback_permission_mode_description mode
  | some item ↦ item.description
]

-- `mode.replace(/_/g, "-")`
unfoldable pub dashed : String → String
dashed String.[] = ""
dashed (String.◌∷◌ c s) =
    let rest = dashed s in if is_code b'_' c then "-" <> rest else String.◌∷◌ c rest

unfoldable pub permission_mode_class : PermissionModeId → String
unfolding dashed
permission_mode_class mode = "permission-mode-" <> dashed mode

unfoldable pub is_yolo_session : Session → Bool
is_yolo_session session = session.permission_mode == "yolo"

unfoldable pub connection_status_for_mode :
    AgentRuntimeStatus → PermissionModeId → ConnectionStatus → ConnectionStatus
unfolding fallback_permission_modes
connection_status_for_mode agent mode fallback =
    elim (mode_at mode (fallback_permission_modes agent)) [
      | none ↦ fallback
      | some item ↦ item.status
    ]

unfoldable pub humanize_status : String → String
unfolding squash trim capital
humanize_status status =
    let text = trim (squash (λ c. is_code b'_' c || is_code b'-' c) status) in
    if is_empty text then "Unknown" else capital text

unfoldable pub session_status_label : String → String
unfolding to_lower_case humanize_status
session_status_label status =
    let lower = to_lower_case status in
    if lower == "idle"
    then "Ready"
    else if lower == "running"
    then "Working"
    else if lower == "waiting_approval"
    then "Waiting approval"
    else if lower == "stopping"
    then "Stopping"
    else if lower == "stopped"
    then "Stopped"
    else if lower == "failed"
    then "Failed"
    else humanize_status status

-- The second argument is `Date.now()`, counted as the times of the host are. A difference below 0
-- counts as 0.
unfoldable pub format_relative_time : Host → ℕ → String → String
unfolding decimal
format_relative_time h now value = elim (h.parse_date value) [
  | none ↦ value
  | some timestamp ↦
      let seconds = (now - timestamp) / 1000 in
      let minutes = seconds / 60 in
      let hours = minutes / 60 in
      if ltb seconds 60
      then "just now"
      else if ltb minutes 60
      then decimal minutes <> "m ago"
      else if ltb hours 24
      then decimal hours <> "h ago"
      else decimal (hours / 24) <> "d ago"
]

-- A route and its parameters.
pub record RouteTarget : Type 0 where
  pub to : String
  pub params : List (String × String)
  pub replace : Bool

unfoldable pub create_session_creating_route_target : String → Option String → RouteTarget
create_session_creating_route_target workspace_id agent_id =
    let agent = or_else agent_id "" in
    if is_empty agent
    then record {
      to = "/workspaces/$workspaceId/sessions/new";
      params = ("workspaceId", workspace_id) ∷ [];
      replace = false;
    }
    else record {
      to = "/workspaces/$workspaceId/agents/$agentId/sessions/new";
      params = ("workspaceId", workspace_id) ∷ ("agentId", agent) ∷ [];
      replace = false;
    }

unfoldable pub create_session_detail_route_target : SessionDetail → RouteTarget
create_session_detail_route_target d = record {
  to = "/workspaces/$workspaceId/sessions/$sessionId";
  params = ("workspaceId", d.workspace.id) ∷ ("sessionId", d.session.id) ∷ [];
  replace = true;
}
