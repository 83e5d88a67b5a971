-- ===== src/App/Agents.antt =====
-- frontend/src/App.tsx, updateAgentStatus, with fallbackPermissionModes of
-- frontend/src/utils/permissionMode.ts.
use acp_webui.Common.{
  Option, none, some, List, [], ◌∷◌, ◌++◌, map, String, ◌==◌, true, find, is_empty, or_else,
  if◌then◌else◌,
}
use acp_webui.Types.{
  AgentPermissionModeStatus, AgentRuntimeStatus, ConnectionStatus, PermissionModeId,
}

abbrev pub manual_mode : ConnectionStatus → AgentPermissionModeStatus
manual_mode now = record {
  id = "manual";
  label = "Manual";
  description = "Ask before approval-managed actions";
  risk_level = "low";
  status = now;
}

unfoldable pub fallback_permission_modes : AgentRuntimeStatus → List AgentPermissionModeStatus
fallback_permission_modes agent = elim agent.permission_modes [
  | [] ↦ manual_mode agent.status ∷ []
  | mode ∷ modes ↦ mode ∷ modes
]

-- The mode of an agent that is not known yet. An absent mode is neither of the two that are named.
unfoldable pub fallback_mode :
    Option PermissionModeId → ConnectionStatus → AgentPermissionModeStatus
fallback_mode mode now =
    let named = or_else mode "" in
    record {
      id = or_else mode "manual";
      label =
          if named == "yolo"
          then "YOLO"
          else if named == "full_auto"
          then "Full auto"
          else "Manual";
      description =
          if named == "yolo"
          then "No approvals / no sandbox"
          else if named == "full_auto"
          then "Sandboxed automatic execution"
          else "Ask before approval-managed actions";
      risk_level =
          if named == "yolo" then "high" else if named == "full_auto" then "medium" else "low";
      status = now;
    }

-- The known agent, with the status of the mode. An empty mode is as an absent one.
unfoldable pub changed_agent :
    ConnectionStatus → Option PermissionModeId → AgentRuntimeStatus → AgentRuntimeStatus
unfolding fallback_permission_modes
changed_agent now none agent = record agent { status = now }
changed_agent now (some mode) agent =
    if is_empty mode then record agent { status = now } else record agent {
      status = if mode == "manual" then now else agent.status;
      permission_modes =
          map (λ m. if m.id == mode then record m { status = now } else m)
            (fallback_permission_modes agent);
    }

unfoldable pub update_agent_status :
    List AgentRuntimeStatus
    → String
    → ConnectionStatus
    → Option PermissionModeId
    → List AgentRuntimeStatus
unfolding fallback_mode changed_agent
update_agent_status agents id now mode = elim (find (λ agent. agent.id == id) agents) [
  | none ↦
      agents
      ++ record {
        id = id;
        provider_id = none;
        title = id;
        enabled = true;
        status = now;
        permission_modes = fallback_mode mode now ∷ [];
        launch_controls = some [];
      }
        ∷ []
  | some _ ↦ map (λ agent. if agent.id == id then changed_agent now mode agent else agent) agents
]
