-- ===== src/Stored/Resolve.antt =====
-- frontend/src/app/lastSessionProfile.ts: what a stored profile means for the agents that there are;
-- and frontend/src/features/sessions/sessionCreateMode.ts: the permission mode of a new session.
use acp_webui.Common.{
  String, Bool, false, not, ◌&&◌, Option, none, some, List, [], ◌∷◌, find, head?, if◌then◌else◌,
  is_empty, or_else, or_else?, ◌==◌,
}
use acp_webui.Types.{
  AgentControl, AgentControlValue, AgentPermissionModeStatus, AgentRuntimeStatus, Json,
  PermissionModeId, field_of,
}
use acp_webui.App.Agents.{fallback_permission_modes}
use acp_webui.Stored.Objects.{put}
use acp_webui.Stored.Profiles.{LastSessionProfile}

pub record ResolvedLastSessionProfile : Type 0 where
  pub profile : LastSessionProfile
  pub agent : AgentRuntimeStatus
  pub launch_control_values : List (String × String)
  pub mode_label : String

unfoldable pub is_launchable : AgentRuntimeStatus → String → Bool
is_launchable agent state = agent.enabled && not (state == "starting") && not (state == "disabled")

-- `text === value`, for a value that may not be a text
abbrev pub equals : Option Json → String → Bool
equals (some (Json.text s)) t = t == s
equals (some Json.null) t = false
equals (some (Json.boolean b)) t = false
equals (some (Json.number n)) t = false
equals (some (Json.array vs)) t = false
equals (some (Json.object fields)) t = false
equals none t = false

-- `values[id]`; the elements of an array are under other keys than the ids of controls.
unfoldable pub stored_value : Json → String → Option Json
unfolding field_of
stored_value (Json.object fields) id = field_of id fields
stored_value Json.null id = none
stored_value (Json.boolean b) id = none
stored_value (Json.number n) id = none
stored_value (Json.text s) id = none
stored_value (Json.array vs) id = none

abbrev pub value_or : String → Option AgentControlValue → String
value_or default none = default
value_or default (some option) = option.value

-- The value of a control with which a stored value leaves it.
abbrev pub chosen : List AgentControlValue → String → Option Json → String
chosen options default stored = value_or default (find (λ item. equals stored item.value) options)

unfoldable pub control_value : AgentControl → Json → String
unfolding stored_value
control_value control values =
    chosen control.options control.default_value (stored_value values control.id)

-- The loop over the controls.
unfoldable pub control_values :
    List AgentControl → Json → List (String × String) → List (String × String)
unfolding control_value put
control_values [] values next = next
control_values (control ∷ controls) values next =
    control_values controls values (put control.id (control_value control values) next)

unfoldable pub normalize_launch_control_values : AgentRuntimeStatus → Json → List (String × String)
unfolding control_values
normalize_launch_control_values agent values =
    control_values (or_else agent.launch_controls []) values []

-- The mode of a profile that can be launched.
unfoldable launchable_mode :
    AgentRuntimeStatus → Option AgentPermissionModeStatus → Option AgentPermissionModeStatus
unfolding is_launchable
launchable_mode agent none = none
launchable_mode agent (some mode) =
    if is_launchable agent mode.status.state then some mode else none

unfoldable pub resolve_last_session_profile :
    List AgentRuntimeStatus → Option LastSessionProfile → Option ResolvedLastSessionProfile
unfolding fallback_permission_modes launchable_mode normalize_launch_control_values
resolve_last_session_profile agents none = none
resolve_last_session_profile agents (some profile) =
    elim (find (λ item. equals (some profile.agent_id) item.id) agents) [
      | none ↦ none
      | some agent ↦
          elim (launchable_mode agent (
            find (λ item. equals (some profile.permission_mode) item.id)
              (fallback_permission_modes agent))) [
                | none ↦ none
                | some mode ↦ some (record {
                  profile = profile;
                  agent = agent;
                  launch_control_values =
                      normalize_launch_control_values agent profile.launch_control_values;
                  mode_label = mode.label;
                })
              ]
    ]

unfoldable pub can_launch_permission_mode : AgentRuntimeStatus → AgentPermissionModeStatus → Bool
can_launch_permission_mode agent mode =
    agent.enabled && not (mode.status.state == "starting") && not (mode.status.state == "disabled")

abbrev pub mode_id? : Option AgentPermissionModeStatus → Option PermissionModeId
mode_id? none = none
mode_id? (some mode) = some mode.id

-- The selected mode, if there is one and it can be launched.
unfoldable pub selected_mode :
    AgentRuntimeStatus → Option PermissionModeId → Option AgentPermissionModeStatus
unfolding fallback_permission_modes can_launch_permission_mode
selected_mode agent none = none
selected_mode agent (some id) =
    if is_empty id
    then none
    else elim (find (λ mode. mode.id == id) (fallback_permission_modes agent)) [
      | none ↦ none
      | some mode ↦ if can_launch_permission_mode agent mode then some mode else none
    ]

unfoldable pub resolve_active_create_mode_id :
    Option AgentRuntimeStatus → Option PermissionModeId → Option PermissionModeId
unfolding selected_mode fallback_permission_modes can_launch_permission_mode
resolve_active_create_mode_id none selected = none
resolve_active_create_mode_id (some agent) selected =
    let modes = fallback_permission_modes agent in
    or_else? (mode_id? (selected_mode agent selected))
      (or_else? (mode_id? (find (can_launch_permission_mode agent) modes)) (mode_id? (head? modes)))
