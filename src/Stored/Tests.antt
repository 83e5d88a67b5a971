-- ===== src/Stored/Tests.antt =====
-- What the browser keeps, at concrete inputs: `JSON` writes one value, as one text.
use acp_webui.Common.{String, true, none, some, List, [], ◌∷◌, if◌then◌else◌, ◌≡◌, refl, ◌==◌, All}
use acp_webui.Types.{AgentControl, AgentRuntimeStatus, ConnectionStatus, Fields, Json}
use acp_webui.Stored.Objects.{Codec, Storage, put, set_item, value_of}
use acp_webui.Stored.Navigation.{
  WorkspaceMap, is_available_workspace_agent, navigation_key, read_remembered_workspace_agent_id,
  read_workspace_agent_navigation, remember_workspace_agent, resolve_workspace_agent_id, state_json,
}
use acp_webui.Stored.NavigationLaws.{kept}
use acp_webui.Stored.Remembered.{read-remember_workspace_agent}
use acp_webui.Stored.Opened.{resolve-remember_workspace_agent}
use acp_webui.Stored.Profiles.{
  LastSessionProfile, profiles_json, read_last_workspace_session_profile, read_workspace_profiles,
  write_last_workspace_session_profile,
}
use acp_webui.Stored.RoundTrip.{read-write_last_workspace_session_profile}
use acp_webui.Stored.Resolve.{normalize_launch_control_values, resolve_active_create_mode_id}
use acp_webui.Stored.Controls.{allows, controls_of, normalize_launch_control_values-allows}

-- `JSON` at one value.
abbrev codec_of : Json → Codec
codec_of value = record {
  parse = λ raw. if raw == "written" then some value else none;
  stringify = λ v. "written";
}

abbrev nothing : Storage
nothing = λ key. none

abbrev one_agent : WorkspaceMap
one_agent = ("w1", "codex") ∷ []

abbrev saved_codec : Codec
saved_codec = codec_of (state_json one_agent)

abbrev saved : Storage
saved = set_item navigation_key "written" nothing

abbrev ready : ConnectionStatus
ready = record {
  state = "ready";
  message = none;
  agent_info = none;
  prompt_capabilities = none;
  session_capabilities = none;
}

abbrev model_control : AgentControl
model_control = record {
  id = "model";
  label = "Model";
  description = none;
  category = "model";
  scope = "launch";
  type = "select";
  default_value = "fast";
  options =
      record { value = "fast"; label = "Fast"; description = none; risk_level = none }
      ∷ record { value = "pro"; label = "Pro"; description = none; risk_level = none }
      ∷ [];
}

abbrev agent_named : String → AgentRuntimeStatus
agent_named id = record {
  id = id;
  provider_id = none;
  title = id;
  enabled = true;
  status = ready;
  permission_modes = [];
  launch_controls = some (model_control ∷ []);
}

abbrev agents : List AgentRuntimeStatus
agents = agent_named "claude" ∷ agent_named "codex" ∷ []

read_back : read_remembered_workspace_agent_id saved_codec "w1" saved ≡ some "codex"
unfolding read_remembered_workspace_agent_id state_json
read_back = refl

read-remember_workspace_agent_example :
    read_remembered_workspace_agent_id saved_codec "w1"
      (remember_workspace_agent saved_codec "w1" "codex" nothing).1
    ≡ kept "w1" (some "codex")
unfolding state_json read_workspace_agent_navigation put
read-remember_workspace_agent_example =
    read-remember_workspace_agent saved_codec nothing "w1" "codex" "w1" refl refl

abbrev emptied_codec : Codec
emptied_codec = codec_of (state_json [])

resolve-remember_workspace_agent_example :
    resolve_workspace_agent_id saved_codec
      (some "w1")
      agents
      (remember_workspace_agent saved_codec "w1" "codex" nothing).1
    ≡ some "codex"
unfolding state_json read_workspace_agent_navigation put is_available_workspace_agent
resolve-remember_workspace_agent_example =
    resolve-remember_workspace_agent saved_codec "w1" agents nothing (agent_named "codex") "codex"
      refl refl refl refl refl refl

abbrev used : LastSessionProfile
used = record {
  agent_id = Json.text "codex";
  permission_mode = Json.text "manual";
  launch_control_values = Json.object (Fields.field "model" (Json.text "pro") Fields.end);
}

abbrev profiles_codec : Codec
profiles_codec = codec_of (profiles_json (("w1", used) ∷ []))

read-write_last_workspace_session_profile_example :
    read_last_workspace_session_profile profiles_codec "w1"
      (write_last_workspace_session_profile profiles_codec "w1" used nothing)
    ≡ some used
unfolding read_workspace_profiles put
read-write_last_workspace_session_profile_example =
    read-write_last_workspace_session_profile profiles_codec "w1" used nothing "w1"
      (refl, refl, refl) refl refl

normalize_launch_control_values-allows_example :
    All
      (λ c.
        allows c (
          value_of c.id
            (normalize_launch_control_values (agent_named "codex") used.launch_control_values))
        ≡ true)
      (controls_of (agent_named "codex"))
normalize_launch_control_values-allows_example =
    normalize_launch_control_values-allows (agent_named "codex") used.launch_control_values (tt, tt)

manual_without_modes :
    resolve_active_create_mode_id (some (agent_named "codex")) none ≡ some "manual"
unfolding resolve_active_create_mode_id
manual_without_modes = refl
