-- ===== src/Pages/Config.antt =====
-- frontend/src/app/sessionConfig.ts: the options of a session's configuration.
use acp_webui.Common.{
  String, Bool, false, not, ◌&&◌, ◌||◌, Option, none, some, List, [], ◌∷◌, find, filter, flat_map,
  if◌then◌else◌, is_empty, is_some, length, ltb, truthy, or_else, or_else?, ◌==◌, ◌<>◌,
}
use acp_webui.Types.{
  ConnectionStatus, SessionConfigOption, SessionConfigSelectOption, SessionConfigSelectValue,
  SessionDetail,
}

abbrev is_text : Option String → String → Bool
is_text none t = false
is_text (some s) t = s == t

-- `isSelectOption`
unfoldable pub is_select_option : SessionConfigOption → Bool
is_select_option option =
    option.type == "select"
    && truthy option.current_value
    && ltb 0 (length (or_else option.options []))

unfoldable pub model_config_option : Option (List SessionConfigOption) → Option SessionConfigOption
unfolding is_select_option
model_config_option config_options =
    let options = or_else config_options [] in
    or_else? (find (λ option. is_select_option option && is_text option.category "model") options)
      (find (λ option. is_select_option option && option.id == "model") options)

abbrev values_in : SessionConfigSelectOption → List SessionConfigSelectValue
values_in (SessionConfigSelectOption.value_option value) = value ∷ []
values_in (SessionConfigSelectOption.group_option group) = group.options

unfoldable pub select_values : Option SessionConfigOption → List SessionConfigSelectValue
select_values none = []
select_values (some option) = flat_map values_in (or_else option.options [])

unfoldable pub session_config_select_options :
    Option (List SessionConfigOption) → List SessionConfigOption
unfolding select_values
session_config_select_options config_options =
    filter (λ option. ltb 0 (length (select_values (some option)))) (or_else config_options [])

abbrev name_or : String → Option SessionConfigSelectValue → String
name_or value none = value
name_or value (some item) = item.name

unfoldable pub current_model_label : Option SessionConfigOption → Option String
unfolding select_values
current_model_label none = none
current_model_label (some option) =
    let value = or_else option.current_value "" in
    if is_empty value
    then none
    else some (name_or value (find (λ item. item.value == value) (select_values (some option))))

-- What the connection of the agent says against a change.
unfoldable pub connection_reason : SessionDetail → Option ConnectionStatus → Option String
connection_reason d none = none
connection_reason d (some connection) =
    if connection.state == "ready"
    then none
    else some
        (or_else connection.message (d.session.agent_name <> " is " <> connection.state <> "."))

unfoldable pub session_config_disabled_reason :
    SessionDetail → Option ConnectionStatus → Option String
unfolding connection_reason
session_config_disabled_reason d connection =
    if d.session.status == "running"
    then some "Configuration changes are disabled while the session is running."
    else if d.session.status == "waiting_approval" || is_some d.pending_permission
    then some "Resolve the pending approval before changing configuration."
    else if not d.continuable
    then some (
        or_else d.view_only_reason
          (or_else d.continuity.reason "Restore this session before changing configuration."))
    else connection_reason d connection
