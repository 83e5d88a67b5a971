-- ===== src/App/Steps.antt =====
-- The page over time: the messages, responses and actions of frontend/src/App.tsx that change the list of
-- sessions, the inbox or the session that is open, as steps, and sequences of steps.
use acp_webui.Common.{Option, List, [], ◌∷◌, String, ℕ}
use acp_webui.Common.Host.{Host, Clock}
use acp_webui.Types.{
  AuthStatus, PermissionModeId, PermissionRequest, RealtimeEvent, SessionConfigOption,
  SessionCurrentModel, SessionDetail, SessionListItem, Workspace,
}
use acp_webui.App.State.{UiState, clear_sensitive_state}
use acp_webui.App.Details.{
  remove_session_from_state, remove_workspace_from_state, replace_session_in_state,
  replace_workspace_in_state,
}
use acp_webui.App.Initial.{Initial, load_initial_state}
use acp_webui.App.Recovery.{
  ProjectionRecoveryToken, Recovered, SessionListLoadToken, recover_projections,
  session_list_loaded,
}
use acp_webui.App.Messages.{on_message}
use acp_webui.App.Actions.{
  PromptResponse, approval_cancelled, creating_session, permission_answered, prompt_answered,
  prompt_failed, prompt_reconciled, prompt_submitted, session_config_option_set, session_created,
  session_loaded, session_restored, workspace_created,
}
use acp_webui.Refresh.{ScopedSessionListRefreshState, ScopedSessionListRefreshToken}
use acp_webui.App.Recovery.{scoped_list_refreshed}

-- A step of the page, with what it brings.
pub data Action : Type 0 where
  initially_loaded : (auth : AuthStatus) (r : Initial) → Action
  message : (c c' : Clock) (m : RealtimeEvent) → Action
  signed_out : (auth : Option AuthStatus) → Action
  recovered : (token : ProjectionRecoveryToken) (generation : ℕ) (r : Recovered) → Action
  list_loaded :
      (token : SessionListLoadToken) (latest : ℕ) (sessions : List SessionListItem) → Action
  list_refreshed :
      (token : ScopedSessionListRefreshToken) (refresh : ScopedSessionListRefreshState)
      (sessions : List SessionListItem)
      → Action
  loaded : (d : SessionDetail) → Action
  restored : (d : SessionDetail) → Action
  creating : (workspace : String) (agent : Option String) (mode : Option PermissionModeId) → Action
  created : (d : SessionDetail) → Action
  workspace_updated : (workspace : Workspace) → Action
  workspace_removed : (id : String) → Action
  new_workspace : (workspace : Workspace) → Action
  submitted : (c : Clock) (id previous : String) → Action
  failed : (c : Clock) (id previous : String) → Action
  reconciled : (id : String) (d : SessionDetail) → Action
  answered : (id : String) (r : PromptResponse) → Action
  option_set :
      (id : String) (options : Option (List SessionConfigOption))
      (model : Option SessionCurrentModel)
      → Action
  permitted : (c : Clock) (p : PermissionRequest) → Action
  cancelled : (id : String) (d : SessionDetail) → Action
  replaced : (d : SessionDetail) → Action
  removed : (id : String) → Action

unfoldable pub perform : Host → UiState → Action → UiState
perform h s (initially_loaded auth r) = load_initial_state s auth r
perform h s (message c c' m) = on_message h c c' s m
perform h s (signed_out auth) = clear_sensitive_state s auth
perform h s (recovered token generation r) = recover_projections h token generation s r
perform h s (list_loaded token latest sessions) = session_list_loaded token latest s sessions
perform h s (list_refreshed token refresh sessions) = scoped_list_refreshed token refresh s sessions
perform h s (loaded d) = session_loaded s d
perform h s (restored d) = session_restored h s d
perform h s (creating workspace agent mode) = creating_session s workspace agent mode
perform h s (created d) = session_created h s d
perform h s (workspace_updated workspace) = replace_workspace_in_state s workspace
perform h s (workspace_removed id) = remove_workspace_from_state s id
perform h s (new_workspace workspace) = workspace_created s workspace
perform h s (submitted c id previous) = prompt_submitted h c s id previous
perform h s (failed c id previous) = prompt_failed h c s id previous
perform h s (reconciled id d) = prompt_reconciled h s id d
perform h s (answered id r) = prompt_answered h s id r
perform h s (option_set id options model) = session_config_option_set s id options model
perform h s (permitted c p) = permission_answered h c s p
perform h s (cancelled id d) = approval_cancelled h s id d
perform h s (replaced d) = replace_session_in_state h s d
perform h s (removed id) = remove_session_from_state s id

unfoldable pub perform_all : Host → UiState → List Action → UiState
perform_all h s [] = s
perform_all h s (action ∷ actions) = perform_all h (perform h s action) actions
