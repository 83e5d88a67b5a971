-- ===== src/App/Recovery.antt =====
-- frontend/src/app/projectionRecovery.ts and frontend/src/app/sessionListLoad.ts: which responses of the
-- server may be put in the state. Then what App.tsx puts there.
use acp_webui.Common.{
  Option, none, some, List, String, ℕ, Bool, true, false, ◌&&◌, nat_eq, not, or_else, truthy,
  if◌then◌else◌,
}
use acp_webui.Common.Host.{Host}
use acp_webui.Types.{
  AccessObservability, AgentRuntimeStatus, ConnectionStatus, InboxItem, SessionDetail,
  SessionListItem, TranscriptionCapability, Workspace,
}
use acp_webui.Refresh.{
  ScopedSessionListRefreshState, ScopedSessionListRefreshToken, WorkspaceAgentScope,
  can_apply_scoped_session_list_refresh, same_text,
}
use acp_webui.App.State.{UiState, initial_transcription}
use acp_webui.App.Details.{live_assistant_after_session_reconcile, put_first, shows}

pub record ProjectionRecoveryToken : Type 0 where
  pub generation : ℕ
  pub workspace_id : Option String
  pub agent_id : Option String
  pub session_id : Option String

unfoldable pub can_apply_projection_recovery : ProjectionRecoveryToken → ℕ → Bool
can_apply_projection_recovery token generation = nat_eq token.generation generation

unfoldable pub can_apply_recovered_session_list : ProjectionRecoveryToken → ℕ → UiState → Bool
can_apply_recovered_session_list token generation current =
    can_apply_projection_recovery token generation
    && (same_text current.current_workspace_id token.workspace_id
        && same_text current.current_agent_id token.agent_id)

unfoldable pub can_apply_recovered_session_detail : ProjectionRecoveryToken → ℕ → UiState → Bool
can_apply_recovered_session_detail token generation current =
    can_apply_projection_recovery token generation
    && elim token.session_id [ none ↦ false | some id ↦ shows current.current_session id ]

pub record SessionListLoadToken : Type 0 where
  pub workspace_id : Option String
  pub agent_id : Option String
  pub generation : ℕ

unfoldable pub can_apply_session_list_load : SessionListLoadToken → ℕ → UiState → Bool
can_apply_session_list_load token latest current =
    if not (nat_eq token.generation latest)
    then false
    else if truthy token.workspace_id
        && not (same_text current.current_workspace_id token.workspace_id)
    then false
    else if truthy token.workspace_id
        && (truthy token.agent_id && not (same_text current.current_agent_id token.agent_id))
    then false
    else true

-- What the server answers to the requests of a recovery; of its data about the application, what the
-- state takes.
pub record Recovered : Type 0 where
  pub codex : ConnectionStatus
  pub agents : List AgentRuntimeStatus
  pub inbox : List InboxItem
  pub transcription : Option TranscriptionCapability
  pub access : Option AccessObservability
  pub workspaces : List Workspace
  pub sessions : List SessionListItem
  pub detail : Option SessionDetail

unfoldable pub recovered_base : UiState → Recovered → UiState
recovered_base current r = record current {
  auth = elim r.access [ none ↦ current.auth | some a ↦ some a.auth ];
  codex = r.codex;
  agents = r.agents;
  inbox = r.inbox;
  transcription = or_else r.transcription initial_transcription;
  access = r.access;
  workspaces = r.workspaces;
  error = none;
}

unfoldable pub recovered_list : ProjectionRecoveryToken → ℕ → UiState → Recovered → UiState
recovered_list token generation next r =
    if can_apply_recovered_session_list token generation next
    then record next { sessions = r.sessions }
    else next

unfoldable pub recovered_detail :
    Host → ProjectionRecoveryToken → ℕ → UiState → Option SessionDetail → UiState
recovered_detail h token generation next none = next
recovered_detail h token generation next (some d) =
    if can_apply_recovered_session_detail token generation next
    then record next {
      current_session = some d;
      sessions = put_first h d next.sessions;
      live_assistant = live_assistant_after_session_reconcile next.live_assistant d;
    }
    else next

-- The change of the state in `recoverProjections`.
unfoldable pub recover_projections :
    Host → ProjectionRecoveryToken → ℕ → UiState → Recovered → UiState
recover_projections h token generation current r =
    if not (can_apply_projection_recovery token generation)
    then current
    else recovered_detail h token generation
        (recovered_list token generation (recovered_base current r) r) r.detail

-- The change of the state in `loadSessionList`, when the list arrives.
unfoldable pub session_list_loaded :
    SessionListLoadToken → ℕ → UiState → List SessionListItem → UiState
session_list_loaded token latest current sessions =
    if can_apply_session_list_load token latest current
    then record current { sessions = sessions; sessions_loading = false }
    else current

-- The change of the state when the response to a refresh of the list arrives.
unfoldable pub scoped_list_refreshed :
    ScopedSessionListRefreshToken
    → ScopedSessionListRefreshState
    → UiState
    → List SessionListItem
    → UiState
scoped_list_refreshed token refresh current sessions =
    let scope : WorkspaceAgentScope = record {
      current_workspace_id = current.current_workspace_id;
      current_agent_id = current.current_agent_id;
    } in
    if can_apply_scoped_session_list_refresh token refresh scope
    then record current { sessions = sessions }
    else current
