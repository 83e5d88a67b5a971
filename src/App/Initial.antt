-- ===== src/App/Initial.antt =====
-- `loadInitialState` of frontend/src/App.tsx: what the page shows when its first responses arrive.
use acp_webui.Common.{Option, none, some, List, String, head?, or_else, or_else?, true}
use acp_webui.Types.{
  AccessObservability, AgentRuntimeStatus, AuthStatus, ConnectionStatus, InboxItem, SessionListItem,
  TranscriptionCapability, Workspace,
}
use acp_webui.App.State.{UiState, initial_transcription}

-- The three responses, and what is read from the browser's storage.
pub record Initial : Type 0 where
  pub codex : ConnectionStatus
  pub agents : List AgentRuntimeStatus
  pub inbox : List InboxItem
  pub transcription : Option TranscriptionCapability
  pub access : Option AccessObservability
  pub workspaces : List Workspace
  pub sessions : List SessionListItem
  pub stored_workspace_id : Option String
  pub remembered_agents : List (String × String)

unfoldable pub load_initial_state : UiState → AuthStatus → Initial → UiState
load_initial_state current auth r = record current {
  auth = elim r.access [ none ↦ some auth | some a ↦ some a.auth ];
  codex = r.codex;
  agents = r.agents;
  inbox = r.inbox;
  transcription = or_else r.transcription initial_transcription;
  access = r.access;
  sessions = r.sessions;
  workspaces = r.workspaces;
  current_workspace_id =
      or_else? (elim current.current_session [ none ↦ none | some d ↦ some d.workspace.id ])
        (or_else? current.current_workspace_id (
          or_else? r.stored_workspace_id
            (elim (head? r.workspaces) [ none ↦ none | some w ↦ some w.id ])));
  current_agent_id = elim current.current_session [
    | none ↦ none
    | some d ↦ some d.session.agent_id
  ];
  current_agent_id_by_workspace = r.remembered_agents;
  initialized = true;
  error = none;
}
