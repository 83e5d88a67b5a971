-- ===== src/App/State.antt =====
-- frontend/src/app/types.ts: the state of the page. What is read from the browser's storage when the page
-- starts is a parameter of the initial state.
use acp_webui.Common.{Option, none, some, List, [], String, Bool, true, false}
use acp_webui.Types.{
  AccessObservability, AgentRuntimeStatus, AuthStatus, ConnectionStatus, InboxItem,
  PermissionModeId, ReviewArtifact, SessionDetail, SessionListItem, TranscriptionCapability,
  Workspace,
}

pub record UiState : Type 0 where
  pub codex : ConnectionStatus
  pub agents : List AgentRuntimeStatus
  pub socket_state : String
  pub initialized : Bool
  pub workspaces : List Workspace
  pub inbox : List InboxItem
  pub transcription : TranscriptionCapability
  pub access : Option AccessObservability
  pub sessions : List SessionListItem
  pub sessions_loading : Bool
  pub current_workspace_id : Option String
  pub current_agent_id : Option String
  pub current_agent_id_by_workspace : List (String × String)
  pub current_session : Option SessionDetail
  pub active_review : Option ReviewArtifact
  pub live_assistant : String
  pub busy : Bool
  pub creating_session_workspace_id : Option String
  pub creating_session_agent_id : Option String
  pub creating_session_permission_mode : Option PermissionModeId
  pub error : Option String
  pub auth : Option AuthStatus

abbrev pub initial_codex : ConnectionStatus
initial_codex = record {
  state = "starting";
  message = some "Loading app state";
  agent_info = none;
  prompt_capabilities = none;
  session_capabilities = none;
}

abbrev pub initial_transcription : TranscriptionCapability
initial_transcription = record { available = false; max_audio_bytes = 0 }

-- The arguments are the items `currentWorkspaceId` and the agents by workspace of the storage.
abbrev pub initial_state : Option String → List (String × String) → UiState
initial_state workspace agents_by_workspace = record {
  codex = initial_codex;
  agents = [];
  socket_state = "connecting";
  initialized = false;
  workspaces = [];
  inbox = [];
  transcription = initial_transcription;
  access = none;
  sessions = [];
  sessions_loading = false;
  current_workspace_id = workspace;
  current_agent_id = none;
  current_agent_id_by_workspace = agents_by_workspace;
  current_session = none;
  active_review = none;
  live_assistant = "";
  busy = false;
  creating_session_workspace_id = none;
  creating_session_agent_id = none;
  creating_session_permission_mode = none;
  error = none;
  auth = none;
}

-- `clearSensitiveState` of App.tsx.
unfoldable pub clear_sensitive_state : UiState → Option AuthStatus → UiState
clear_sensitive_state current now = record current {
  auth = now;
  codex = initial_codex;
  agents = [];
  socket_state = "disconnected";
  inbox = [];
  transcription = initial_transcription;
  access = none;
  sessions = [];
  current_agent_id = none;
  current_session = none;
  active_review = none;
  live_assistant = "";
  busy = false;
  creating_session_workspace_id = none;
  creating_session_agent_id = none;
  creating_session_permission_mode = none;
  initialized = true;
}
