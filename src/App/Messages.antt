-- ===== src/App/Messages.antt =====
-- frontend/src/App.tsx: what the handler of the web socket's messages does to the state. A message about
-- a list or a session that has changed only starts requests.
use acp_webui.Common.{some, ◌==◌, if◌then◌else◌}
use acp_webui.Common.Host.{Host, Clock}
use acp_webui.Types.{RealtimeEvent}
use acp_webui.Realtime.{apply_realtime_event}
use acp_webui.Realtime.Snapshot.{AppSnapshot}
use acp_webui.SessionList.{apply_session_list_realtime}
use acp_webui.App.State.{UiState}
use acp_webui.App.Agents.{update_agent_status}
use acp_webui.App.Details.{
  remove_session_from_state, remove_workspace_from_state, replace_workspace_in_state,
}

abbrev pub snapshot_of : UiState → AppSnapshot
snapshot_of current = record {
  current_session = current.current_session;
  inbox = current.inbox;
  live_assistant = current.live_assistant;
  error = current.error;
}

-- The event given to both reducers. Each of them reads the clock for itself.
unfoldable pub reduce : Host → Clock → Clock → UiState → RealtimeEvent → UiState
reduce h c c' current message =
    let snapshot = apply_realtime_event h c (snapshot_of current) message in
    record current {
      current_session = snapshot.current_session;
      inbox = snapshot.inbox;
      live_assistant = snapshot.live_assistant;
      error = snapshot.error;
      sessions = apply_session_list_realtime h c' current.sessions message current.current_session;
    }

unfoldable pub on_message : Host → Clock → Clock → UiState → RealtimeEvent → UiState
on_message h c c' current (RealtimeEvent.connection_status status) = record current {
  codex = status;
  agents = update_agent_status current.agents "codex" status (some "manual");
}
on_message h c c' current (RealtimeEvent.agent_connection_status id mode status) = record current {
  codex = if id == "codex" then status else current.codex;
  agents = update_agent_status current.agents id status mode;
}
on_message h c c' current (RealtimeEvent.session_list_changed _ _ _) = current
on_message h c c' current (RealtimeEvent.workspace_changed _ workspace) =
    replace_workspace_in_state current workspace
on_message h c c' current (RealtimeEvent.workspace_deleted id _) =
    remove_workspace_from_state current id
on_message h c c' current (RealtimeEvent.session_updated _ _) = current
on_message h c c' current (RealtimeEvent.session_deleted id _ _) =
    remove_session_from_state current id
on_message h c c' current message = reduce h c c' current message
