-- ===== src/App/Details.antt =====
-- frontend/src/App.tsx: changes of a session's detail, and what replaces or removes a session or a
-- workspace in the state. Also frontend/src/app/liveAssistant.ts.
use acp_webui.Common.{
  Option, none, some, List, ◌∷◌, map, String, ◌-◌, ◌==◌, Bool, false, not, ◌&&◌, ◌||◌, any, filter,
  head?, includes, is_empty, is_gt, is_some, length, if◌then◌else◌,
}
use acp_webui.Common.Host.{Host, date_order}
use acp_webui.Common.Sort.{sort}
use acp_webui.Common.Keyed.{upsert}
use acp_webui.Types.{
  ChatMessage, PermissionRequest, SessionDetail, SessionListItem, TimelineItem, Workspace,
}
use acp_webui.Realtime.Queue.{permission_after, stored_queue}
use acp_webui.Realtime.Timeline.{timeline_after, timeline_key}
use acp_webui.SessionList.{session_detail_to_list_item}
use acp_webui.Refresh.{same_text}
use acp_webui.App.State.{UiState}

unfoldable pub pending_permission_queue : Host → SessionDetail → List PermissionRequest
pending_permission_queue h d = sort (permission_after h) (stored_queue d)

unfoldable pub detail_after_resolved_permission : Host → SessionDetail → String → SessionDetail
unfolding pending_permission_queue
detail_after_resolved_permission h d id =
    let pending = filter (λ p. not (p.id == id)) (pending_permission_queue h d) in
    record d {
      pending_permission = head? pending;
      pending_permissions = some pending;
      pending_approval_count = some (length pending);
      queued_approval_count = some (length pending - 1);
      session = record d.session {
        status = if is_some (head? pending) then "waiting_approval" else "running";
      };
    }

-- `Date.parse(left.createdAt) - Date.parse(right.createdAt) > 0`
abbrev pub message_after : Host → ChatMessage → ChatMessage → Bool
message_after h left right = is_gt (date_order h left.created_at right.created_at)

unfoldable pub merge_chat_message : Host → List ChatMessage → ChatMessage → List ChatMessage
merge_chat_message h messages message = sort (message_after h) (upsert (λ m. m.id) message messages)

unfoldable pub merge_timeline_item : Host → List TimelineItem → TimelineItem → List TimelineItem
merge_timeline_item h timeline item = sort (timeline_after h) (upsert timeline_key item timeline)

abbrev pub is_active_status : String → Bool
is_active_status status =
    status == "running" || (status == "waiting_approval" || status == "stopping")

abbrev pub turn_is_active : SessionDetail → Bool
turn_is_active d = elim d.active_turn [
  | none ↦ false
  | some turn ↦ turn.status == "running" || turn.status == "stopping"
]

-- The item is an assistant's message with the text in it.
abbrev pub holds_text : String → TimelineItem → Bool
holds_text live (TimelineItem.message m) = m.role == "assistant" && includes m.content live
holds_text live _ = false

unfoldable pub live_assistant_after_session_reconcile : String → SessionDetail → String
live_assistant_after_session_reconcile live d =
    if is_empty live
    then ""
    else if not (is_active_status d.session.status || turn_is_active d)
    then ""
    else if any (holds_text live) d.timeline
    then ""
    else live

-- `current.currentSession?.session.id === id`
abbrev pub shows : Option SessionDetail → String → Bool
shows none id = false
shows (some d) id = d.session.id == id

-- `current.currentSession?.workspace.id === id`
abbrev pub shows_workspace : Option SessionDetail → String → Bool
shows_workspace none id = false
shows_workspace (some d) id = d.workspace.id == id

abbrev pub without_session : String → List SessionListItem → List SessionListItem
without_session id sessions = filter (λ item. not (item.session.id == id)) sessions

-- `[sessionDetailToListItem(detail), ...sessions.filter((item) => item.session.id !== detail.session.id)]`
unfoldable pub put_first : Host → SessionDetail → List SessionListItem → List SessionListItem
put_first h d sessions = session_detail_to_list_item h d ∷ without_session d.session.id sessions

unfoldable pub replace_workspace_in_state : UiState → Workspace → UiState
replace_workspace_in_state current workspace = record current {
  workspaces = map (λ w. if w.id == workspace.id then workspace else w) current.workspaces;
  current_session = elim current.current_session [
    | none ↦ none
    | some d ↦
        some (if d.workspace.id == workspace.id then record d { workspace = workspace } else d)
  ];
  sessions =
      map
        (λ item.
          if item.workspace.id == workspace.id then record item { workspace = workspace } else item)
        current.sessions;
}

unfoldable pub replace_session_in_state : Host → UiState → SessionDetail → UiState
unfolding put_first live_assistant_after_session_reconcile
replace_session_in_state h current d = record current {
  current_session =
      if shows current.current_session d.session.id then some d else current.current_session;
  sessions = put_first h d current.sessions;
  live_assistant =
      if shows current.current_session d.session.id
      then live_assistant_after_session_reconcile current.live_assistant d
      else current.live_assistant;
}

unfoldable pub remove_session_from_state : UiState → String → UiState
remove_session_from_state current id = record current {
  current_session = if shows current.current_session id then none else current.current_session;
  sessions = without_session id current.sessions;
  live_assistant = if shows current.current_session id then "" else current.live_assistant;
}

-- The state after a workspace is deleted, as an event and the action itself both have it.
unfoldable pub remove_workspace_from_state : UiState → String → UiState
remove_workspace_from_state current id =
    let workspace_deleted = same_text current.current_workspace_id (some id) in
    let session_deleted = shows_workspace current.current_session id in
    record current {
      workspaces = filter (λ w. not (w.id == id)) current.workspaces;
      sessions = filter (λ item. not (item.workspace.id == id)) current.sessions;
      current_workspace_id = if workspace_deleted then none else current.current_workspace_id;
      current_agent_id = if workspace_deleted then none else current.current_agent_id;
      current_session = if session_deleted then none else current.current_session;
      live_assistant = if session_deleted then "" else current.live_assistant;
    }
