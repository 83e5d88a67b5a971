-- ===== src/App/Actions.antt =====
-- frontend/src/App.tsx: the changes of the state that the actions of the user make, before a request to
-- the server and when its response arrives.
use acp_webui.Common.{
  Option, none, some, List, ◌∷◌, map, String, ◌==◌, not, filter, length, or_else, or_else?,
  if◌then◌else◌,
}
use acp_webui.Common.Host.{Host, Clock}
use acp_webui.Types.{
  ActiveTurn, ChatMessage, PermissionModeId, PermissionRequest, QueuedPrompt, SessionConfigOption,
  SessionCurrentModel, SessionDetail, TimelineItem, Workspace,
}
use acp_webui.Realtime.Snapshot.{with_status}
use acp_webui.Realtime.Permissions.{waiting_item}
use acp_webui.SessionList.{
  change_item, clear_session_list_permission, list_permission, set_session_list_permission,
  update_session_list_model, update_session_list_status,
}
use acp_webui.App.State.{UiState}
use acp_webui.App.Details.{
  detail_after_resolved_permission, is_active_status, live_assistant_after_session_reconcile,
  merge_chat_message, merge_timeline_item, put_first,
}

-- `current.currentSession?.session.id === id ? change(current) : current`
unfoldable pub if_shown : UiState → String → (SessionDetail → UiState) → UiState
if_shown current id change = elim current.current_session [
  | none ↦ current
  | some d ↦ if d.session.id == id then change d else current
]

-- A session that is loaded, created or restored becomes the open one.
unfoldable pub session_loaded : UiState → SessionDetail → UiState
session_loaded current d = record current {
  current_session = some d;
  current_workspace_id = some d.workspace.id;
  current_agent_id = some d.session.agent_id;
  live_assistant = "";
}

unfoldable pub session_restored : Host → UiState → SessionDetail → UiState
unfolding session_loaded put_first
session_restored h current d = record (session_loaded current d) {
  sessions = put_first h d current.sessions;
}

unfoldable pub creating_session :
    UiState → String → Option String → Option PermissionModeId → UiState
creating_session current workspace agent mode = record current {
  creating_session_workspace_id = some workspace;
  creating_session_agent_id = agent;
  creating_session_permission_mode = some (or_else mode "manual");
  error = none;
}

unfoldable pub session_created : Host → UiState → SessionDetail → UiState
unfolding session_restored
session_created h current d = record (session_restored h current d) {
  creating_session_workspace_id = none;
  creating_session_agent_id = none;
  creating_session_permission_mode = none;
}

unfoldable pub workspace_created : UiState → Workspace → UiState
workspace_created current workspace = record current {
  workspaces = workspace ∷ filter (λ w. not (w.id == workspace.id)) current.workspaces;
  current_workspace_id = some workspace.id;
  current_agent_id = none;
  current_session = none;
}

-- `submitPromptToSession`: before the request, after a failure of it, and the two ways it ends.
unfoldable pub prompt_submitted : Host → Clock → UiState → String → String → UiState
prompt_submitted h c current id previous =
    let active_before = is_active_status previous in
    if_shown current id λ d. record current {
      current_session =
          some (with_status d (if active_before then d.session.status else "running"));
      sessions =
          if active_before
          then current.sessions
          else update_session_list_status h c current.sessions id "running";
      live_assistant = "";
    }

unfoldable pub prompt_failed : Host → Clock → UiState → String → String → UiState
prompt_failed h c current id previous = if_shown current id λ d.
    if d.session.status == "running"
    then record current {
      current_session = some (with_status d previous);
      sessions = update_session_list_status h c current.sessions id previous;
    }
    else current

unfoldable pub prompt_reconciled : Host → UiState → String → SessionDetail → UiState
unfolding put_first
prompt_reconciled h current id reconciled = if_shown current id λ d. record current {
  current_session = some reconciled;
  sessions = put_first h reconciled current.sessions;
  live_assistant = live_assistant_after_session_reconcile current.live_assistant reconciled;
}

-- `messageToTimelineItem` of frontend/src/app/timeline.ts.
unfoldable pub message_to_timeline_item : ChatMessage → TimelineItem
message_to_timeline_item m = TimelineItem.message (record {
  id = m.id;
  session_id = m.session_id;
  timestamp = m.created_at;
  status = m.status;
  role = m.role;
  content = m.content;
  content_blocks = m.content_blocks;
})

-- The response to a prompt. `active_turn` is `none` where the response has none, and holds `none` where
-- the response has null.
pub record PromptResponse : Type 0 where
  pub message : ChatMessage
  pub queued_prompts : Option (List QueuedPrompt)
  pub active_turn : Option (Option ActiveTurn)

unfoldable pub prompt_answered : Host → UiState → String → PromptResponse → UiState
unfolding message_to_timeline_item
prompt_answered h current id r = if_shown current id λ d. record current {
  current_session = some (record d {
    messages = merge_chat_message h d.messages r.message;
    timeline = merge_timeline_item h d.timeline (message_to_timeline_item r.message);
    queued_prompts = or_else? r.queued_prompts d.queued_prompts;
    active_turn = or_else r.active_turn d.active_turn;
  });
  sessions = elim r.queued_prompts [
    | none ↦ current.sessions
    | some prompts ↦
        change_item id (λ item. record item { queued_prompt_count = some (length prompts) })
          current.sessions
  ];
  live_assistant = "";
}

unfoldable pub session_config_option_set :
    UiState → String → Option (List SessionConfigOption) → Option SessionCurrentModel → UiState
session_config_option_set current id options model = if_shown current id λ d. record current {
  current_session = some (record d { config_options = options; current_model = model });
  sessions = update_session_list_model current.sessions id model;
}

-- `resolvePermission`, after the server has accepted the answer: the open session with the approval
-- taken away, and the list and the inbox after it.
unfoldable pub permission_answered : Host → Clock → UiState → PermissionRequest → UiState
unfolding detail_after_resolved_permission waiting_item
permission_answered h c current p = elim current.current_session [
  | none ↦ current
  | some d ↦
      let next = detail_after_resolved_permission h d p.id in
      record current {
        current_session = some next;
        sessions = elim next.pending_permission [
          | none ↦
              clear_session_list_permission
                (update_session_list_status h c current.sessions p.session_id "running")
                p.session_id
          | some pending ↦
              set_session_list_permission h current.sessions p.session_id (list_permission pending)
                (or_else next.queued_approval_count 0) (some next)
        ];
        inbox = elim next.pending_permission [
          | none ↦ filter (λ item. not (item.session.id == p.session_id)) current.inbox
          | some pending ↦
              map
                (λ item.
                  if item.session.id == p.session_id
                  then waiting_item item pending (or_else next.queued_approval_count 0)
                  else item)
                current.inbox
        ];
      }
]

-- `cancelApproval`, after the server has cancelled the turn of the session with the id.
unfoldable pub approval_cancelled : Host → UiState → String → SessionDetail → UiState
unfolding put_first
approval_cancelled h current id d = record current {
  current_session = some d;
  sessions = put_first h d current.sessions;
  inbox = filter (λ item. not (item.session.id == id)) current.inbox;
}
