-- ===== src/Refresh.antt =====
-- frontend/src/app/scopedSessionListRefresh.ts: refreshes of the session list of one workspace and
-- agent.
pub mod Laws
mod Tests
use acp_webui.Common.{
  Option, none, some, String, ℕ, ◌+◌, ◌==◌, Bool, true, false, ◌&&◌, ◌||◌, nat_eq, not, is_some,
  if◌then◌else◌,
}
use acp_webui.Types.{RealtimeEvent}

-- `===` on texts that may be null.
abbrev pub same_text : Option String → Option String → Bool
same_text none none = true
same_text none (some b) = false
same_text (some a) none = false
same_text (some a) (some b) = a == b

pub record WorkspaceAgentScope : Type 0 where
  pub current_workspace_id : Option String
  pub current_agent_id : Option String

pub record ScopedSessionListRefreshState : Type 0 where
  pub scope : WorkspaceAgentScope
  pub scope_version : ℕ
  pub request_generation : ℕ

pub record ScopedSessionListRefreshToken : Type 0 where
  pub workspace_id : String
  pub agent_id : Option String
  pub scope_version : ℕ
  pub request_generation : ℕ

-- The payload of a `session_list_changed` event.
pub record SessionListChanged : Type 0 where
  pub workspace_id : String
  pub agent_id : String
  pub count : ℕ

abbrev pub event_of : SessionListChanged → RealtimeEvent
event_of e = RealtimeEvent.session_list_changed e.workspace_id e.agent_id e.count

unfoldable pub should_refresh_scoped_session_list : RealtimeEvent → WorkspaceAgentScope → Bool
should_refresh_scoped_session_list (RealtimeEvent.session_list_changed workspace agent _) scope =
    same_text (some workspace) scope.current_workspace_id
    && (not (is_some scope.current_agent_id) || same_text (some agent) scope.current_agent_id)
should_refresh_scoped_session_list _ scope = false

unfoldable pub create_scoped_session_list_refresh_state :
    WorkspaceAgentScope → ScopedSessionListRefreshState
create_scoped_session_list_refresh_state start = record {
  scope = start;
  scope_version = 0;
  request_generation = 0;
}

unfoldable pub same_scope : WorkspaceAgentScope → WorkspaceAgentScope → Bool
same_scope left right =
    same_text left.current_workspace_id right.current_workspace_id
    && same_text left.current_agent_id right.current_agent_id

unfoldable pub sync_scoped_session_list_refresh_scope :
    ScopedSessionListRefreshState → WorkspaceAgentScope → ScopedSessionListRefreshState
sync_scoped_session_list_refresh_scope state next =
    if same_scope state.scope next
    then state
    else record state { scope = next; scope_version = state.scope_version + 1 }

unfoldable pub begin_scoped_session_list_refresh :
    ScopedSessionListRefreshState
    → SessionListChanged
    → ScopedSessionListRefreshState × Option ScopedSessionListRefreshToken
begin_scoped_session_list_refresh state event =
    let next_state = record state { request_generation = state.request_generation + 1 } in
    if should_refresh_scoped_session_list (event_of event) state.scope
    then (
      next_state,
      some (record {
        workspace_id = event.workspace_id;
        agent_id = state.scope.current_agent_id;
        scope_version = next_state.scope_version;
        request_generation = next_state.request_generation;
      }),
    )
    else (state, none)

unfoldable pub can_apply_scoped_session_list_refresh :
    ScopedSessionListRefreshToken → ScopedSessionListRefreshState → WorkspaceAgentScope → Bool
can_apply_scoped_session_list_refresh token state scope =
    same_text (some token.workspace_id) scope.current_workspace_id
    && (same_text token.agent_id scope.current_agent_id
        && (nat_eq token.scope_version state.scope_version
            && (nat_eq token.request_generation state.request_generation
                && same_scope state.scope scope)))
