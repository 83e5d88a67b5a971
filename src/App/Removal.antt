-- ===== src/App/Removal.antt =====
-- About frontend/src/App.tsx: a session or a workspace that is deleted, and a device that loses
-- its access.
use acp_webui.Common.{
  Option, none, some, List, String, ◌==◌, ◌≡◌, ◌≢◌, refl, false, not, All, filter, Bool-cases, inl,
  inr, if◌then◌else◌,
}
use acp_webui.Common.Keyed.Laws.{at_key-filter}
use acp_webui.Common.Keyed.Mapped.{filter-distinct_from}
use acp_webui.Types.{AuthStatus, SessionListItem}
use acp_webui.Refresh.{same_text}
use acp_webui.SessionList.Laws.{item_key, item_of}
use acp_webui.App.State.{UiState, clear_sensitive_state}
use acp_webui.App.Details.{
  remove_session_from_state, remove_workspace_from_state, shows, shows_workspace,
}

-- A session that is removed has no item and is not the open one, and every other session keeps its
-- item.
pub item_of-remove_session_from_state :
    (current : UiState) (id k : String)
    → (item_of k (remove_session_from_state current id).sessions
        ≡ (if k == id then none else item_of k current.sessions))
      × (shows (remove_session_from_state current id).current_session id ≡ false)
unfolding remove_session_from_state
item_of-remove_session_from_state current id k = (
  at_key-filter item_key k id current.sessions,
  elim (Bool-cases (shows current.current_session id)) [
    | inl shown ↦ rw shown refl
    | inr other ↦ rw other other
  ],
)

workspace_filter :
    (id : String) (sessions : List SessionListItem)
    → All (λ item. item.workspace.id ≢ id) (filter (λ item. not (item.workspace.id == id)) sessions)
workspace_filter id sessions = filter-distinct_from (λ item. item.workspace.id) id sessions

-- After a workspace is removed no workspace of the state has its id, no item of the list is of it,
-- and neither it nor a session of it is open.
pub remove_workspace_from_state_gone :
    (current : UiState) (id : String)
    → (let after = remove_workspace_from_state current id in
        All (λ w. w.id ≢ id) after.workspaces
        × All (λ item. item.workspace.id ≢ id) after.sessions
        × (same_text after.current_workspace_id (some id) ≡ false)
        × (shows_workspace after.current_session id ≡ false))
unfolding remove_workspace_from_state
remove_workspace_from_state_gone current id = (
  filter-distinct_from (λ w. w.id) id current.workspaces,
  workspace_filter id current.sessions,
  elim (Bool-cases (same_text current.current_workspace_id (some id))) [
    | inl chosen ↦ rw chosen refl
    | inr other ↦ rw other other
  ],
  elim (Bool-cases (shows_workspace current.current_session id)) [
    | inl shown ↦ rw shown refl
    | inr other ↦ rw other other
  ],
)

-- What the state may still tell after the device has lost its access.
pub record SameOutside (s t : UiState) : Type 0 where
  pub workspaces : s.workspaces ≡ t.workspaces
  pub loading : s.sessions_loading ≡ t.sessions_loading
  pub workspace_id : s.current_workspace_id ≡ t.current_workspace_id
  pub agents : s.current_agent_id_by_workspace ≡ t.current_agent_id_by_workspace
  pub error : s.error ≡ t.error

-- Clearing the state when access is lost leaves nothing of the sessions, the inbox, the agents and
-- the streamed text: two states that agree on the workspaces, the navigation, the loading flag and
-- the error are the same after it.
pub clear_sensitive_state_same :
    (s t : UiState) (auth : Option AuthStatus)
    → SameOutside s t
    → clear_sensitive_state s auth ≡ clear_sensitive_state t auth
unfolding clear_sensitive_state
clear_sensitive_state_same s t auth v =
    rw (v.workspaces, v.loading, v.workspace_id, v.agents, v.error) refl
