-- ===== src/App/Tidy.antt =====
-- About frontend/src/App.tsx: the items of the list and the entries of the inbox under messages.
pub mod Actions
pub mod Answers
pub mod Steps
use acp_webui.Common.{
  Option, none, some, List, [], ◌∷◌, map, String, ℕ, ◌==◌, ◌≡◌, ◌≢◌, refl, ap, Bool, true, false,
  not, arith, All, filter, Bool-cases, Option-cases, inl, inr, or_else, is_some, if◌then◌else◌,
}
use acp_webui.Common.Host.{Host, Clock}
use acp_webui.Common.Keyed.Laws.{HasDistinctKeys, filter-HasDistinctKeys}
use acp_webui.Common.Keyed.Mapped.{filter-distinct_from, map-HasDistinctKeys}
use acp_webui.Types.{
  AuthStatus, PermissionModeId, PermissionRequest, RealtimeEvent, SessionConfigOption,
  SessionCurrentModel, SessionDetail, SessionListItem, Workspace, InboxItem,
}
use acp_webui.Realtime.Permissions.{waiting_item}
use acp_webui.Realtime.Inbox.{apply-HasDistinctKeys, inbox_key}
use acp_webui.SessionList.{
  change_item, clear_session_list_permission, list_permission, session_detail_to_list_item,
  set_session_list_permission, update_session_list_model, update_session_list_status,
}
use acp_webui.SessionList.Laws.{
  apply_list-HasDistinctKeys, change_item-HasDistinctKeys, item_key, set-HasDistinctKeys,
}
use acp_webui.App.State.{UiState, clear_sensitive_state, initial_state}
use acp_webui.App.Details.{
  detail_after_resolved_permission, is_active_status, put_first, remove_session_from_state,
  remove_workspace_from_state, replace_session_in_state, replace_workspace_in_state,
  without_session,
}
use acp_webui.App.Recovery.{
  ProjectionRecoveryToken, Recovered, SessionListLoadToken, can_apply_projection_recovery,
  can_apply_recovered_session_detail, can_apply_recovered_session_list, can_apply_session_list_load,
  recover_projections, recovered_base, recovered_detail, recovered_list, session_list_loaded,
}
use acp_webui.App.Messages.{on_message, reduce, snapshot_of}
use acp_webui.App.Actions.{
  PromptResponse, approval_cancelled, creating_session, if_shown, permission_answered,
  prompt_answered, prompt_failed, prompt_reconciled, prompt_submitted, session_config_option_set,
  session_created, session_loaded, session_restored, workspace_created,
}

-- One item of the list for each session, and one entry of the inbox.
pub record IsTidy (s : UiState) : Type 0 where
  pub sessions : HasDistinctKeys item_key s.sessions
  pub inbox : HasDistinctKeys inbox_key s.inbox

module _ (h : Host) (s : UiState) (v : IsTidy s) where
  pub put_first-HasDistinctKeys :
      (d : SessionDetail) (sessions : List SessionListItem)
      → HasDistinctKeys item_key sessions
      → HasDistinctKeys item_key (put_first h d sessions)
  unfolding put_first session_detail_to_list_item
  put_first-HasDistinctKeys d sessions w = (
    filter-distinct_from item_key d.session.id sessions,
    filter-HasDistinctKeys item_key _ sessions w,
  )

  reduce-IsTidy : (c c' : Clock) (message : RealtimeEvent) → IsTidy (reduce h c c' s message)
  unfolding reduce
  reduce-IsTidy c c' message = record {
    sessions = apply_list-HasDistinctKeys h c' s.sessions s.current_session message v.sessions;
    inbox = apply-HasDistinctKeys h c (snapshot_of s) message v.inbox;
  }

  -- A state with the same list and inbox.
  pub same_rows : (t : UiState) → t.sessions ≡ s.sessions → t.inbox ≡ s.inbox → IsTidy t
  same_rows t e f = record { sessions = rw e v.sessions; inbox = rw f v.inbox }

  pub workspace-IsTidy : (workspace : Workspace) → IsTidy (replace_workspace_in_state s workspace)
  unfolding replace_workspace_in_state
  workspace-IsTidy workspace = record {
    sessions = map-HasDistinctKeys item_key _ (kept workspace) s.sessions v.sessions;
    inbox = v.inbox;
  }
    where
      kept :
          (workspace : Workspace) (item : SessionListItem)
          → item_key (
              if item.workspace.id == workspace.id
              then record item { workspace = workspace }
              else item)
            ≡ item_key item
      kept workspace item = elim (Bool-cases (item.workspace.id == workspace.id)) [
        | inl same ↦ rw same refl
        | inr other ↦ rw other refl
      ]

  pub workspace_gone-IsTidy : (id : String) → IsTidy (remove_workspace_from_state s id)
  unfolding remove_workspace_from_state
  workspace_gone-IsTidy id = record {
    sessions = filter-HasDistinctKeys item_key _ s.sessions v.sessions;
    inbox = v.inbox;
  }

  pub message-IsTidy :
      (c c' : Clock) (message : RealtimeEvent) → IsTidy (on_message h c c' s message)
  unfolding on_message replace_workspace_in_state remove_workspace_from_state
      remove_session_from_state
  message-IsTidy c c' (RealtimeEvent.connection_status _) = same_rows _ refl refl
  message-IsTidy c c' (RealtimeEvent.agent_connection_status _ _ _) = same_rows _ refl refl
  message-IsTidy c c' (RealtimeEvent.session_list_changed _ _ _) = v
  message-IsTidy c c' (RealtimeEvent.workspace_changed _ workspace) = workspace-IsTidy workspace
  message-IsTidy c c' (RealtimeEvent.workspace_deleted id _) = workspace_gone-IsTidy id
  message-IsTidy c c' (RealtimeEvent.session_updated _ _) = v
  message-IsTidy c c' (RealtimeEvent.session_deleted _ _ _) = record {
    sessions = filter-HasDistinctKeys item_key _ s.sessions v.sessions;
    inbox = v.inbox;
  }
  message-IsTidy c c' message = reduce-IsTidy c c' message

  pub status-HasDistinctKeys :
      (c : Clock) (id status : String)
      → HasDistinctKeys item_key (update_session_list_status h c s.sessions id status)
  unfolding update_session_list_status
  status-HasDistinctKeys c id status =
      change_item-HasDistinctKeys id _ (λ item. refl) s.sessions v.sessions
