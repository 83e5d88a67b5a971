-- ===== src/App/Tidy/Steps.antt =====
-- About frontend/src/App.tsx: the items of the list and the entries of the inbox through sequences
-- of steps.
use acp_webui.Common.{Option, none, some, List, [], ◌∷◌, ℕ, refl, All, Bool-cases, inl, inr}
use acp_webui.Common.Host.{Host}
use acp_webui.Common.Keyed.Laws.{HasDistinctKeys, filter-HasDistinctKeys}
use acp_webui.Types.{SessionDetail, SessionListItem}
use acp_webui.Realtime.Inbox.{inbox_key}
use acp_webui.SessionList.Laws.{item_key}
use acp_webui.App.State.{UiState, clear_sensitive_state}
use acp_webui.App.Details.{remove_session_from_state}
use acp_webui.App.Recovery.{
  ProjectionRecoveryToken, Recovered, SessionListLoadToken, can_apply_projection_recovery,
  can_apply_recovered_session_detail, can_apply_recovered_session_list, can_apply_session_list_load,
  recover_projections, recovered_base, recovered_detail, recovered_list, session_list_loaded,
}
use acp_webui.App.Actions.{creating_session, session_created, session_loaded, workspace_created}
use acp_webui.App.Tidy.{
  IsTidy, message-IsTidy, put_first-HasDistinctKeys, same_rows, workspace-IsTidy,
  workspace_gone-IsTidy,
}
use acp_webui.App.Tidy.Actions.{
  answered-IsTidy, cancelled-IsTidy, failed-IsTidy, option-IsTidy, reconciled-IsTidy,
  replaced-IsTidy, restored-IsTidy, submitted-IsTidy,
}
use acp_webui.App.Tidy.Answers.{permission-IsTidy}
use acp_webui.Refresh.{
  ScopedSessionListRefreshState, ScopedSessionListRefreshToken,
  can_apply_scoped_session_list_refresh,
}
use acp_webui.App.Initial.{load_initial_state}
use acp_webui.App.Recovery.{scoped_list_refreshed}
use acp_webui.App.Steps.{
  Action, answered, cancelled, created, creating, failed, list_loaded, list_refreshed, loaded,
  message, new_workspace, option_set, perform, perform_all, permitted, reconciled, recovered,
  removed, replaced, restored, signed_out, submitted, initially_loaded, workspace_updated,
  workspace_removed,
}

-- A list that the server sends has no session twice, and neither has an inbox.
abbrev pub IsDistinct : Action → Type 0
IsDistinct (initially_loaded _ r) =
    HasDistinctKeys item_key r.sessions × HasDistinctKeys inbox_key r.inbox
IsDistinct (recovered _ _ r) =
    HasDistinctKeys item_key r.sessions × HasDistinctKeys inbox_key r.inbox
IsDistinct (list_loaded _ _ sessions) = HasDistinctKeys item_key sessions
IsDistinct (list_refreshed _ _ sessions) = HasDistinctKeys item_key sessions
IsDistinct _ = Unit

recovered_list-IsTidy :
    (token : ProjectionRecoveryToken) (generation : ℕ) (next : UiState) (r : Recovered)
    → HasDistinctKeys item_key r.sessions
    → IsTidy next
    → IsTidy (recovered_list token generation next r)
unfolding recovered_list
recovered_list-IsTidy token generation next r listed v =
    elim (Bool-cases (can_apply_recovered_session_list token generation next)) [
      | inl same ↦ rw same (record { sessions = listed; inbox = v.inbox })
      | inr left ↦ rw left v
    ]

recovered_detail-IsTidy :
    (h : Host) (token : ProjectionRecoveryToken) (generation : ℕ) (next : UiState)
    (detail : Option SessionDetail)
    → IsTidy next
    → IsTidy (recovered_detail h token generation next detail)
unfolding recovered_detail
recovered_detail-IsTidy h token generation next none v = v
recovered_detail-IsTidy h token generation next (some d) v =
    elim (Bool-cases (can_apply_recovered_session_detail token generation next)) [
      | inl same ↦ rw same (record {
        sessions = put_first-HasDistinctKeys h next v d next.sessions v.sessions;
        inbox = v.inbox;
      })
      | inr left ↦ rw left v
    ]

recovered-IsTidy :
    (h : Host) (s : UiState) (token : ProjectionRecoveryToken) (generation : ℕ) (r : Recovered)
    → HasDistinctKeys item_key r.sessions
    → HasDistinctKeys inbox_key r.inbox
    → IsTidy s
    → IsTidy (recover_projections h token generation s r)
unfolding recover_projections recovered_base
recovered-IsTidy h s token generation r listed waiting v =
    elim (Bool-cases (can_apply_projection_recovery token generation)) [
      | inl latest ↦ rw latest (
          recovered_detail-IsTidy h token generation _ r.detail (
            recovered_list-IsTidy token generation (recovered_base s r) r listed
              (record { sessions = v.sessions; inbox = waiting })))
      | inr stale ↦ rw stale v
    ]

loaded-IsTidy :
    (s : UiState) (token : SessionListLoadToken) (latest : ℕ) (sessions : List SessionListItem)
    → HasDistinctKeys item_key sessions
    → IsTidy s
    → IsTidy (session_list_loaded token latest s sessions)
unfolding session_list_loaded
loaded-IsTidy s token latest sessions listed v =
    elim (Bool-cases (can_apply_session_list_load token latest s)) [
      | inl applied ↦ rw applied (record { sessions = listed; inbox = v.inbox })
      | inr stale ↦ rw stale v
    ]

refreshed-IsTidy :
    (s : UiState) (token : ScopedSessionListRefreshToken) (refresh : ScopedSessionListRefreshState)
    (sessions : List SessionListItem)
    → HasDistinctKeys item_key sessions
    → IsTidy s
    → IsTidy (scoped_list_refreshed token refresh s sessions)
unfolding scoped_list_refreshed
refreshed-IsTidy s token refresh sessions listed v =
    elim (Bool-cases (
      can_apply_scoped_session_list_refresh token refresh (record {
        current_workspace_id = s.current_workspace_id;
        current_agent_id = s.current_agent_id;
      }))) [
        | inl applied ↦ rw applied (record { sessions = listed; inbox = v.inbox })
        | inr stale ↦ rw stale v
      ]

perform-IsTidy :
    (h : Host) (s : UiState) (action : Action)
    → IsDistinct action
    → IsTidy s
    → IsTidy (perform h s action)
unfolding perform clear_sensitive_state session_loaded creating_session session_created
    workspace_created remove_session_from_state load_initial_state
perform-IsTidy h s (initially_loaded auth r) (listed, waiting) v = record {
  sessions = listed;
  inbox = waiting;
}
perform-IsTidy h s (message c c' m) _ v = message-IsTidy h s v c c' m
perform-IsTidy h s (signed_out auth) _ v = record { sessions = tt; inbox = tt }
perform-IsTidy h s (recovered token generation r) (listed, waiting) v =
    recovered-IsTidy h s token generation r listed waiting v
perform-IsTidy h s (list_loaded token latest sessions) listed v =
    loaded-IsTidy s token latest sessions listed v
perform-IsTidy h s (list_refreshed token refresh sessions) listed v =
    refreshed-IsTidy s token refresh sessions listed v
perform-IsTidy h s (loaded d) _ v = same_rows h s v _ refl refl
perform-IsTidy h s (restored d) _ v = restored-IsTidy h s v d
perform-IsTidy h s (creating workspace agent mode) _ v = same_rows h s v _ refl refl
perform-IsTidy h s (created d) _ v =
    let w = restored-IsTidy h s v d in record { sessions = w.sessions; inbox = w.inbox }
perform-IsTidy h s (workspace_updated workspace) _ v = workspace-IsTidy h s v workspace
perform-IsTidy h s (workspace_removed id) _ v = workspace_gone-IsTidy h s v id
perform-IsTidy h s (new_workspace workspace) _ v = same_rows h s v _ refl refl
perform-IsTidy h s (submitted c id previous) _ v = submitted-IsTidy h s v c id previous
perform-IsTidy h s (failed c id previous) _ v = failed-IsTidy h s v c id previous
perform-IsTidy h s (reconciled id d) _ v = reconciled-IsTidy h s v id d
perform-IsTidy h s (answered id r) _ v = answered-IsTidy h s v id r
perform-IsTidy h s (option_set id options model) _ v = option-IsTidy h s v id options model
perform-IsTidy h s (permitted c p) _ v = permission-IsTidy h s v c p
perform-IsTidy h s (cancelled id d) _ v = cancelled-IsTidy h s v id d
perform-IsTidy h s (replaced d) _ v = replaced-IsTidy h s v d
perform-IsTidy h s (removed id) _ v = record {
  sessions = filter-HasDistinctKeys item_key _ s.sessions v.sessions;
  inbox = v.inbox;
}

-- Through every sequence of the steps of `Action`, the first load and the messages, responses and
-- actions that change the list of sessions, the inbox or the open session, in which no list and no
-- inbox of the server has a session twice, a page that starts so has one item of the list for each
-- session and one entry of the inbox.
pub perform_all-IsTidy :
    (h : Host) (s : UiState) (actions : List Action)
    → All IsDistinct actions
    → IsTidy s
    → IsTidy (perform_all h s actions)
unfolding perform_all
perform_all-IsTidy h s [] _ v = v
perform_all-IsTidy h s (action ∷ actions) (distinct, rest) v =
    perform_all-IsTidy h (perform h s action) actions rest (perform-IsTidy h s action distinct v)
