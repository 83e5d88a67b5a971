-- ===== src/Refresh/Tests.antt =====
-- A refresh that is applied, one that is superseded, and one whose scope was left and come back to.
use acp_webui.Common.{none, some, ◌≡◌, refl, true, false, ℕ}
use acp_webui.Refresh.{
  ScopedSessionListRefreshState, ScopedSessionListRefreshToken, SessionListChanged,
  WorkspaceAgentScope, begin_scoped_session_list_refresh, can_apply_scoped_session_list_refresh,
  create_scoped_session_list_refresh_state, same_scope, should_refresh_scoped_session_list,
  sync_scoped_session_list_refresh_scope,
}
use acp_webui.Refresh.Laws.{IsQuiet, Reach, apply_only_current, here, next, superseded, sync}

abbrev home : WorkspaceAgentScope
home = record { current_workspace_id = some "w1"; current_agent_id = none }

abbrev elsewhere : WorkspaceAgentScope
elsewhere = record { current_workspace_id = some "w2"; current_agent_id = none }

abbrev at_home : ℕ → ℕ → ScopedSessionListRefreshState
at_home version generation = record {
  scope = home;
  scope_version = version;
  request_generation = generation;
}

abbrev change : SessionListChanged
change = record { workspace_id = "w1"; agent_id = "codex"; count = 3 }

abbrev token_of : ℕ → ScopedSessionListRefreshToken
token_of generation = record {
  workspace_id = "w1";
  agent_id = none;
  scope_version = 0;
  request_generation = generation;
}

begun :
    begin_scoped_session_list_refresh (create_scoped_session_list_refresh_state home) change
    ≡ (at_home 0 1, some (token_of 1))
unfolding begin_scoped_session_list_refresh create_scoped_session_list_refresh_state
    should_refresh_scoped_session_list
begun = refl

begun_again :
    begin_scoped_session_list_refresh (at_home 0 1) change ≡ (at_home 0 2, some (token_of 2))
unfolding begin_scoped_session_list_refresh should_refresh_scoped_session_list
begun_again = refl

same_home : can_apply_scoped_session_list_refresh (token_of 1) (at_home 0 1) home ≡ true
unfolding can_apply_scoped_session_list_refresh same_scope
same_home = refl

-- The scope is synchronized with the same scope.
synced : Reach (at_home 0 1) (at_home 0 1)
unfolding sync_scoped_session_list_refresh_scope same_scope
synced = next here (sync home)

apply_only_current_example : IsQuiet synced × (at_home 0 1 ≡ at_home 0 1) × (home ≡ home)
apply_only_current_example =
    apply_only_current (create_scoped_session_list_refresh_state home) (at_home 0 1) change
      (token_of 1) begun synced same_home

superseded_example : can_apply_scoped_session_list_refresh (token_of 1) (at_home 0 2) home ≡ false
superseded_example =
    superseded (create_scoped_session_list_refresh_state home) (at_home 0 1) change (token_of 1)
      begun (at_home 0 1) (at_home 0 2) (at_home 0 2) change (token_of 2) home here begun_again here

away_changes : same_scope home elsewhere ≡ false
unfolding same_scope
away_changes = refl
