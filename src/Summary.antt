-- ===== src/Summary.antt =====
-- frontend/src/app/workspaceSummary.ts: the figures that a workspace shows. A Set of ids is a list
-- without repetitions, in the order of insertion.
pub mod Laws
mod Tests
use acp_webui.Common.{
  Option, List, [], ◌∷◌, ◌++◌, map, String, ℕ, ◌==◌, Bool, not, ◌||◌, any, filter, head?, is_empty,
  is_gt, is_some, length, if◌then◌else◌,
}
use acp_webui.Common.Host.{Host, date_order}
use acp_webui.Common.Sets.{add}
use acp_webui.Common.Sort.{sort}
use acp_webui.Types.{InboxItem, SessionListItem, Workspace}
use acp_webui.Cockpit.{turn_runs}

pub record WorkspaceSummary : Type 0 where
  pub pending_approvals : ℕ
  pub running : ℕ
  pub failed : ℕ
  pub recent_activity_at : Option String

-- `item.pendingPermission || item.session.status === "waiting_approval"`
abbrev pub waits : SessionListItem → Bool
waits item = is_some item.pending_permission || item.session.status == "waiting_approval"

unfoldable pub add_sessions : List SessionListItem → List String → List String
unfolding add
add_sessions [] ids = ids
add_sessions (item ∷ sessions) ids =
    add_sessions sessions (if waits item then add item.session.id ids else ids)

unfoldable pub add_inbox : String → List InboxItem → List String → List String
unfolding add
add_inbox workspace [] ids = ids
add_inbox workspace (item ∷ inbox) ids =
    add_inbox workspace inbox
      (if item.workspace.id == workspace then add item.session.id ids else ids)

unfoldable pub pending_session_ids : String → List SessionListItem → List InboxItem → List String
unfolding add_sessions add_inbox
pending_session_ids workspace sessions inbox = add_inbox workspace inbox (add_sessions sessions [])

unfoldable pub count_pending_approvals : String → List SessionListItem → List InboxItem → ℕ
unfolding pending_session_ids
count_pending_approvals workspace sessions inbox =
    length (pending_session_ids workspace sessions inbox)

unfoldable pub latest_activity : Host → List SessionListItem → Option String
latest_activity h sessions = head? (
    sort (λ left right. is_gt (date_order h right left))
      (filter (λ at. not (is_empty at)) (map (λ item. item.last_activity_at) sessions)))

unfoldable pub summarize_workspace :
    Host → Workspace → List SessionListItem → List InboxItem → WorkspaceSummary
unfolding count_pending_approvals latest_activity
summarize_workspace h workspace sessions inbox =
    let own = filter (λ item. item.workspace.id == workspace.id) sessions in
    record {
      pending_approvals = count_pending_approvals workspace.id own inbox;
      running = length (filter (λ item. item.session.status == "running" || turn_runs item) own);
      failed = length (filter (λ item. item.session.status == "failed") own);
      recent_activity_at = latest_activity h own;
    }
