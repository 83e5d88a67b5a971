-- ===== src/Cockpit.antt =====
-- frontend/src/app/sessionCockpit.ts: which sessions of the list a filter shows, and in which order.
pub mod Laws
mod Tests
use acp_webui.Common.{
  Option, none, some, List, String, ℕ, ◌==◌, Bool, Ordering, true, false, not, ◌&&◌, ◌||◌, filter,
  is_empty, is_gt, is_some, length, if◌then◌else◌,
}
use acp_webui.Common.Host.{Host, date_order}
use acp_webui.Common.Sort.{sort}
use acp_webui.Types.{SessionListItem}

pub data SessionStatusFilter : Type 0 where
  all : SessionStatusFilter
  pending_approval : SessionStatusFilter
  running : SessionStatusFilter
  failed : SessionStatusFilter
  view_only_restore : SessionStatusFilter

-- The comparator: the later activity first, and by id where the times are equal or unreadable.
unfoldable pub activity_after : Host → SessionListItem → SessionListItem → Bool
unfolding date_order
activity_after h left right = elim (date_order h right.last_activity_at left.last_activity_at) [
  | Ordering.lt ↦ false
  | Ordering.gt ↦ true
  | Ordering.eq ↦ is_gt (h.locale_compare left.session.id right.session.id)
]

unfoldable pub sort_sessions_by_latest_activity : Host → List SessionListItem → List SessionListItem
sort_sessions_by_latest_activity h sessions = sort (activity_after h) sessions

unfoldable pub is_view_only_or_restore_needed : SessionListItem → Bool
is_view_only_or_restore_needed item =
    if not item.continuable
    then true
    else item.continuity.state == "loadable"
      || (item.continuity.state == "resumable"
          || (item.continuity.state == "restore_failed" || item.continuity.state == "view_only"))

-- `item.activeTurn?.status === "running"`
abbrev pub turn_runs : SessionListItem → Bool
turn_runs item = elim item.active_turn [ none ↦ false | some turn ↦ turn.status == "running" ]

unfoldable pub session_matches_status : SessionListItem → SessionStatusFilter → Bool
unfolding is_view_only_or_restore_needed
session_matches_status item SessionStatusFilter.all = true
session_matches_status item SessionStatusFilter.pending_approval =
    is_some item.pending_permission || item.session.status == "waiting_approval"
session_matches_status item SessionStatusFilter.running =
    item.session.status == "running" || turn_runs item
session_matches_status item SessionStatusFilter.failed = item.session.status == "failed"
session_matches_status item SessionStatusFilter.view_only_restore =
    is_view_only_or_restore_needed item

-- An empty agent filter is as none.
unfoldable pub session_matches_agent : SessionListItem → Option String → Bool
session_matches_agent item none = true
session_matches_agent item (some agent) = is_empty agent || item.session.agent_id == agent

unfoldable pub pending_approval_session_count : List SessionListItem → ℕ
pending_approval_session_count sessions =
    length
      (filter (λ item. session_matches_status item SessionStatusFilter.pending_approval) sessions)

unfoldable pub filter_cockpit_sessions :
    Host → List SessionListItem → SessionStatusFilter → Option String → List SessionListItem
unfolding sort_sessions_by_latest_activity
filter_cockpit_sessions h sessions status agent = sort_sessions_by_latest_activity h (
    filter (λ item. session_matches_status item status && session_matches_agent item agent)
      sessions)
