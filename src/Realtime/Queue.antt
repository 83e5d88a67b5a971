-- ===== src/Realtime/Queue.antt =====
-- realtime.ts: the queue of pending approvals of a session.
pub mod Laws
pub mod Ordered
use acp_webui.Common.{
  Option, none, some, List, [], ◌∷◌, String, ℕ, ◌-◌, Bool, Ordering, true, false, length, head?,
  ltb, is_gt, is_some, or_else, or_else?, if◌then◌else◌,
}
use acp_webui.Common.Host.{Host, date_order}
use acp_webui.Common.Sort.{sort}
use acp_webui.Common.Keyed.{upsert}
use acp_webui.Types.{PermissionRequest, SessionDetail}
use acp_webui.Realtime.Snapshot.{with_status}

abbrev pub permission_id : PermissionRequest → String
permission_id p = p.id

-- The comparator of `sortPermissionQueue`: by date, and by id where the dates are equal or unreadable.
unfoldable pub permission_after : Host → PermissionRequest → PermissionRequest → Bool
unfolding date_order
permission_after h left right = elim (date_order h left.created_at right.created_at) [
  | Ordering.lt ↦ false
  | Ordering.gt ↦ true
  | Ordering.eq ↦ is_gt (h.locale_compare left.id right.id)
]

unfoldable pub sort_permission_queue : Host → List PermissionRequest → List PermissionRequest
unfolding sort permission_after
sort_permission_queue h queue = sort (permission_after h) queue

-- `pendingPermissions?.length ? pendingPermissions : pendingPermission ? [pendingPermission] : []`
abbrev pub queue_or_single :
    Option (List PermissionRequest) → Option PermissionRequest → List PermissionRequest
queue_or_single (some (p ∷ ps)) _ = p ∷ ps
queue_or_single _ none = []
queue_or_single _ (some p) = p ∷ []

-- The queue as the session holds it, before it is sorted.
abbrev pub stored_queue : SessionDetail → List PermissionRequest
stored_queue d = queue_or_single d.pending_permissions d.pending_permission

unfoldable pub approval_queue : Host → SessionDetail → List PermissionRequest
unfolding sort_permission_queue
approval_queue h d = sort_permission_queue h (stored_queue d)

unfoldable pub merge_permission_queue :
    Host → List PermissionRequest → Option PermissionRequest → List PermissionRequest
unfolding sort_permission_queue upsert
merge_permission_queue h queue none = sort_permission_queue h queue
merge_permission_queue h queue (some p) = sort_permission_queue h (upsert permission_id p queue)

unfoldable pub with_approval_queue :
    Host
    → SessionDetail
    → List PermissionRequest
    → Option PermissionRequest
    → Option ℕ
    → Option ℕ
    → Option String
    → SessionDetail
unfolding sort_permission_queue
with_approval_queue h d queue active_permission pending_count queued_count next_status =
    let normalized_queue = sort_permission_queue h queue in
    let count = or_else pending_count (length normalized_queue) in
    let active =
      if ltb 0 count then or_else? active_permission (head? normalized_queue) else none in
    record (with_status d
      (or_else next_status (if is_some active then "waiting_approval" else d.session.status))) {
        pending_permission = active;
        pending_permissions = some (if ltb 0 count then normalized_queue else []);
        pending_approval_count = some count;
        queued_approval_count = some (or_else queued_count (count - 1));
      }
