-- ===== src/Realtime/Permissions.antt =====
-- realtime.ts: a permission is requested or resolved. Both the open session and the inbox follow.
use acp_webui.Common.{
  Option, none, some, List, [], ◌∷◌, map, String, ◌==◌, ℕ, ◌-◌, not, filter, find, flat_map,
  is_some, or_else, if◌then◌else◌,
}
use acp_webui.Common.Host.{Host}
use acp_webui.Types.{
  InboxItem, PermissionRequest, PermissionRequested, PermissionResolved, SessionDetail,
}
use acp_webui.Realtime.Snapshot.{AppSnapshot}
use acp_webui.Realtime.Queue.{approval_queue, merge_permission_queue, with_approval_queue}

-- The open session, if it has the id, with `change` applied.
unfoldable pub change_current :
    String → (SessionDetail → SessionDetail) → Option SessionDetail → Option SessionDetail
change_current id change none = none
change_current id change (some d) = some (if d.session.id == id then change d else d)

-- `{ ...item, permission, queuedApprovalCount, session: { ...item.session, status } }`
unfoldable pub waiting_item : InboxItem → PermissionRequest → ℕ → InboxItem
waiting_item item active count = record item {
  session = record item.session { status = "waiting_approval" };
  permission = active;
  queued_approval_count = some count;
}

unfoldable pub requested_session : Host → PermissionRequested → SessionDetail → SessionDetail
requested_session h e d =
    let active = or_else e.active_permission e.permission in
    with_approval_queue h d
      (merge_permission_queue h (merge_permission_queue h (approval_queue h d) (some active))
        (some e.permission))
      (some active) e.pending_approval_count e.queued_approval_count (some "waiting_approval")

-- The open session goes to the front of an inbox that does not hold it.
unfoldable pub added_inbox :
    String → PermissionRequest → ℕ → Option SessionDetail → List InboxItem → List InboxItem
added_inbox id active count none inbox = inbox
added_inbox id active count (some d) inbox =
    if d.session.id == id
    then record {
      session = d.session;
      workspace = d.workspace;
      permission = active;
      queued_approval_count = some count;
    }
      ∷ inbox
    else inbox

unfoldable pub apply_permission_requested : Host → AppSnapshot → PermissionRequested → AppSnapshot
unfolding change_current waiting_item requested_session added_inbox
apply_permission_requested h state e =
    let id = e.permission.session_id in
    let active = or_else e.active_permission e.permission in
    let current = change_current id (requested_session h e) state.current_session in
    let count = or_else e.queued_approval_count (or_else e.pending_approval_count 1 - 1) in
    if is_some (find (λ item. item.session.id == id) state.inbox)
    then record state {
      current_session = current;
      inbox =
          map (λ item. if item.session.id == id then waiting_item item active count else item)
            state.inbox;
    }
    else record state {
      current_session = current;
      inbox = added_inbox id active count current state.inbox;
    }

unfoldable pub resolved_session : Host → PermissionResolved → SessionDetail → SessionDetail
resolved_session h e d =
    let remaining = filter (λ item. not (item.id == e.permission_id)) (approval_queue h d) in
    with_approval_queue h d
      (elim e.next_permission [
        | none ↦ remaining
        | some p ↦ merge_permission_queue h remaining (some p)
      ])
      e.next_permission e.pending_approval_count e.queued_approval_count
      (some
        (or_else e.status (if is_some e.next_permission then "waiting_approval" else "running")))

unfoldable pub resolved_inbox_item : PermissionResolved → InboxItem → List InboxItem
unfolding waiting_item
resolved_inbox_item e item =
    if item.session.id == e.session_id
    then elim e.next_permission [
      | none ↦ []
      | some p ↦ waiting_item item p (or_else e.queued_approval_count 0) ∷ []
    ]
    else item ∷ []

unfoldable pub apply_permission_resolved : Host → AppSnapshot → PermissionResolved → AppSnapshot
unfolding change_current resolved_session resolved_inbox_item
apply_permission_resolved h state e = record state {
  current_session = change_current e.session_id (resolved_session h e) state.current_session;
  inbox = flat_map (resolved_inbox_item e) state.inbox;
}
