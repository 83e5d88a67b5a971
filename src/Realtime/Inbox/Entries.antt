-- ===== src/Realtime/Inbox/Entries.antt =====
-- About the inbox of frontend/src/realtime.ts: the entry of a session after a request or a resolution.
use acp_webui.Common.{
  Option, none, some, List, [], ◌∷◌, String, ◌==◌, ◌-◌, ◌≡◌, refl, ◌∙◌, arith, flat_map, or_else,
  eq_iff, Bool-cases, Option-cases, inl, inr, if◌then◌else◌,
}
use acp_webui.Common.Host.{Host}
use acp_webui.Types.{
  InboxItem, PermissionRequest, PermissionRequested, PermissionResolved, SessionDetail,
}
use acp_webui.Realtime.Snapshot.{AppSnapshot}
use acp_webui.Realtime.Queue.{with_approval_queue}
use acp_webui.Realtime.Permissions.{
  added_inbox, apply_permission_requested, apply_permission_resolved, change_current,
  requested_session, resolved_inbox_item, waiting_item,
}
use acp_webui.Realtime.Inbox.{entry_of, entry_of-mark}

-- The entry that a request makes or changes, from the entry before and the open session.
abbrev pub requested_entry :
    PermissionRequested → Option InboxItem → Option SessionDetail → Option InboxItem
requested_entry e (some item) current = some (record item {
  session = record item.session { status = "waiting_approval" };
  permission = or_else e.active_permission e.permission;
  queued_approval_count =
      some (or_else e.queued_approval_count (or_else e.pending_approval_count 1 - 1));
})
requested_entry e none none = none
requested_entry e none (some d) =
    if d.session.id == e.permission.session_id
    then some (record {
      session = record d.session { status = "waiting_approval" };
      workspace = d.workspace;
      permission = or_else e.active_permission e.permission;
      queued_approval_count =
          some (or_else e.queued_approval_count (or_else e.pending_approval_count 1 - 1));
    })
    else none

requested_session-shown :
    (h : Host) (e : PermissionRequested) (d : SessionDetail)
    → ((requested_session h e d).session ≡ record d.session { status = "waiting_approval" })
      × ((requested_session h e d).workspace ≡ d.workspace)
unfolding requested_session with_approval_queue
requested_session-shown h e d = (refl, refl)

entry_of-added :
    (h : Host) (e : PermissionRequested) (k : String) (current : Option SessionDetail)
    (inbox : List InboxItem)
    → entry_of e.permission.session_id inbox ≡ none
    → entry_of k (
        added_inbox e.permission.session_id
          (or_else e.active_permission e.permission)
          (or_else e.queued_approval_count (or_else e.pending_approval_count 1 - 1))
          (change_current e.permission.session_id (requested_session h e) current)
          inbox)
      ≡ (if e.permission.session_id == k then requested_entry e none current else entry_of k inbox)
unfolding added_inbox change_current requested_session with_approval_queue
entry_of-added h e k none inbox new = ground (arith, eq_iff e.permission.session_id k)
entry_of-added h e k (some d) inbox new =
    elim (Bool-cases (d.session.id == e.permission.session_id)) [
      | inl same ↦ ground (
        arith,
        requested_session-shown h e d,
        eq_iff d.session.id e.permission.session_id,
        eq_iff d.session.id k,
        eq_iff e.permission.session_id k,
      )
      | inr other ↦ ground (arith, eq_iff e.permission.session_id k)
    ]

-- A request gives its session an entry of the inbox that holds the active request and the count of
-- the queued ones and whose session waits for an approval, by changing the entry it has or by
-- adding one if it is the open session, and leaves every other session's entry.
pub entry_of-requested :
    (h : Host) (state : AppSnapshot) (e : PermissionRequested) (k : String)
    → entry_of k (apply_permission_requested h state e).inbox ≡ (
        if e.permission.session_id == k
        then requested_entry e (entry_of e.permission.session_id state.inbox) state.current_session
        else entry_of k state.inbox)
unfolding apply_permission_requested waiting_item
entry_of-requested h state e k =
    elim (Option-cases (entry_of e.permission.session_id state.inbox)) [
      | inr (item, old) ↦ rw old (entry_of-mark _ _ _ k state.inbox ∙ rw old)
      | inl new ↦ rw new (entry_of-added h e k state.current_session state.inbox new)
    ]

-- The entry that a resolution with a next request leaves, from the entry before.
abbrev pub resolved_entry :
    PermissionResolved → PermissionRequest → Option InboxItem → Option InboxItem
resolved_entry e p none = none
resolved_entry e p (some item) = some (record item {
  session = record item.session { status = "waiting_approval" };
  permission = p;
  queued_approval_count = some (or_else e.queued_approval_count 0);
})

entry_of-kept :
    (e : PermissionResolved) (k : String) (inbox : List InboxItem)
    → entry_of k (flat_map (resolved_inbox_item e) inbox) ≡ (
        if e.session_id == k
        then elim e.next_permission [ none ↦ none | some p ↦ resolved_entry e p (entry_of k inbox) ]
        else entry_of k inbox)
unfolding resolved_inbox_item waiting_item
entry_of-kept e k [] = ground arith
entry_of-kept e k (item ∷ inbox) = ground (
  arith,
  entry_of-kept e k inbox,
  eq_iff item.session.id e.session_id,
  eq_iff item.session.id k,
  eq_iff e.session_id k,
)

-- A resolution without a next request takes the entry of its session out of the inbox; one with a
-- next request puts that request and the count of the queued ones in the entry, if there is one,
-- and its session waits for an approval; every other session's entry stays.
pub entry_of-resolved :
    (h : Host) (state : AppSnapshot) (e : PermissionResolved) (k : String)
    → entry_of k (apply_permission_resolved h state e).inbox ≡ (
        if e.session_id == k
        then elim e.next_permission [
          | none ↦ none
          | some p ↦ resolved_entry e p (entry_of k state.inbox)
        ]
        else entry_of k state.inbox)
unfolding apply_permission_resolved
entry_of-resolved h state e k = entry_of-kept e k state.inbox
