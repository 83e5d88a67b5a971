-- ===== src/SessionList/Agreement/Stale.antt =====
-- About frontend/src/app/sessionList.ts: an approval that is resolved after its session is
-- reported idle.
use acp_webui.Common.{
  Option, none, some, List, String, ◌≡◌, refl, ◌∙◌, true, arith, is_some, eq_refl,
}
use acp_webui.Common.Host.{Host, Clock}
use acp_webui.Types.{PermissionResolved, RealtimeEvent, SessionDetail, SessionListItem}
use acp_webui.SessionList.{
  apply_session_list_realtime, change_item, clear_session_list_permission,
  normalize_session_list_status, update_session_list_status,
}
use acp_webui.SessionList.Laws.{KeepsId, item_of, item_of-change_item}

change_held :
    (id : String) (change : SessionListItem → SessionListItem) (sessions : List SessionListItem)
    {item : SessionListItem}
    → KeepsId change
    → item_of id sessions ≡ some item
    → item_of id (change_item id change sessions) ≡ some (change item)
change_held id change sessions keeps held =
    item_of-change_item id change keeps id sessions ∙ ground (arith, held, eq_refl id)

idle_held :
    (h : Host) (c : Clock) (sessions : List SessionListItem) (id : String) (item : SessionListItem)
    → item_of id sessions ≡ some item
    → is_some item.pending_permission ≡ true
    → (x : SessionListItem) × (item_of id (update_session_list_status h c sessions id "idle")
        ≡ some x)
      × (x.session.status ≡ "waiting_approval")
unfolding update_session_list_status normalize_session_list_status
idle_held h c sessions id item held waiting =
    (_, change_held id _ sessions (λ x. refl) held, rw waiting refl)

cleared_held :
    (sessions : List SessionListItem) (id : String) (x : SessionListItem)
    → item_of id sessions ≡ some x
    → (left : SessionListItem) × (item_of id (clear_session_list_permission sessions id)
        ≡ some left)
      × (left.pending_permission ≡ none)
      × (left.session.status ≡ x.session.status)
unfolding clear_session_list_permission
cleared_held sessions id x held = (_, change_held id _ sessions (λ x. refl) held, refl, refl)

module _ (h : Host) (c c' : Clock) (sessions : List SessionListItem) (id : String)
    (item : SessionListItem) (current : Option SessionDetail) where
  -- The list after a session is reported idle and an approval is then resolved.
  abbrev pub idle_then_resolved : PermissionResolved → List SessionListItem
  idle_then_resolved e =
      apply_session_list_realtime h c'
        (apply_session_list_realtime h c sessions (RealtimeEvent.session_status id "idle") current)
        (RealtimeEvent.permission_resolved e) current

  -- If a session of the list that has an approval pending is reported idle and then an approval of
  -- it is resolved, none being next, the list shows the session without an approval, and as waiting
  -- for one, whatever status the resolution reports.
  pub item_of-idle_then_resolved :
      (e : PermissionResolved)
      → e.session_id ≡ id
      → e.next_permission ≡ none
      → item_of id sessions ≡ some item
      → is_some item.pending_permission ≡ true
      → (left : SessionListItem) × (item_of id (idle_then_resolved e) ≡ some left)
        × (left.pending_permission ≡ none)
        × (left.session.status ≡ "waiting_approval")
  unfolding apply_session_list_realtime
  item_of-idle_then_resolved e at last held waiting =
      let (x, found, status) = idle_held h c sessions id item held waiting in
      let (left, cleared, none_left, same) = cleared_held _ id x found in
      (left, rw (last, at) cleared, none_left, same ∙ status)
