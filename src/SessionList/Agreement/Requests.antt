-- ===== src/SessionList/Agreement/Requests.antt =====
-- About the list and the open session when an approval is requested.
use acp_webui.Common.{
  some, List, [], ◌∷◌, ℕ, ◌<◌, ◌==◌, ◌≢◌, refl, ap, Bool, arith, any, length, is_some, or_else,
  Bool-cases, inl, inr,
}
use acp_webui.Common.Host.{Host}
use acp_webui.Common.Sort.{insert, sort}
use acp_webui.Common.Keyed.{replace, upsert}
use acp_webui.Types.{PermissionRequest, PermissionRequested, SessionDetail, SessionListItem}
use acp_webui.Realtime.Queue.{
  approval_queue, merge_permission_queue, permission_after, permission_id, sort_permission_queue,
  with_approval_queue,
}
use acp_webui.Realtime.Queue.Laws.{with_approval_queue-shown}
use acp_webui.Realtime.Permissions.{requested_session}
use acp_webui.SessionList.{list_permission, waiting_list_item}
use acp_webui.SessionList.Agreement.{Agrees}

insert-pos :
    (after : PermissionRequest → PermissionRequest → Bool) (x : PermissionRequest)
    (xs : List PermissionRequest)
    → 0 < length (insert after x xs)
unfolding insert
insert-pos after x [] = ground arith
insert-pos after x (y ∷ ys) = ground arith

sort-pos :
    (after : PermissionRequest → PermissionRequest → Bool) (xs : List PermissionRequest)
    → 0 < length xs
    → 0 < length (sort after xs)
unfolding sort
sort-pos after [] pos = pos
sort-pos after (x ∷ xs) pos = insert-pos after x (sort after xs)

upsert-pos :
    (p : PermissionRequest) (xs : List PermissionRequest) → 0 < length (upsert permission_id p xs)
unfolding upsert replace
upsert-pos p [] = ground arith
upsert-pos p (x ∷ xs) = elim (Bool-cases (any (λ q. q.id == p.id) (x ∷ xs))) [
  | inl old ↦ rw old (ground arith)
  | inr new ↦ rw new (ground arith)
]

merged-pos :
    (h : Host) (queue : List PermissionRequest) (p : PermissionRequest)
    → 0 < length (sort_permission_queue h (merge_permission_queue h queue (some p)))
unfolding merge_permission_queue sort_permission_queue
merged-pos h queue p =
    sort-pos (permission_after h) _ (sort-pos (permission_after h) _ (upsert-pos p queue))

-- After a request, unless the server counts none pending, both wait for approval.
pub requested-Agrees :
    (h : Host) (e : PermissionRequested) (d : SessionDetail) (item : SessionListItem) (count : ℕ)
    → e.pending_approval_count ≢ some 0
    → Agrees d item
    → Agrees
        (requested_session h e d)
        (waiting_list_item item (list_permission (or_else e.active_permission e.permission)) count)
unfolding requested_session
requested-Agrees h e d item count counted v =
    let active = or_else e.active_permission e.permission in
    let queue =
      merge_permission_queue h (merge_permission_queue h (approval_queue h d) (some active))
        (some e.permission) in
    let shown =
      with_approval_queue-shown h d queue active e.pending_approval_count e.queued_approval_count
        (some "waiting_approval") counted
        (merged-pos h (merge_permission_queue h (approval_queue h d) (some active)) e.permission) in
    record {
      status = unfold with_approval_queue in refl;
      waiting = ap is_some shown;
      turn = unfold with_approval_queue in v.turn;
      model = unfold with_approval_queue in v.model;
      queued = unfold with_approval_queue in v.queued;
      continuity = unfold with_approval_queue in v.continuity;
      continuable = unfold with_approval_queue in v.continuable;
      reason = unfold with_approval_queue in v.reason;
    }
