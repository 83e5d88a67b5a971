-- ===== src/App/Resolve.antt =====
-- About resolvePermission of frontend/src/App.tsx: the change that the page makes by itself, and
-- the change that the server's event makes.
use acp_webui.Common.{
  none, some, List, [], ◌∷◌, String, ℕ, suc, ◌-◌, ◌==◌, ◌≡◌, ◌≢◌, refl, ◌∙◌, ap, true, not, arith,
  All, filter, head?, is_some, length, Bool, false, ltb, eq_refl, if◌then◌else◌,
}
use acp_webui.Common.Host.{Host, Clock}
use acp_webui.Common.Sort.{sort}
use acp_webui.Common.Sort.Laws.{IsSorted, filter-IsSorted, sort_of_IsSorted}
use acp_webui.Common.Keyed.Laws.{Holds, filter-HasDistinctKeys, upsert_of_Holds}
use acp_webui.Types.{PermissionRequest, PermissionResolved, SessionDetail}
use acp_webui.Realtime.Queue.{
  approval_queue, merge_permission_queue, permission_after, permission_id, sort_permission_queue,
  stored_queue, with_approval_queue,
}
use acp_webui.Realtime.Queue.Laws.{HasDistinctIds, approval_queue-HasDistinctIds}
use acp_webui.Realtime.Queue.Ordered.{HasDate, IsCollation, sort_permission_queue-IsSorted}
use acp_webui.Realtime.Permissions.{resolved_session}
use acp_webui.App.State.{UiState}
use acp_webui.App.Details.{detail_after_resolved_permission, pending_permission_queue}
use acp_webui.App.Actions.{permission_answered}

-- An element that no later one shares its key with is the only one with its key.
head-Holds :
    (p : PermissionRequest) (rest : List PermissionRequest)
    → HasDistinctIds (p ∷ rest)
    → Holds permission_id p (p ∷ rest)
head-Holds p rest (apart, _) = (λ _. refl, others rest apart)
  where
    others : (xs : List PermissionRequest) → All (λ y. y.id ≢ p.id) xs → Holds permission_id p xs
    others [] v = tt
    others (x ∷ xs) (q, v) = (λ same. absurd (q same), others xs v)

ltb_pos : (n : ℕ) → ltb 0 (suc n) ≡ true
ltb_pos n = ground arith

module _ (h : Host) where
  -- An ordered queue with distinct ids is left alone if its own first request is merged into it.
  merge-head :
      (p : PermissionRequest) (rest : List PermissionRequest)
      → HasDistinctIds (p ∷ rest)
      → IsSorted (permission_after h) (p ∷ rest)
      → merge_permission_queue h (p ∷ rest) (some p) ≡ p ∷ rest
  unfolding merge_permission_queue sort_permission_queue
  merge-head p rest distinct sorted =
      ap (sort (permission_after h)) (
        upsert_of_Holds permission_id p (p ∷ rest) (rw (eq_refl p.id) refl)
          (head-Holds p rest distinct))
      ∙ sort_of_IsSorted (permission_after h) (p ∷ rest) sorted

  abbrev left_after : SessionDetail → String → List PermissionRequest
  left_after d id = filter (λ p. not (p.id == id)) (approval_queue h d)

  -- What the server reports when the request with the id is resolved: what is left, its first request
  -- as the next one, and the status, which is that of a turn where nothing is left: `turn_active`
  -- tells whether a turn is active there.
  abbrev pub resolution_of : SessionDetail → String → (turn_active : Bool) → PermissionResolved
  resolution_of d id turn_active =
      let pending = left_after d id in
      record {
        session_id = d.session.id;
        permission_id = id;
        next_permission = head? pending;
        status = some (
            if is_some (head? pending)
            then "waiting_approval"
            else if turn_active
            then "running"
            else "idle");
        pending_approval_count = some (length pending);
        queued_approval_count = some (length pending - 1);
      }

  -- The session with the queue that is left.
  with_left :
      (d : SessionDetail) (queue : List PermissionRequest) (status : String)
      → HasDistinctIds queue
      → IsSorted (permission_after h) queue
      → with_approval_queue h d
          (elim (head? queue) [ none ↦ queue | some p ↦ merge_permission_queue h queue (some p) ])
          (head? queue)
          (some (length queue))
          (some (length queue - 1))
          (some status)
        ≡ record d {
          pending_permission = head? queue;
          pending_permissions = some queue;
          pending_approval_count = some (length queue);
          queued_approval_count = some (length queue - 1);
          session = record d.session { status = status };
        }
  unfolding with_approval_queue sort_permission_queue sort
  with_left d [] status distinct sorted = refl
  with_left d (p ∷ rest) status distinct sorted =
      rw
        (
          merge-head p rest distinct sorted,
          sort_of_IsSorted (permission_after h) (p ∷ rest) sorted,
          ltb_pos (length rest),
        )
        refl

  -- The status of the session that the page shows by itself, made what the server reports.
  abbrev pub at_status : SessionDetail → String → (turn_active : Bool) → SessionDetail
  at_status d id turn_active =
      let shown = detail_after_resolved_permission h d id in
      record shown {
        session = record shown.session {
          status =
              if is_some shown.pending_permission
              then "waiting_approval"
              else if turn_active
              then "running"
              else "idle";
        };
      }

  resolved_session-at_status :
      (d : SessionDetail) (id : String) (turn_active : Bool)
      → IsCollation h
      → HasDistinctIds (stored_queue d)
      → All (HasDate h) (stored_queue d)
      → resolved_session h (resolution_of d id turn_active) d ≡ at_status d id turn_active
  unfolding detail_after_resolved_permission resolved_session approval_queue sort_permission_queue
  resolved_session-at_status d id turn_active collation distinct dated =
      with_left d (left_after d id) _
        (filter-HasDistinctKeys permission_id _ (approval_queue h d)
          (approval_queue-HasDistinctIds h d distinct))
        (filter-IsSorted (permission_after h) _ (approval_queue h d)
          (sort_permission_queue-IsSorted h collation (stored_queue d) dated))

  -- When the user has answered an approval, the server's resolution makes the session what the page
  -- has made it by itself, if a turn is active in it, and else the same but for the status, which
  -- is idle if no approval is left, where the page says running. The resolution reports what is
  -- left, its first request as the next one and the status; the queue has distinct ids and readable
  -- dates, and the comparison of ids is an order.
  pub detail_after_resolved_permission_eq :
      (d : SessionDetail) (id : String)
      → IsCollation h
      → HasDistinctIds (stored_queue d)
      → All (HasDate h) (stored_queue d)
      → (resolved_session h (resolution_of d id true) d ≡ detail_after_resolved_permission h d id)
        × (resolved_session h (resolution_of d id false) d ≡ at_status d id false)
  unfolding detail_after_resolved_permission
  detail_after_resolved_permission_eq d id collation distinct dated = (
    resolved_session-at_status d id true collation distinct dated,
    resolved_session-at_status d id false collation distinct dated,
  )

  -- When the response to an answered approval arrives, an open session that has no approval
  -- pending, whether the approval is of it or of another session, is shown as running afterwards.
  pub permission_answered_elsewhere :
      (c : Clock) (current : UiState) (p : PermissionRequest) (d : SessionDetail)
      → current.current_session ≡ some d
      → stored_queue d ≡ []
      → (e : SessionDetail) × ((permission_answered h c current p).current_session ≡ some e)
        × (e.session.id ≡ d.session.id)
        × (e.session.status ≡ "running")
  unfolding permission_answered detail_after_resolved_permission pending_permission_queue sort
  permission_answered_elsewhere c current p d shown idle =
      (detail_after_resolved_permission h d p.id, rw shown refl, refl, rw idle refl)
