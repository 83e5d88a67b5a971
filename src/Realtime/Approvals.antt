-- ===== src/Realtime/Approvals.antt =====
-- About the approvals of the open session in frontend/src/realtime.ts: the queue and the status
-- under requests and resolutions.
use acp_webui.Common.{
  Option, none, some, List, String, ◌==◌, ℕ, ◌≡◌, ◌≢◌, refl, ◌∙◌, Bool, true, false, not, arith,
  filter, is_some, or_else, eq_iff, eq_refl, ap, All, if◌then◌else◌,
}
use acp_webui.Common.Host.{Host, Clock}
use acp_webui.Common.Keyed.Laws.{at_key-filter, at_key-pos, filter-HasDistinctKeys}
use acp_webui.Types.{
  PermissionRequest, PermissionRequested, PermissionResolved, RealtimeEvent, SessionDetail,
}
use acp_webui.Realtime.{run}
use acp_webui.Realtime.Snapshot.{AppSnapshot, normalize_session_status}
use acp_webui.Realtime.Queue.{
  approval_queue, merge_permission_queue, permission_id, sort_permission_queue, stored_queue,
  with_approval_queue,
}
use acp_webui.Realtime.Queue.Laws.{
  HasDistinctIds, approval_queue-HasDistinctIds, at_id, at_id-approval_queue, at_id-merge,
  at_id-sort, merge-HasDistinctIds, with_approval_queue-HasDistinctIds, with_approval_queue-listed,
  with_approval_queue-shown,
}
use acp_webui.Realtime.Permissions.{requested_session, resolved_session}
use acp_webui.Realtime.Invariant.{CurrentHas}
use acp_webui.Realtime.Preserve.{Keeps, run-keeps}

module _ (h : Host) (d : SessionDetail) (distinct : HasDistinctIds (stored_queue d)) where
  module _ (e : PermissionRequested) where
    abbrev active : PermissionRequest
    active = or_else e.active_permission e.permission

    abbrev once : List PermissionRequest
    once = merge_permission_queue h (approval_queue h d) (some active)

    abbrev twice : List PermissionRequest
    twice = merge_permission_queue h once (some e.permission)

    once-HasDistinctIds : HasDistinctIds once
    once-HasDistinctIds =
        merge-HasDistinctIds h (approval_queue h d) (some active)
          (approval_queue-HasDistinctIds h d distinct)

    twice-HasDistinctIds : HasDistinctIds twice
    twice-HasDistinctIds = merge-HasDistinctIds h once (some e.permission) once-HasDistinctIds

    at_id-once :
        (k : String)
        → at_id k once ≡ (if active.id == k then some active else at_id k (stored_queue d))
    at_id-once k =
        at_id-merge h k (approval_queue h d) active (approval_queue-HasDistinctIds h d distinct)
        ∙ ap (λ r. if active.id == k then some active else r) (at_id-approval_queue h k d distinct)

    at_id-twice :
        (k : String)
        → at_id k (sort_permission_queue h twice) ≡ (
            if e.permission.id == k
            then some e.permission
            else if active.id == k
            then some active
            else at_id k (stored_queue d))
    at_id-twice k =
        at_id-sort h k twice twice-HasDistinctIds
        ∙ at_id-merge h k once e.permission once-HasDistinctIds
        ∙ ap (λ r. if e.permission.id == k then some e.permission else r) (at_id-once k)

    -- A request, unless the server counts none pending, given to a session whose queue has distinct
    -- ids: the session waits for approval, shows the request that the server names active (the new
    -- one if it names none), and lists at every id the new request, the active one or what it
    -- listed before, in this order.
    pub requested_recorded :
        e.pending_approval_count ≢ some 0
        → (queue : List PermissionRequest) × ((requested_session h e d).pending_permissions
            ≡ some queue)
          × ((k : String)
              → at_id k queue ≡ (
                  if e.permission.id == k
                  then some e.permission
                  else if active.id == k
                  then some active
                  else at_id k (stored_queue d)))
          × ((requested_session h e d).pending_permission ≡ some active)
          × ((requested_session h e d).session.status ≡ "waiting_approval")
    unfolding requested_session
    requested_recorded counted = (
      sort_permission_queue h twice,
      with_approval_queue-listed h d twice (some active) e.pending_approval_count
          e.queued_approval_count (some "waiting_approval") counted,
      at_id-twice,
      with_approval_queue-shown h d twice active e.pending_approval_count e.queued_approval_count
          (some "waiting_approval") counted
          (at_key-pos permission_id e.permission.id _ {x = e.permission}
            (at_id-twice e.permission.id ∙ rw (eq_refl e.permission.id))),
      unfold with_approval_queue in refl,
    )

    pub requested-HasDistinctIds : HasDistinctIds (stored_queue (requested_session h e d))
    unfolding requested_session
    requested-HasDistinctIds =
        with_approval_queue-HasDistinctIds h d twice _ _ _ _ twice-HasDistinctIds

  module _ (e : PermissionResolved) where
    abbrev remaining : List PermissionRequest
    remaining = filter (λ item. not (item.id == e.permission_id)) (approval_queue h d)

    abbrev next_queue : List PermissionRequest
    next_queue = elim e.next_permission [
      | none ↦ remaining
      | some p ↦ merge_permission_queue h remaining (some p)
    ]

    -- What stands at an id after a resolution.
    abbrev pub left_at : Option PermissionRequest → String → Option PermissionRequest
    left_at none k = if k == e.permission_id then none else at_id k (stored_queue d)
    left_at (some p) k =
        if p.id == k
        then some p
        else if k == e.permission_id
        then none
        else at_id k (stored_queue d)

    remaining-HasDistinctIds : HasDistinctIds remaining
    remaining-HasDistinctIds =
        filter-HasDistinctKeys permission_id _ (approval_queue h d)
          (approval_queue-HasDistinctIds h d distinct)

    at_id-remaining : (k : String) → at_id k remaining ≡ left_at none k
    at_id-remaining k =
        at_key-filter permission_id k e.permission_id (approval_queue h d)
        ∙ ap (λ r. if k == e.permission_id then none else r) (at_id-approval_queue h k d distinct)

    next_queue-HasDistinctIds :
        (next : Option PermissionRequest)
        → HasDistinctIds
            (elim next [ none ↦ remaining | some p ↦ merge_permission_queue h remaining (some p) ])
    next_queue-HasDistinctIds none = remaining-HasDistinctIds
    next_queue-HasDistinctIds (some p) =
        merge-HasDistinctIds h remaining (some p) remaining-HasDistinctIds

    at_id-next_queue :
        (next : Option PermissionRequest) (k : String)
        → at_id k
            (elim next [ none ↦ remaining | some p ↦ merge_permission_queue h remaining (some p) ])
          ≡ left_at next k
    at_id-next_queue none k = at_id-remaining k
    at_id-next_queue (some p) k =
        at_id-merge h k remaining p remaining-HasDistinctIds
        ∙ ap (λ r. if p.id == k then some p else r) (at_id-remaining k)

    -- A resolution, unless the server counts none pending, given to a session whose queue has
    -- distinct ids: the session lists nothing at the resolved id, unless the next request has that
    -- id, the next request at its id, and every other request as before.
    pub resolved_removed :
        e.pending_approval_count ≢ some 0
        → (queue : List PermissionRequest) × ((resolved_session h e d).pending_permissions
            ≡ some queue)
          × ((k : String) → at_id k queue ≡ left_at e.next_permission k)
    unfolding resolved_session
    resolved_removed counted = (
      sort_permission_queue h next_queue,
      with_approval_queue-listed h d next_queue e.next_permission _ _ _ counted,
      λ k.
          at_id-sort h k next_queue (next_queue-HasDistinctIds e.next_permission)
          ∙ at_id-next_queue e.next_permission k,
    )

    pub resolved-HasDistinctIds : HasDistinctIds (stored_queue (resolved_session h e d))
    unfolding resolved_session
    resolved-HasDistinctIds =
        with_approval_queue-HasDistinctIds h d next_queue _ _ _ _
          (next_queue-HasDistinctIds e.next_permission)

-- A session with an approval pending is not shown as idle, and its queue has distinct ids.
pub record IsAwaited (d : SessionDetail) : Type 0 where
  pub not_idle : is_some d.pending_permission ≡ true → d.session.status ≢ "idle"
  pub distinct : HasDistinctIds (stored_queue d)

-- What the server promises: it reports a session idle after a resolution only with none pending.
abbrev pub IsHonest : RealtimeEvent → Type 0
IsHonest (RealtimeEvent.permission_resolved e) =
    e.status ≡ some "idle" → e.pending_approval_count ≡ some 0
IsHonest _ = Unit

normalize-not_idle :
    (status : String) (has_pending : Bool)
    → has_pending ≡ true
    → normalize_session_status status has_pending ≢ "idle"
unfolding normalize_session_status
normalize-not_idle status true _ e =
    ground (arith, eq_iff status "idle", eq_iff "waiting_approval" "idle")
normalize-not_idle status false e _ = cc

with_approval_queue-not_idle :
    (h : Host) (d : SessionDetail) (queue : List PermissionRequest)
    (active : Option PermissionRequest) (pending queued : Option ℕ) (status : String)
    → (status ≡ "idle" → pending ≡ some 0)
    → (let d' = with_approval_queue h d queue active pending queued (some status) in
        is_some d'.pending_permission ≡ true → d'.session.status ≢ "idle")
unfolding with_approval_queue
with_approval_queue-not_idle h d queue active pending queued status honest shown idle =
    ground (arith, honest idle)

requested-IsAwaited :
    (h : Host) (d : SessionDetail) (e : PermissionRequested)
    → IsAwaited d
    → IsAwaited (requested_session h e d)
unfolding requested_session
requested-IsAwaited h d e v = record {
  not_idle =
      with_approval_queue-not_idle h d _ _ _ _ "waiting_approval"
        (λ e. ground (arith, e, eq_iff "waiting_approval" "idle"));
  distinct = requested-HasDistinctIds h d v.distinct e;
}

resolved-status :
    (status : Option String) (more : Bool) (pending : Option ℕ)
    → (status ≡ some "idle" → pending ≡ some 0)
    → or_else status (if more then "waiting_approval" else "running") ≡ "idle"
    → pending ≡ some 0
resolved-status (some s) more pending honest idle = honest (ap some idle)
resolved-status none true pending honest idle =
    ground (arith, idle, eq_iff "waiting_approval" "idle")
resolved-status none false pending honest idle = ground (arith, idle, eq_iff "running" "idle")

resolved-IsAwaited :
    (h : Host) (d : SessionDetail) (e : PermissionResolved)
    → IsHonest (RealtimeEvent.permission_resolved e)
    → IsAwaited d
    → IsAwaited (resolved_session h e d)
unfolding resolved_session
resolved-IsAwaited h d e honest v = record {
  not_idle =
      with_approval_queue-not_idle h d _ _ _ _ _
        (resolved-status e.status (is_some e.next_permission) e.pending_approval_count honest);
  distinct = resolved-HasDistinctIds h d v.distinct e;
}

IsAwaited-keeps : (h : Host) → Keeps h IsHonest IsAwaited
IsAwaited-keeps h = record {
  messages = λ d _ v. record { not_idle = v.not_idle; distinct = v.distinct };
  status = λ d new v. record {
    not_idle = normalize-not_idle new (is_some d.pending_permission);
    distinct = v.distinct;
  };
  turn = λ d _ v. record { not_idle = v.not_idle; distinct = v.distinct };
  config = λ d _ _ v. record { not_idle = v.not_idle; distinct = v.distinct };
  prompts = λ d _ v. record { not_idle = v.not_idle; distinct = v.distinct };
  artifacts = λ d _ v. record { not_idle = v.not_idle; distinct = v.distinct };
  timeline = λ d _ v. record { not_idle = v.not_idle; distinct = v.distinct };
  restore = λ d _ _ v. record { not_idle = v.not_idle; distinct = v.distinct };
  requested = λ d e _. requested-IsAwaited h d e;
  resolved = λ d e. resolved-IsAwaited h d e;
}

-- Through every run of events in which the server reports a session idle with a resolution only if
-- it counts none pending, an open session that starts so is never shown as idle while it shows an
-- approval pending, and the ids of its queue stay distinct.
pub run-IsAwaited :
    (h : Host) (state : AppSnapshot) (events : List (Clock × RealtimeEvent))
    → All (λ e. IsHonest e.1) events
    → CurrentHas IsAwaited state.current_session
    → CurrentHas IsAwaited (run h state events).current_session
run-IsAwaited h = run-keeps h IsHonest IsAwaited (IsAwaited-keeps h)
