-- ===== src/Realtime/Identity.antt =====
-- About frontend/src/realtime.ts: which session an event of the server is about.
use acp_webui.Common.{
  Option, none, some, List, [], ◌∷◌, String, ◌≡◌, ◌≢◌, refl, sym, ap, inl, inr, Option-cases, ◌∙◌,
  arith, eq_iff,
}
use acp_webui.Common.Host.{Host, Clock}
use acp_webui.Types.{
  PermissionRequested, PermissionResolved, RealtimeEvent, SessionDetail, item_session_id,
}
use acp_webui.Realtime.{apply_realtime_event, run}
use acp_webui.Realtime.Snapshot.{AppSnapshot, on_current}
use acp_webui.Realtime.Continuity.{apply_session_restore_event}
use acp_webui.Realtime.Queue.{with_approval_queue}
use acp_webui.Realtime.Permissions.{
  apply_permission_requested, apply_permission_resolved, change_current, requested_session,
  resolved_session,
}
use acp_webui.Realtime.Timeline.{apply_review_artifact, apply_timeline_item_upsert}

-- The session whose detail an event changes; `none` for an event that changes no detail.
abbrev pub event_session : RealtimeEvent → Option String
event_session (RealtimeEvent.text_delta id _) = some id
event_session (RealtimeEvent.assistant_message id _) = some id
event_session (RealtimeEvent.session_status id _) = some id
event_session (RealtimeEvent.permission_requested e) = some e.permission.session_id
event_session (RealtimeEvent.permission_resolved e) = some e.session_id
event_session (RealtimeEvent.review_artifact a) = some a.session_id
event_session (RealtimeEvent.timeline_item_upsert item) = some (item_session_id item)
event_session (RealtimeEvent.session_restore_started id) = some id
event_session (RealtimeEvent.session_restore_succeeded id) = some id
event_session (RealtimeEvent.session_restore_failed id _) = some id
event_session (RealtimeEvent.session_config_updated id _ _) = some id
event_session (RealtimeEvent.active_turn_updated id _ _) = some id
event_session (RealtimeEvent.queued_prompts_updated id _) = some id
event_session _ = none

-- The parts of the state that show the open session.
abbrev pub ShowsSame : AppSnapshot → AppSnapshot → Type 0
ShowsSame s t = (s.current_session ≡ t.current_session) × (s.live_assistant ≡ t.live_assistant)

on_current-other :
    (state : AppSnapshot) (id : String) (rest : SessionDetail → AppSnapshot) {d : SessionDetail}
    → state.current_session ≡ some d
    → (d.session.id ≢ id)
    → on_current state id rest ≡ state
unfolding on_current
on_current-other state id rest {d} e other = ground (arith, eq_iff d.session.id id)

change_current-other :
    (id : String) (change : SessionDetail → SessionDetail) (current : Option SessionDetail)
    {d : SessionDetail}
    → current ≡ some d
    → (d.session.id ≢ id)
    → change_current id change current ≡ current
unfolding change_current
change_current-other id change none e other = refl
change_current-other id change (some x) {d} e other = ground (arith, eq_iff x.session.id id)

-- The open session after a permission event.
pub current-requested :
    (h : Host) (state : AppSnapshot) (e : PermissionRequested)
    → (apply_permission_requested h state e).current_session
      ≡ change_current e.permission.session_id (requested_session h e) state.current_session
unfolding apply_permission_requested
current-requested h state e = ground arith

pub current-resolved :
    (h : Host) (state : AppSnapshot) (e : PermissionResolved)
    → (apply_permission_resolved h state e).current_session
      ≡ change_current e.session_id (resolved_session h e) state.current_session
unfolding apply_permission_resolved
current-resolved h state e = refl

live-requested :
    (h : Host) (state : AppSnapshot) (e : PermissionRequested)
    → (apply_permission_requested h state e).live_assistant ≡ state.live_assistant
unfolding apply_permission_requested
live-requested h state e = ground arith

live-resolved :
    (h : Host) (state : AppSnapshot) (e : PermissionResolved)
    → (apply_permission_resolved h state e).live_assistant ≡ state.live_assistant
unfolding apply_permission_resolved
live-resolved h state e = refl

module _ (h : Host) (c : Clock) (state : AppSnapshot) {d : SessionDetail}
    (current : state.current_session ≡ some d) where
  guarded :
      (id : String) (rest : SessionDetail → AppSnapshot)
      → some id ≢ some d.session.id
      → ShowsSame (on_current state id rest) state
  guarded id rest other =
      rw (on_current-other state id rest current (λ same. other (ap some (sym same)))) (refl, refl)

  -- An event that is not about the open session leaves the open session and its streamed text as
  -- they are.
  pub apply-other_session :
      (event : RealtimeEvent)
      → event_session event ≢ some d.session.id
      → ShowsSame (apply_realtime_event h c state event) state
  unfolding apply_realtime_event apply_session_restore_event apply_review_artifact
      apply_timeline_item_upsert
  apply-other_session (RealtimeEvent.text_delta id _) other = guarded id _ other
  apply-other_session (RealtimeEvent.assistant_message id _) other = guarded id _ other
  apply-other_session (RealtimeEvent.session_status id _) other = guarded id _ other
  apply-other_session (RealtimeEvent.permission_requested e) other = (
    current-requested h state e
        ∙ change_current-other _ _ state.current_session current
            (λ same. other (ap some (sym same))),
    live-requested h state e,
  )
  apply-other_session (RealtimeEvent.permission_resolved e) other = (
    current-resolved h state e
        ∙ change_current-other _ _ state.current_session current
            (λ same. other (ap some (sym same))),
    live-resolved h state e,
  )
  apply-other_session (RealtimeEvent.review_artifact a) other = guarded a.session_id _ other
  apply-other_session (RealtimeEvent.timeline_item_upsert item) other =
      guarded (item_session_id item) _ other
  apply-other_session (RealtimeEvent.session_restore_started id) other = guarded id _ other
  apply-other_session (RealtimeEvent.session_restore_succeeded id) other = guarded id _ other
  apply-other_session (RealtimeEvent.session_restore_failed id _) other = guarded id _ other
  apply-other_session (RealtimeEvent.session_config_updated id _ _) other = guarded id _ other
  apply-other_session (RealtimeEvent.active_turn_updated id _ _) other = guarded id _ other
  apply-other_session (RealtimeEvent.queued_prompts_updated id _) other = guarded id _ other
  apply-other_session _ other = (refl, refl)

abbrev pub current_id : Option SessionDetail → Option String
current_id none = none
current_id (some d) = some d.session.id

change_current-id :
    (id : String) (change : SessionDetail → SessionDetail) (current : Option SessionDetail)
    → ((d : SessionDetail) → (change d).session.id ≡ d.session.id)
    → current_id (change_current id change current) ≡ current_id current
unfolding change_current
change_current-id id change none keeps = refl
change_current-id id change (some d) keeps = ground (arith, keeps d)

on_current-id :
    (state : AppSnapshot) (id : String) (rest : SessionDetail → AppSnapshot)
    → ((d : SessionDetail)
        → state.current_session ≡ some d
        → current_id (rest d).current_session ≡ some d.session.id)
    → current_id (on_current state id rest).current_session ≡ current_id state.current_session
unfolding on_current
on_current-id state id rest keeps = elim (Option-cases state.current_session) [
  | inl e ↦ ground arith
  | inr (d, e) ↦ ground (arith, keeps d e)
]

requested_session-id :
    (h : Host) (e : PermissionRequested) (d : SessionDetail)
    → (requested_session h e d).session.id ≡ d.session.id
unfolding requested_session with_approval_queue
requested_session-id h e d = refl

resolved_session-id :
    (h : Host) (e : PermissionResolved) (d : SessionDetail)
    → (resolved_session h e d).session.id ≡ d.session.id
unfolding resolved_session with_approval_queue
resolved_session-id h e d = refl

apply-id :
    (h : Host) (c : Clock) (state : AppSnapshot) (event : RealtimeEvent)
    → current_id (apply_realtime_event h c state event).current_session
      ≡ current_id state.current_session
unfolding apply_realtime_event apply_session_restore_event apply_review_artifact
    apply_timeline_item_upsert
apply-id h c state (RealtimeEvent.text_delta id _) =
    on_current-id state id _ (λ d e. ap current_id e)
apply-id h c state (RealtimeEvent.permission_requested e) =
    ap current_id (current-requested h state e)
    ∙ change_current-id _ _ state.current_session (requested_session-id h e)
apply-id h c state (RealtimeEvent.permission_resolved e) =
    ap current_id (current-resolved h state e)
    ∙ change_current-id _ _ state.current_session (resolved_session-id h e)
apply-id h c state (RealtimeEvent.assistant_message id _) = on_current-id state id _ (λ d e. refl)
apply-id h c state (RealtimeEvent.session_status id _) = on_current-id state id _ (λ d e. refl)
apply-id h c state (RealtimeEvent.review_artifact a) =
    on_current-id state a.session_id _ (λ d e. refl)
apply-id h c state (RealtimeEvent.timeline_item_upsert item) =
    on_current-id state (item_session_id item) _ (λ d e. refl)
apply-id h c state (RealtimeEvent.session_restore_started id) =
    on_current-id state id _ (λ d e. refl)
apply-id h c state (RealtimeEvent.session_restore_succeeded id) =
    on_current-id state id _ (λ d e. refl)
apply-id h c state (RealtimeEvent.session_restore_failed id _) =
    on_current-id state id _ (λ d e. refl)
apply-id h c state (RealtimeEvent.session_config_updated id _ _) =
    on_current-id state id _ (λ d e. refl)
apply-id h c state (RealtimeEvent.active_turn_updated id _ _) =
    on_current-id state id _ (λ d e. refl)
apply-id h c state (RealtimeEvent.queued_prompts_updated id _) =
    on_current-id state id _ (λ d e. refl)
apply-id h c state _ = refl

-- No run of events opens, closes or switches the session: the id of the open session, or that there
-- is none, stays.
pub run-id :
    (h : Host) (state : AppSnapshot) (events : List (Clock × RealtimeEvent))
    → current_id (run h state events).current_session ≡ current_id state.current_session
unfolding run
run-id h state [] = refl
run-id h state ((c, event) ∷ events) =
    run-id h (apply_realtime_event h c state event) events ∙ apply-id h c state event
