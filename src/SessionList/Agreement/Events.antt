-- ===== src/SessionList/Agreement/Events.antt =====
-- About the list and the open session under the events that both are given.
use acp_webui.Common.{
  Option, none, some, List, String, ◌-◌, ◌==◌, ◌≡◌, ◌≢◌, refl, ◌∙◌, Bool, arith, or_else, eq_iff,
  Bool-cases, inl, inr, if◌then◌else◌,
}
use acp_webui.Common.Host.{Host, Clock}
use acp_webui.Types.{
  PermissionRequested, RealtimeEvent, SessionContinuity, SessionDetail, SessionListItem,
  item_session_id,
}
use acp_webui.Realtime.{apply_realtime_event}
use acp_webui.Realtime.Snapshot.{AppSnapshot, normalize_session_status}
use acp_webui.Realtime.Continuity.{
  apply_session_restore_event, restored_continuity, restore_failed_continuity, restoring_continuity,
}
use acp_webui.Realtime.Queue.{with_approval_queue}
use acp_webui.Realtime.Permissions.{change_current, requested_session}
use acp_webui.Realtime.Timeline.{apply_review_artifact, apply_timeline_item_upsert}
use acp_webui.Realtime.Identity.{current-requested}
use acp_webui.SessionList
use acp_webui.SessionList.{
  apply_session_list_realtime, change_item, clear_session_list_permission, list_permission,
  list_permission?, normalize_session_list_status, session_detail_to_list_item,
  set_session_list_permission, update_session_list_active_turn, update_session_list_continuity,
  update_session_list_model, update_session_list_queue, update_session_list_review_availability,
  update_session_list_status, waiting_list_item,
}
use acp_webui.SessionList.Laws.{item_of-set_session_list_permission}
use acp_webui.SessionList.Agreement.{
  AgreeAt, agreed, both_change_current, detail_change_current, on_current-same,
}
use acp_webui.SessionList.Agreement.Requests.{requested-Agrees}

-- The events after which the two agree without more: a request, unless the server counts none
-- pending, and every other event but a resolution.
abbrev pub IsShared : RealtimeEvent → Type 0
IsShared (RealtimeEvent.permission_requested e) = e.pending_approval_count ≢ some 0
IsShared (RealtimeEvent.permission_resolved _) = ⊥
IsShared _ = Unit

normalized-same :
    (status : String) (b c : Bool)
    → b ≡ c
    → normalize_session_status status b ≡ normalize_session_list_status status c
unfolding normalize_session_status normalize_session_list_status
normalized-same status b c e = rw e refl

module _ (h : Host) (c c' : Clock) (k : String) (state : AppSnapshot)
    (sessions : List SessionListItem) (current : Option SessionDetail) where
  requested-AgreeAt :
      (e : PermissionRequested)
      → e.pending_approval_count ≢ some 0
      → AgreeAt k state sessions
      → AgreeAt k
          (apply_realtime_event h c state (RealtimeEvent.permission_requested e))
          (apply_session_list_realtime h c' sessions (RealtimeEvent.permission_requested e) current)
  unfolding apply_realtime_event apply_session_list_realtime change_current
  requested-AgreeAt e counted (d, item, shown, at, held, v) =
      let id = e.permission.session_id in
      let count = or_else e.queued_approval_count (or_else e.pending_approval_count 1 - 1) in
      let active = list_permission (or_else e.active_permission e.permission) in
      let listed = item_of-set_session_list_permission h id active count current k sessions in
      let changed = current-requested h state e in
      elim (Bool-cases (d.session.id == id)) [
        | inl same ↦ (
          requested_session h e d,
          waiting_list_item item active count,
          changed ∙ ground (arith, shown, same),
          unfold requested_session with_approval_queue in at,
          listed ∙ ground (arith, held, eq_iff d.session.id id, eq_iff id k, same, at),
          requested-Agrees h e d item count counted v,
        )
        | inr other ↦ (
          d,
          item,
          changed ∙ ground (arith, shown, other),
          at,
          listed ∙ ground (arith, held, eq_iff d.session.id id, eq_iff id k, other, at),
          v,
        )
      ]

  restored-AgreeAt :
      (id : String) (next next' : SessionContinuity)
      → next.state ≡ next'.state
      → next.continuable ≡ next'.continuable
      → next.reason ≡ next'.reason
      → AgreeAt k state sessions
      → AgreeAt k
          (apply_session_restore_event state id next)
          (update_session_list_continuity sessions id next')
  unfolding apply_session_restore_event update_session_list_continuity
  restored-AgreeAt id next next' e f g =
      both_change_current k state sessions id _
        (λ d. record d {
          continuity = next;
          continuable = next.continuable;
          view_only_reason = if next.continuable then none else next.reason;
        })
        _ (λ d. refl) (λ item. refl)
        (λ d item v. (
          refl,
          record {
            status = v.status;
            waiting = v.waiting;
            turn = v.turn;
            model = v.model;
            queued = v.queued;
            continuity = e;
            continuable = f;
            reason = rw (f, g) refl;
          },
        ))

  -- An event that is given both to the open session and to the list of sessions, other than a
  -- resolution and a request for which the server counts none pending, keeps their agreement: if
  -- the open session and its item show the same status, turn, model, count of queued prompts and
  -- continuity, and both or neither an approval, they do so afterwards.
  pub apply-AgreeAt :
      (event : RealtimeEvent)
      → IsShared event
      → AgreeAt k state sessions
      → AgreeAt k
          (apply_realtime_event h c state event)
          (apply_session_list_realtime h c' sessions event current)
  unfolding apply_realtime_event apply_session_list_realtime update_session_list_status
      update_session_list_active_turn update_session_list_queue
      update_session_list_review_availability update_session_list_model apply_review_artifact
      apply_timeline_item_upsert restoring_continuity restored_continuity restore_failed_continuity
      SessionList.restoring_continuity SessionList.restored_continuity
      SessionList.restore_failed_continuity
  apply-AgreeAt (RealtimeEvent.session_status id status) _ =
      both_change_current k state sessions id _ _ _ (λ d. refl) (λ item. refl)
        (λ d item v. (
          refl,
          agreed (normalized-same status _ _ v.waiting) v.waiting v.turn v.model v.queued
              v.continuity v.continuable v.reason,
        ))
  apply-AgreeAt (RealtimeEvent.active_turn_updated id status turn) _ =
      both_change_current k state sessions id _ _ _ (λ d. refl) (λ item. refl)
        (λ d item v. (
          refl,
          agreed (normalized-same status _ _ v.waiting) v.waiting refl v.model v.queued v.continuity
              v.continuable v.reason,
        ))
  apply-AgreeAt (RealtimeEvent.queued_prompts_updated id prompts) _ =
      both_change_current k state sessions id _ _ _ (λ d. refl) (λ item. refl)
        (λ d item v.
          (refl, agreed v.status v.waiting v.turn v.model refl v.continuity v.continuable v.reason))
  apply-AgreeAt (RealtimeEvent.permission_requested e) counted = requested-AgreeAt e counted
  apply-AgreeAt (RealtimeEvent.permission_resolved e) bad = absurd bad
  apply-AgreeAt (RealtimeEvent.review_artifact a) _ =
      both_change_current k state sessions a.session_id _ _ _ (λ d. refl) (λ item. refl)
        (λ d item v. (
          refl,
          agreed v.status v.waiting v.turn v.model v.queued v.continuity v.continuable v.reason,
        ))
  apply-AgreeAt (RealtimeEvent.session_config_updated id options model) _ =
      both_change_current k state sessions id _ _ _ (λ d. refl) (λ item. refl)
        (λ d item v. (
          refl,
          agreed v.status v.waiting v.turn refl v.queued v.continuity v.continuable v.reason,
        ))
  apply-AgreeAt (RealtimeEvent.session_restore_started id) _ =
      restored-AgreeAt id (restoring_continuity c) (SessionList.restoring_continuity c') refl refl
        refl
  apply-AgreeAt (RealtimeEvent.session_restore_succeeded id) _ =
      restored-AgreeAt id (restored_continuity c) (SessionList.restored_continuity c') refl refl
        refl
  apply-AgreeAt (RealtimeEvent.session_restore_failed id text) _ =
      restored-AgreeAt id (restore_failed_continuity text)
        (SessionList.restore_failed_continuity text) refl refl refl
  apply-AgreeAt (RealtimeEvent.text_delta id _) _ = (λ (d, item, shown, at, held, v).
      (d, item, on_current-same state id _ (λ x. refl) ∙ shown, at, held, v))
  apply-AgreeAt (RealtimeEvent.assistant_message id _) _ =
      detail_change_current k state sessions id _ _ (λ d. refl)
        (λ d item v. (
          refl,
          agreed v.status v.waiting v.turn v.model v.queued v.continuity v.continuable v.reason,
        ))
  apply-AgreeAt (RealtimeEvent.timeline_item_upsert item) _ =
      detail_change_current k state sessions (item_session_id item) _ _ (λ d. refl)
        (λ d item v. (
          refl,
          agreed v.status v.waiting v.turn v.model v.queued v.continuity v.continuable v.reason,
        ))
  apply-AgreeAt _ _ = λ v. v
