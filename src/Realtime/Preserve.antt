-- ===== src/Realtime/Preserve.antt =====
-- Invariants of the open session under events and runs: one obligation for each change that a handler
-- makes to a session's detail.
use mathlib.Core.Path.{subst}
use acp_webui.Common.{
  Option, none, List, [], ◌∷◌, String, ◌≡◌, sym, true, false, is_some, All, if◌then◌else◌, refl,
}
use acp_webui.Common.Host.{Host, Clock}
use acp_webui.Types.{
  ActiveTurn, ChatMessage, PermissionRequested, PermissionResolved, QueuedPrompt, RealtimeEvent,
  ReviewArtifactSummary, SessionConfigOption, SessionContinuity, SessionCurrentModel, SessionDetail,
  TimelineItem, item_session_id,
}
use acp_webui.Realtime.{apply_realtime_event, run}
use acp_webui.Realtime.Snapshot.{AppSnapshot, with_status, normalize_session_status}
use acp_webui.Realtime.Continuity.{
  apply_session_restore_event, restored_continuity, restore_failed_continuity, restoring_continuity,
}
use acp_webui.Realtime.Permissions.{requested_session, resolved_session}
use acp_webui.Realtime.Timeline.{
  apply_review_artifact, apply_timeline_item_upsert, upsert_timeline_item,
}
use acp_webui.Realtime.Identity.{current-requested, current-resolved}
use acp_webui.Realtime.Invariant.{
  CurrentHas, CurrentHas-change_current, CurrentHas-on_current, CurrentHas-same,
}

-- Every change that an allowed event makes keeps `P`.
pub record Keeps (h : Host) (Allowed : RealtimeEvent → Type 0) (P : SessionDetail → Type 0)
    : Type 0 where
  pub messages :
      (d : SessionDetail) (new : List ChatMessage) → P d → P (record d { messages = new })
  pub status :
      (d : SessionDetail) (new : String)
      → P d
      → P (with_status d (normalize_session_status new (is_some d.pending_permission)))
  pub turn :
      (d : SessionDetail) (new : Option ActiveTurn) → P d → P (record d { active_turn = new })
  pub config :
      (d : SessionDetail) (options : Option (List SessionConfigOption))
      (model : Option SessionCurrentModel)
      → P d
      → P (record d { config_options = options; current_model = model })
  pub prompts :
      (d : SessionDetail) (new : Option (List QueuedPrompt))
      → P d
      → P (record d { queued_prompts = new })
  pub artifacts :
      (d : SessionDetail) (new : List ReviewArtifactSummary)
      → P d
      → P (record d { review_artifacts = new })
  pub timeline :
      (d : SessionDetail) (item : TimelineItem)
      → P d
      → P (record d { timeline = upsert_timeline_item h d.timeline item })
  pub restore :
      (d : SessionDetail) (next : SessionContinuity)
      → (next.restoring ≡ true → next.continuable ≡ false)
      → P d
      → P (record d {
        continuity = next;
        continuable = next.continuable;
        view_only_reason = if next.continuable then none else next.reason;
      })
  pub requested :
      (d : SessionDetail) (e : PermissionRequested)
      → Allowed (RealtimeEvent.permission_requested e)
      → P d
      → P (requested_session h e d)
  pub resolved :
      (d : SessionDetail) (e : PermissionResolved)
      → Allowed (RealtimeEvent.permission_resolved e)
      → P d
      → P (resolved_session h e d)

module _ (h : Host) (Allowed : RealtimeEvent → Type 0) (P : SessionDetail → Type 0)
    (k : Keeps h Allowed P) where
  restore-keeps :
      (state : AppSnapshot) (id : String) (next : SessionContinuity)
      → (next.restoring ≡ true → next.continuable ≡ false)
      → CurrentHas P state.current_session
      → CurrentHas P (apply_session_restore_event state id next).current_session
  unfolding apply_session_restore_event
  restore-keeps state id next apart v =
      CurrentHas-on_current P state id _ (λ d e w. k.restore d next apart w) v

  pub apply-keeps :
      (c : Clock) (state : AppSnapshot) (event : RealtimeEvent)
      → Allowed event
      → CurrentHas P state.current_session
      → CurrentHas P (apply_realtime_event h c state event).current_session
  unfolding apply_realtime_event apply_review_artifact apply_timeline_item_upsert
      restoring_continuity restored_continuity restore_failed_continuity
  apply-keeps c state (RealtimeEvent.text_delta id _) ok v =
      CurrentHas-on_current P state id _ (λ d e w. CurrentHas-same P state e w) v
  apply-keeps c state (RealtimeEvent.assistant_message id _) ok v =
      CurrentHas-on_current P state id _ (λ d e w. k.messages d _ w) v
  apply-keeps c state (RealtimeEvent.session_status id status) ok v =
      CurrentHas-on_current P state id _ (λ d e w. k.status d status w) v
  apply-keeps c state (RealtimeEvent.permission_requested e) ok v =
      subst (CurrentHas P) (sym (current-requested h state e))
        (CurrentHas-change_current P _ _ state.current_session (λ d w. k.requested d e ok w) v)
  apply-keeps c state (RealtimeEvent.permission_resolved e) ok v =
      subst (CurrentHas P) (sym (current-resolved h state e))
        (CurrentHas-change_current P _ _ state.current_session (λ d w. k.resolved d e ok w) v)
  apply-keeps c state (RealtimeEvent.review_artifact a) ok v =
      CurrentHas-on_current P state a.session_id _
        (λ d e w. k.timeline _ _ (k.artifacts _ _ (k.messages d _ w))) v
  apply-keeps c state (RealtimeEvent.timeline_item_upsert item) ok v =
      CurrentHas-on_current P state (item_session_id item) _ (λ d e w. k.timeline d item w) v
  apply-keeps c state (RealtimeEvent.session_restore_started id) ok v =
      restore-keeps state id (restoring_continuity c) (λ _. refl) v
  apply-keeps c state (RealtimeEvent.session_restore_succeeded id) ok v =
      restore-keeps state id (restored_continuity c) (λ p. sym p) v
  apply-keeps c state (RealtimeEvent.session_restore_failed id text) ok v =
      restore-keeps state id (restore_failed_continuity text) (λ _. refl) v
  apply-keeps c state (RealtimeEvent.session_config_updated id options model) ok v =
      CurrentHas-on_current P state id _ (λ d e w. k.config d options model w) v
  apply-keeps c state (RealtimeEvent.active_turn_updated id status new) ok v =
      CurrentHas-on_current P state id _
        (λ d e w. k.status (record d { active_turn = new }) status (k.turn d new w)) v
  apply-keeps c state (RealtimeEvent.queued_prompts_updated id new) ok v =
      CurrentHas-on_current P state id _ (λ d e w. k.prompts d _ w) v
  apply-keeps c state _ ok v = v

  -- What every allowed event keeps, every run of allowed events keeps.
  pub run-keeps :
      (state : AppSnapshot) (events : List (Clock × RealtimeEvent))
      → All (λ e. Allowed e.1) events
      → CurrentHas P state.current_session
      → CurrentHas P (run h state events).current_session
  unfolding run
  run-keeps state [] ok v = v
  run-keeps state ((c, event) ∷ events) (ok, oks) v =
      run-keeps (apply_realtime_event h c state event) events oks (apply-keeps c state event ok v)
