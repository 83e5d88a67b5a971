-- ===== src/Realtime.antt =====
-- frontend/src/realtime.ts: `applyRealtimeEvent`, which folds one event of the server into the open
-- session, the inbox, the streamed text and the error. The children hold its helpers, and the proofs.
pub mod Snapshot
pub mod Continuity
pub mod Queue
pub mod Permissions
pub mod Timeline
pub mod Identity
pub mod Invariant
pub mod Preserve
pub mod Streaming
pub mod Restore
pub mod Approvals
pub mod Inbox
mod Tests
use acp_webui.Common.{
  Option, none, some, List, [], ◌∷◌, ◌++◌, String, ◌==◌, ◌<>◌, is_some, or_else, if◌then◌else◌,
}
use acp_webui.Common.Host.{Host, Clock}
use acp_webui.Types.{ChatMessage, RealtimeEvent, SessionDetail}
use Snapshot.{AppSnapshot, on_current, assistant_message, with_status, normalize_session_status}
use Continuity.{
  apply_session_restore_event, restoring_continuity, restored_continuity, restore_failed_continuity,
}
use Permissions.{apply_permission_requested, apply_permission_resolved}
use Timeline.{apply_review_artifact, apply_timeline_item_upsert}

unfoldable pub apply_realtime_event : Host → Clock → AppSnapshot → RealtimeEvent → AppSnapshot
apply_realtime_event h c state (RealtimeEvent.text_delta id delta) =
    on_current state id λ d. record state { live_assistant = state.live_assistant <> delta }
apply_realtime_event h c state (RealtimeEvent.assistant_message id content) =
    on_current state id λ d. record state {
      current_session =
          some
            (record d { messages = d.messages ++ assistant_message c d.session.id content ∷ [] });
      live_assistant = "";
    }
apply_realtime_event h c state (RealtimeEvent.session_status id status) = on_current state id λ d.
    record state {
      current_session =
          some (with_status d (normalize_session_status status (is_some d.pending_permission)));
    }
apply_realtime_event h c state (RealtimeEvent.permission_requested e) =
    apply_permission_requested h state e
apply_realtime_event h c state (RealtimeEvent.permission_resolved e) =
    apply_permission_resolved h state e
apply_realtime_event h c state (RealtimeEvent.review_artifact artifact) =
    apply_review_artifact h c state artifact
apply_realtime_event h c state (RealtimeEvent.timeline_item_upsert item) =
    apply_timeline_item_upsert h state item
apply_realtime_event h c state (RealtimeEvent.session_restore_started id) =
    apply_session_restore_event state id (restoring_continuity c)
apply_realtime_event h c state (RealtimeEvent.session_restore_succeeded id) =
    apply_session_restore_event state id (restored_continuity c)
apply_realtime_event h c state (RealtimeEvent.session_restore_failed id text) =
    apply_session_restore_event state id (restore_failed_continuity text)
apply_realtime_event h c state (RealtimeEvent.session_config_updated id options model) =
    on_current state id λ d. record state {
      current_session = some (record d { config_options = options; current_model = model });
    }
apply_realtime_event h c state (RealtimeEvent.active_turn_updated id status turn) =
    on_current state id λ d. record state {
      current_session = some (
          with_status (record d { active_turn = turn })
            (normalize_session_status status (is_some d.pending_permission)));
    }
apply_realtime_event h c state (RealtimeEvent.queued_prompts_updated id prompts) =
    on_current state id λ d. record state {
      current_session = some (record d { queued_prompts = some (or_else prompts []) });
    }
apply_realtime_event h c state (RealtimeEvent.error text) = record state { error = some text }
apply_realtime_event h c state _ = state

-- A run of events, each with the clock that its handler reads.
unfoldable pub run : Host → AppSnapshot → List (Clock × RealtimeEvent) → AppSnapshot
run h state [] = state
run h state ((c, event) ∷ events) = run h (apply_realtime_event h c state event) events
