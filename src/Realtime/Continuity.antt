-- ===== src/Realtime/Continuity.antt =====
-- realtime.ts: the continuity of a session while it is restored.
use acp_webui.Common.{none, some, String, true, false, if◌then◌else◌}
use acp_webui.Common.Host.{Clock}
use acp_webui.Types.{SessionContinuity}
use acp_webui.Realtime.Snapshot.{AppSnapshot, on_current}

unfoldable pub restoring_continuity : Clock → SessionContinuity
restoring_continuity c = record {
  state = "restoring";
  continuable = false;
  restorable = false;
  restoring = true;
  reason = some "Restoring this agent session...";
  failure_message = none;
  restore_started_at = some c.iso;
  restore_completed_at = none;
}

unfoldable pub restored_continuity : Clock → SessionContinuity
restored_continuity c = record {
  state = "restored";
  continuable = true;
  restorable = false;
  restoring = false;
  reason = none;
  failure_message = none;
  restore_started_at = none;
  restore_completed_at = some c.iso;
}

unfoldable pub restore_failed_continuity : String → SessionContinuity
restore_failed_continuity text = record {
  state = "restore_failed";
  continuable = false;
  restorable = true;
  restoring = false;
  reason = some text;
  failure_message = some text;
  restore_started_at = none;
  restore_completed_at = none;
}

unfoldable pub apply_session_restore_event : AppSnapshot → String → SessionContinuity → AppSnapshot
apply_session_restore_event state id next = on_current state id λ d. record state {
  current_session = some (record d {
    continuity = next;
    continuable = next.continuable;
    view_only_reason = if next.continuable then none else next.reason;
  });
}
