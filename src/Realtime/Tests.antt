-- ===== src/Realtime/Tests.antt =====
-- Runs of the event handler, and the theorems about it at concrete inputs.
use acp_webui.Common.{
  ◌≤◌, none, some, List, [], ◌∷◌, String, ◌==◌, ◌≡◌, ◌≢◌, refl, true, false, arith, All, eq_iff,
  if◌then◌else◌,
}
use acp_webui.Common.Host.{Clock}
use acp_webui.Common.Keyed.Laws.{HasDistinctKeys}
use acp_webui.Samples.{
  message_at, request_at, sample_clock, sample_detail, sample_entry, sample_host,
}
use acp_webui.Types.{
  PermissionRequest, PermissionRequested, PermissionResolved, RealtimeEvent, TimelineItem,
}
use acp_webui.Common.Sort.Laws.{Pairwise}
use acp_webui.Common.Keyed.Laws.{at_key}
use acp_webui.Realtime.{apply_realtime_event, run}
use acp_webui.Realtime.Snapshot.{AppSnapshot, normalize_session_status, on_current}
use acp_webui.Realtime.Continuity.{apply_session_restore_event, restoring_continuity}
use acp_webui.Realtime.Permissions.{
  apply_permission_requested, apply_permission_resolved, requested_session, resolved_session,
}
use acp_webui.Realtime.Queue.{
  approval_queue, merge_permission_queue, with_approval_queue, stored_queue,
}
use acp_webui.Realtime.Queue.Laws.{HasDistinctIds, at_id}
use acp_webui.Realtime.Queue.Ordered.{IsCollation}
use acp_webui.Realtime.Timeline.{timeline_key, upsert_timeline_item}
use acp_webui.Realtime.Timeline.Laws.{HasTime, kind_and_id, time, upsert_timeline_item_lem}
use acp_webui.Realtime.Invariant.{CurrentHas}
use acp_webui.Realtime.Streaming.{deltas, run-deltas-message}
use acp_webui.Realtime.Restore.{IsCoherent, run-IsCoherent}
use acp_webui.Realtime.Approvals.{
  IsAwaited, IsHonest, left_at, requested_recorded, resolved_removed, run-IsAwaited,
}
use acp_webui.Realtime.Inbox.{entry_of, inbox_key, run-HasDistinctKeys}
use acp_webui.Realtime.Inbox.Entries.{entry_of-requested, entry_of-resolved, requested_entry}

abbrev start : AppSnapshot
start = record {
  current_session = some sample_detail;
  inbox = sample_entry ∷ [];
  live_assistant = "so ";
  error = none;
}

abbrev request : PermissionRequested
request = record {
  permission = request_at "p3" "ddd";
  active_permission = some (request_at "p1" "d");
  pending_approval_count = none;
  queued_approval_count = none;
}

abbrev resolution : PermissionResolved
resolution = record {
  session_id = "s1";
  permission_id = "p1";
  next_permission = none;
  status = none;
  pending_approval_count = none;
  queued_approval_count = none;
}

abbrev script : List (Clock × RealtimeEvent)
script =
    (sample_clock, RealtimeEvent.permission_requested request)
    ∷ (sample_clock, RealtimeEvent.permission_resolved resolution)
    ∷ (sample_clock, RealtimeEvent.session_status "s1" "idle")
    ∷ (sample_clock, RealtimeEvent.session_restore_started "s1")
    ∷ []

ids_differ : (a b : String) → (a == b) ≡ false → a ≢ b
ids_differ a b h = λ e. ground (arith, eq_iff a b)

sample-HasDistinctIds : HasDistinctIds (stored_queue sample_detail)
sample-HasDistinctIds = ((ids_differ _ _ refl, tt), (tt, tt))

sample-IsAwaited : IsAwaited sample_detail
sample-IsAwaited = record { not_idle = λ _. ids_differ _ _ refl; distinct = sample-HasDistinctIds }

-- After the script the queue holds the second and the third request, and an idle status reads as
-- waiting.
script_status :
    (run sample_host start script).current_session
    ≡ some (record sample_detail {
      session = record sample_detail.session { status = "waiting_approval" };
      pending_permission = some (request_at "p2" "dd");
      pending_permissions = some (request_at "p2" "dd" ∷ request_at "p3" "ddd" ∷ []);
      pending_approval_count = some 2;
      queued_approval_count = some 1;
      continuity = record {
        state = "restoring";
        continuable = false;
        restorable = false;
        restoring = true;
        reason = some "Restoring this agent session...";
        failure_message = none;
        restore_started_at = some "now";
        restore_completed_at = none;
      };
      continuable = false;
      view_only_reason = some "Restoring this agent session...";
    })
unfolding run apply_realtime_event apply_permission_requested apply_permission_resolved
    approval_queue merge_permission_queue with_approval_queue on_current normalize_session_status
    apply_session_restore_event restoring_continuity
script_status = refl

script-IsHonest : All (λ e. IsHonest e.1) script
script-IsHonest = (tt, (λ e. cc, (tt, (tt, tt))))

run-IsAwaited_example : CurrentHas IsAwaited (run sample_host start script).current_session
run-IsAwaited_example = run-IsAwaited sample_host start script script-IsHonest sample-IsAwaited

requested_recorded_example :
    (queue : List PermissionRequest) × ((requested_session sample_host request
        sample_detail).pending_permissions
      ≡ some queue)
    × ((k : String)
        → at_id k queue ≡ (
            if "p3" == k
            then some (request_at "p3" "ddd")
            else if "p1" == k
            then some (request_at "p1" "d")
            else at_id k (stored_queue sample_detail)))
    × ((requested_session sample_host request sample_detail).pending_permission
        ≡ some (request_at "p1" "d"))
    × ((requested_session sample_host request sample_detail).session.status ≡ "waiting_approval")
requested_recorded_example =
    requested_recorded sample_host sample_detail sample-HasDistinctIds request (λ e. cc)

resolved_removed_example :
    (queue : List PermissionRequest) × ((resolved_session sample_host resolution
        sample_detail).pending_permissions
      ≡ some queue)
    × ((k : String)
        → at_id k queue ≡ left_at sample_host sample_detail sample-HasDistinctIds resolution none k)
resolved_removed_example =
    resolved_removed sample_host sample_detail sample-HasDistinctIds resolution (λ e. cc)

entry_of-requested_example :
    entry_of "s1" (apply_permission_requested sample_host start request).inbox ≡ (
      if "s1" == "s1"
      then requested_entry request (entry_of "s1" start.inbox) start.current_session
      else entry_of "s1" start.inbox)
entry_of-requested_example = entry_of-requested sample_host start request "s1"

entry_of-resolved_example :
    entry_of "s1" (apply_permission_resolved sample_host start resolution).inbox ≡ none
unfolding apply_permission_resolved
entry_of-resolved_example = entry_of-resolved sample_host start resolution "s1"

run-HasDistinctKeys_example : HasDistinctKeys inbox_key (run sample_host start script).inbox
run-HasDistinctKeys_example = run-HasDistinctKeys sample_host start script (tt, tt)

abbrev strange : RealtimeEvent
strange = RealtimeEvent.text_delta "s2" "noise"

run-IsCoherent_example : CurrentHas IsCoherent (run sample_host start script).current_session
run-IsCoherent_example =
    run-IsCoherent sample_host start script
      (record { agrees = refl; no_reason = λ _. refl; not_both = λ e. cc })

run-deltas-message_example :
    apply_realtime_event sample_host sample_clock
      (run sample_host start (deltas sample_clock "s1" ("a" ∷ [])))
      (RealtimeEvent.assistant_message "s1" "so a")
    ≡ record start {
      current_session = some (record sample_detail {
        messages =
            record {
              id = "live-3";
              session_id = "s1";
              role = "assistant";
              content = "so a";
              content_blocks = none;
              status = "idle";
              created_at = "now";
            }
            ∷ [];
      });
      live_assistant = "";
    }
run-deltas-message_example =
    run-deltas-message sample_host sample_clock start ("a" ∷ []) "so a" refl

abbrev late : TimelineItem
late = message_at "m2" "tttt" "there it is"

sample-HasTime : All (HasTime sample_host) sample_detail.timeline
sample-HasTime = ((1, refl), ((3, refl), tt))

sample-HasDistinctKeys : HasDistinctKeys timeline_key sample_detail.timeline
sample-HasDistinctKeys = ((ids_differ _ _ refl, tt), (tt, tt))

upsert_timeline_item_lem_example :
    Pairwise
      (λ x y. time sample_host x ≤ time sample_host y)
      (upsert_timeline_item sample_host sample_detail.timeline late)
    × (at_key kind_and_id "message-m2"
          (upsert_timeline_item sample_host sample_detail.timeline late)
        ≡ (if kind_and_id late == "message-m2"
            then some late
            else at_key kind_and_id "message-m2" sample_detail.timeline))
upsert_timeline_item_lem_example =
    upsert_timeline_item_lem sample_host "message-m2" sample_detail.timeline late
      sample-HasDistinctKeys sample-HasTime (4, refl)

sample-IsCollation : IsCollation sample_host
sample-IsCollation = record { asym = λ a b h. ground arith; trans = λ a b c h k. ground arith }
