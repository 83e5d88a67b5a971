-- ===== src/Notify/Tests.antt =====
-- Notifications at concrete inputs.
use acp_webui.Common.{String, ◌+◌, none, some, List, [], ◌∷◌, ◌≡◌, refl, filter, length}
use acp_webui.Common.Sets.{add_all}
use acp_webui.Samples.{request_at, sample_detail}
use acp_webui.Types.{RealtimeEvent, SessionDetail}
use acp_webui.Notify.{
  Transition, notify_for_realtime_transition, request_browser_notification_permission,
}
use acp_webui.Notify.Laws.{completed_keys, count_titled, is_request, notify_run, notify_run_lem}

abbrev before : SessionDetail
before = record sample_detail {
  active_turn = some (record { started_at = "t0"; status = "running"; stop_requested_at = none });
}

abbrev after : SessionDetail
after = record sample_detail {
  session = record sample_detail.session { status = "idle" };
  active_turn = none;
}

abbrev turn_ended : Transition
turn_ended = record {
  previous = some before;
  next = some after;
  event = RealtimeEvent.active_turn_updated "s1" "idle" none;
}

abbrev asked : Transition
asked = record {
  previous = some before;
  next = some before;
  event = RealtimeEvent.permission_requested (record {
    permission = request_at "p1" "t";
    active_permission = none;
    pending_approval_count = none;
    queued_approval_count = none;
  });
}

abbrev changes : List Transition
changes = turn_ended ∷ asked ∷ turn_ended ∷ []

two_shown : length (notify_run changes [] (some "granted")).1 ≡ 2
unfolding notify_run notify_for_realtime_transition
two_shown = refl

denied_stays : request_browser_notification_permission (some "denied") "granted" ≡ "denied"
unfolding request_browser_notification_permission
denied_stays = refl

notify_run_lem_example :
    ((notify_run changes [] (some "granted")).0 ≡ add_all (completed_keys changes) [])
    × (length (add_all (completed_keys changes) [])
        ≡ length {A = String} []
          + count_titled "Turn complete" (notify_run changes [] (some "granted")).1)
    × (count_titled "Approval needed" (notify_run changes [] (some "granted")).1
        ≡ length (filter is_request changes))
notify_run_lem_example = notify_run_lem changes []
