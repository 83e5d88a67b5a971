-- ===== src/SessionList/Tests.antt =====
-- The list of sessions at concrete inputs.
use acp_webui.Common.{
  Option, none, some, List, [], ◌∷◌, String, ℕ, ◌≤◌, ◌==◌, ◌≡◌, ◌≢◌, refl, Bool, true, false, arith,
  eq_iff, is_some, or_else, trim, is_empty, All, if◌then◌else◌,
}
use acp_webui.Common.Keyed.Laws.{HasDistinctKeys}
use acp_webui.Samples.{request_at, sample_clock, sample_detail, sample_host, session_named}
use acp_webui.Types.{PermissionRequested, PermissionResolved, RealtimeEvent, SessionListItem}
use acp_webui.Realtime.{apply_realtime_event}
use acp_webui.Realtime.Snapshot.{AppSnapshot}
use acp_webui.SessionList.{apply_session_list_realtime, session_detail_to_list_item}
use acp_webui.SessionList.Activity.{latest_round, session_detail_activity_at}
use acp_webui.SessionList.Recency.{IsActiveSince, apply_list-IsActiveSince}
use acp_webui.SessionList.Laws.{apply_list-HasDistinctKeys, item_key, item_of}
use acp_webui.SessionList.Agreement.{AgreeAt, made-Agrees}
use acp_webui.SessionList.Agreement.Events.{apply-AgreeAt}
use acp_webui.SessionList.Agreement.Stale.{idle_then_resolved, item_of-idle_then_resolved}

abbrev listed : SessionListItem
listed = session_detail_to_list_item sample_host sample_detail

abbrev other_item : SessionListItem
other_item = record listed { session = session_named "s2" "idle" }

abbrev rows : List SessionListItem
rows = listed ∷ other_item ∷ []

abbrev resolution : PermissionResolved
resolution = record {
  session_id = "s1";
  permission_id = "p1";
  next_permission = none;
  status = some "idle";
  pending_approval_count = some 0;
  queued_approval_count = none;
}

abbrev request : PermissionRequested
request = record {
  permission = request_at "p3" "ddd";
  active_permission = none;
  pending_approval_count = none;
  queued_approval_count = none;
}

abbrev snapshot : AppSnapshot
snapshot = record {
  current_session = some sample_detail;
  inbox = [];
  live_assistant = "";
  error = none;
}

abbrev times : List (Option String)
times = some " aa " ∷ none ∷ some "bbb" ∷ some "  " ∷ []

keys_differ : (a b : String) → (a == b) ≡ false → a ≢ b
keys_differ a b h = λ e. ground (arith, eq_iff a b)

some_differ : (a b : String) → (a == b) ≡ false → some a ≢ some b
some_differ a b h = λ e. ground (arith, eq_iff a b)

-- The latest time of the session is that of its turn.
activity_of_turn : session_detail_activity_at sample_host sample_detail ≡ "tttt"
unfolding session_detail_activity_at acp_webui.Common.Text.trim latest_round
activity_of_turn = refl

rows-HasDistinctKeys : HasDistinctKeys item_key rows
unfolding session_detail_to_list_item
rows-HasDistinctKeys = ((keys_differ "s2" "s1" refl, tt), (tt, tt))

apply_list-HasDistinctKeys_example : HasDistinctKeys item_key (
    apply_session_list_realtime sample_host sample_clock rows
      (RealtimeEvent.permission_requested request)
      (some sample_detail))
apply_list-HasDistinctKeys_example =
    apply_list-HasDistinctKeys sample_host sample_clock rows (some sample_detail)
      (RealtimeEvent.permission_requested request) rows-HasDistinctKeys

apply_list-IsActiveSince_example : IsActiveSince sample_host 4 (
    item_of "s1" (
      apply_session_list_realtime sample_host sample_clock rows
        (RealtimeEvent.session_status "s1" "running")
        none))
unfolding session_detail_to_list_item session_detail_activity_at acp_webui.Common.Text.trim
    latest_round
apply_list-IsActiveSince_example =
    apply_list-IsActiveSince sample_host rows "s1" listed 4 refl refl sample_clock
      (RealtimeEvent.session_status "s1" "running") none

apply-AgreeAt_example :
    AgreeAt "s1"
      (apply_realtime_event sample_host sample_clock snapshot
        (RealtimeEvent.permission_requested request))
      (apply_session_list_realtime sample_host sample_clock rows
        (RealtimeEvent.permission_requested request)
        (some sample_detail))
unfolding session_detail_to_list_item
apply-AgreeAt_example =
    apply-AgreeAt sample_host sample_clock sample_clock "s1" snapshot rows (some sample_detail)
      (RealtimeEvent.permission_requested request) (λ e. cc)
      (sample_detail, listed, refl, refl, refl, made-Agrees sample_host sample_detail)

item_of-idle_then_resolved_example :
    (left : SessionListItem) × (item_of "s1" (
        idle_then_resolved sample_host sample_clock sample_clock rows "s1" listed
          (some sample_detail)
          resolution)
      ≡ some left)
    × (left.pending_permission ≡ none)
    × (left.session.status ≡ "waiting_approval")
unfolding session_detail_to_list_item
item_of-idle_then_resolved_example =
    item_of-idle_then_resolved sample_host sample_clock sample_clock rows "s1" listed
      (some sample_detail) resolution refl refl refl refl
