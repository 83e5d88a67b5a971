-- ===== src/SessionList.antt =====
-- frontend/src/app/sessionList.ts: the list of sessions, the time of a session's latest activity, and
-- what each event of the server does to the list.
pub mod Activity
pub mod Laws
pub mod ActivityLaws
pub mod Recency
pub mod Agreement
mod Tests
use acp_webui.Common.{
  Option, none, some, List, [], ◌∷◌, map, String, ℕ, ◌+◌, ◌-◌, ◌==◌, Bool, true, false, ◌&&◌, ltb,
  any, length, is_some, or_else, truthy, if◌then◌else◌,
}
use acp_webui.Common.Host.{Host, Clock}
use acp_webui.Types.{
  ActiveTurn, PermissionRequest, RealtimeEvent, SessionContinuity, SessionCurrentModel,
  SessionDetail, SessionListItem, SessionListPermission,
}
use Activity.{latest_timestamp, session_detail_activity_at}

-- `{ id, title, kind, createdAt }` of a request
abbrev pub list_permission : PermissionRequest → SessionListPermission
list_permission p = record { id = p.id; title = p.title; kind = p.kind; created_at = p.created_at }

abbrev pub list_permission? : Option PermissionRequest → Option SessionListPermission
list_permission? none = none
list_permission? (some p) = some (list_permission p)

unfoldable pub session_detail_to_list_item : Host → SessionDetail → SessionListItem
session_detail_to_list_item h d = record {
  session = d.session;
  workspace = d.workspace;
  last_activity_at = session_detail_activity_at h d;
  current_model = d.current_model;
  launch_control_summary = some (or_else d.launch_control_summary []);
  queued_prompt_count = some (length (or_else d.queued_prompts []));
  active_turn = d.active_turn;
  pending_permission = list_permission? d.pending_permission;
  queued_approval_count = some (or_else d.queued_approval_count 0);
  review_artifact_count = length d.review_artifacts;
  has_review_artifacts = ltb 0 (length d.review_artifacts);
  continuity = d.continuity;
  continuable = d.continuable;
  view_only_reason = d.view_only_reason;
}

unfoldable pub normalize_session_list_status : String → Bool → String
normalize_session_list_status status has_pending_permission =
    if has_pending_permission && status == "idle" then "waiting_approval" else status

-- `sessions.map((item) => item.session.id === sessionId ? change(item) : item)`
unfoldable pub change_item :
    String → (SessionListItem → SessionListItem) → List SessionListItem → List SessionListItem
change_item id change sessions =
    map (λ item. if item.session.id == id then change item else item) sessions

-- `{ ...item, session: { ...item.session, status } }`
abbrev pub item_with_status : SessionListItem → String → SessionListItem
item_with_status item new = record item { session = record item.session { status = new } }

unfoldable pub update_session_list_status :
    Host → Clock → List SessionListItem → String → String → List SessionListItem
update_session_list_status h c sessions id status =
    change_item id
      (λ item.
        record (item_with_status item
          (normalize_session_list_status status (is_some item.pending_permission))) {
            last_activity_at =
                if status == "running"
                then or_else (latest_timestamp h (some item.last_activity_at ∷ some c.iso ∷ []))
                    item.last_activity_at
                else item.last_activity_at;
          })
      sessions

unfoldable pub clear_session_list_permission : List SessionListItem → String → List SessionListItem
clear_session_list_permission sessions id =
    change_item id
      (λ item. record item { pending_permission = none; queued_approval_count = some 0 }) sessions

-- `{ ...item, pendingPermission, queuedApprovalCount, session: { ...session, status } }`
abbrev pub waiting_list_item : SessionListItem → SessionListPermission → ℕ → SessionListItem
waiting_list_item item pending count = record (item_with_status item "waiting_approval") {
  pending_permission = some pending;
  queued_approval_count = some count;
}

-- The item of the open session goes to the front of a list that does not hold it.
unfoldable pub added_item :
    Host
    → String
    → SessionListPermission
    → ℕ
    → Option SessionDetail
    → List SessionListItem
    → List SessionListItem
unfolding session_detail_to_list_item
added_item h id pending count none updated = updated
added_item h id pending count (some d) updated =
    if d.session.id == id
    then waiting_list_item (session_detail_to_list_item h d) pending count ∷ updated
    else updated

unfoldable pub set_session_list_permission :
    Host
    → List SessionListItem
    → String
    → SessionListPermission
    → ℕ
    → Option SessionDetail
    → List SessionListItem
set_session_list_permission h sessions id pending count current =
    let updated = change_item id (λ item. waiting_list_item item pending count) sessions in
    if any (λ item. item.session.id == id) sessions
    then updated
    else added_item h id pending count current updated

unfoldable pub update_session_list_review_availability :
    List SessionListItem → String → List SessionListItem
update_session_list_review_availability sessions id =
    change_item id
      (λ item. record item {
        review_artifact_count = item.review_artifact_count + 1;
        has_review_artifacts = true;
      })
      sessions

-- `activeTurn?.startedAt ?? (status === "running" ? now : null)`
abbrev pub turn_activity_at : Clock → String → Option ActiveTurn → Option String
turn_activity_at c status none = if status == "running" then some c.iso else none
turn_activity_at c status (some turn) = some turn.started_at

unfoldable pub update_session_list_active_turn :
    Host → Clock → List SessionListItem → String → String → Option ActiveTurn → List SessionListItem
update_session_list_active_turn h c sessions id status turn =
    let activity_at = turn_activity_at c status turn in
    change_item id
      (λ item.
        record (item_with_status item
          (normalize_session_list_status status (is_some item.pending_permission))) {
            active_turn = turn;
            last_activity_at =
                if truthy activity_at
                then or_else (latest_timestamp h (some item.last_activity_at ∷ activity_at ∷ []))
                    item.last_activity_at
                else item.last_activity_at;
          })
      sessions

unfoldable pub update_session_list_queue : List SessionListItem → String → ℕ → List SessionListItem
update_session_list_queue sessions id count =
    change_item id (λ item. record item { queued_prompt_count = some count }) sessions

unfoldable pub update_session_list_model :
    List SessionListItem → String → Option SessionCurrentModel → List SessionListItem
update_session_list_model sessions id model =
    change_item id (λ item. record item { current_model = model }) sessions

unfoldable pub update_session_list_continuity :
    List SessionListItem → String → SessionContinuity → List SessionListItem
update_session_list_continuity sessions id next =
    change_item id
      (λ item. record item {
        continuity = next;
        continuable = next.continuable;
        view_only_reason = if next.continuable then none else next.reason;
      })
      sessions

unfoldable pub restoring_continuity : Clock → SessionContinuity
restoring_continuity c = record {
  state = "restoring";
  continuable = false;
  restorable = false;
  restoring = true;
  reason = some "Restoring this agent session...";
  failure_message = none;
  restore_started_at = some c.iso;
  restore_completed_at = none;
}

unfoldable pub restored_continuity : Clock → SessionContinuity
restored_continuity c = record {
  state = "restored";
  continuable = true;
  restorable = false;
  restoring = false;
  reason = none;
  failure_message = none;
  restore_started_at = none;
  restore_completed_at = some c.iso;
}

unfoldable pub restore_failed_continuity : String → SessionContinuity
restore_failed_continuity words = record {
  state = "restore_failed";
  continuable = false;
  restorable = true;
  restoring = false;
  reason = some words;
  failure_message = some words;
  restore_started_at = none;
  restore_completed_at = none;
}

unfoldable pub apply_session_list_realtime :
    Host
    → Clock
    → List SessionListItem
    → RealtimeEvent
    → Option SessionDetail
    → List SessionListItem
apply_session_list_realtime h c sessions (RealtimeEvent.session_status id status) current =
    update_session_list_status h c sessions id status
apply_session_list_realtime h c sessions (RealtimeEvent.active_turn_updated id status turn)
      current =
    update_session_list_active_turn h c sessions id status turn
apply_session_list_realtime h c sessions (RealtimeEvent.queued_prompts_updated id prompts) current =
    update_session_list_queue sessions id (length (or_else prompts []))
apply_session_list_realtime h c sessions (RealtimeEvent.permission_requested e) current =
    set_session_list_permission h sessions e.permission.session_id
      (list_permission (or_else e.active_permission e.permission))
      (or_else e.queued_approval_count (or_else e.pending_approval_count 1 - 1)) current
apply_session_list_realtime h c sessions (RealtimeEvent.permission_resolved e) current =
    elim e.next_permission [
      | none ↦ clear_session_list_permission sessions e.session_id
      | some p ↦
          set_session_list_permission h sessions e.session_id (list_permission p)
            (or_else e.queued_approval_count 0) current
    ]
apply_session_list_realtime h c sessions (RealtimeEvent.review_artifact artifact) current =
    update_session_list_review_availability sessions artifact.session_id
apply_session_list_realtime h c sessions (RealtimeEvent.session_restore_started id) current =
    update_session_list_continuity sessions id (restoring_continuity c)
apply_session_list_realtime h c sessions (RealtimeEvent.session_restore_succeeded id) current =
    update_session_list_continuity sessions id (restored_continuity c)
apply_session_list_realtime h c sessions (RealtimeEvent.session_restore_failed id words) current =
    update_session_list_continuity sessions id (restore_failed_continuity words)
apply_session_list_realtime h c sessions (RealtimeEvent.session_config_updated id _ model) current =
    update_session_list_model sessions id model
apply_session_list_realtime h c sessions _ current = sessions
