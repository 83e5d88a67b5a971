-- ===== src/Notify.antt =====
-- frontend/src/utils/browserNotifications.ts: the notifications that the browser is asked to show.
-- `Notification` of the browser is its permission, where the browser has one; the notifications that
-- are made are results.
pub mod Laws
mod Tests
use acp_webui.Common.{
  String, Bool, true, false, not, ◌&&◌, ◌||◌, Option, none, some, List, [], ◌∷◌, ◌++◌,
  if◌then◌else◌, is_empty, is_some, or_else, ◌==◌, ◌<>◌,
}
use acp_webui.Common.Sets.{add, has}
use acp_webui.Types.{PermissionRequest, RealtimeEvent, SessionDetail}

pub record BrowserNotificationState : Type 0 where
  pub supported : Bool
  pub permission : String
  pub enabled : Bool

pub record Notification : Type 0 where
  pub title : String
  pub body : String
  pub tag : String

unfoldable pub browser_notification_state : Option String → BrowserNotificationState
browser_notification_state none = record {
  supported = false;
  permission = "unsupported";
  enabled = false;
}
browser_notification_state (some permission) = record {
  supported = true;
  permission = permission;
  enabled = permission == "granted";
}

-- The last argument is what `requestPermission` resolves to.
unfoldable pub request_browser_notification_permission : Option String → String → String
unfolding browser_notification_state
request_browser_notification_permission source answer =
    let state = browser_notification_state source in
    if not state.supported
    then "unsupported"
    else if state.permission == "denied"
    then "denied"
    else if state.permission == "granted"
    then "granted"
    else answer

-- `none` is the result false.
unfoldable pub show_browser_notification :
    (title body tag : String) → Option String → Option Notification
unfolding browser_notification_state
show_browser_notification title body tag source =
    if (browser_notification_state source).permission == "granted"
    then some (record { title = title; body = body; tag = tag })
    else none

unfoldable pub notify_permission_request : PermissionRequest → Option String → Option Notification
unfolding show_browser_notification
notify_permission_request permission source =
    show_browser_notification "Approval needed"
      (if is_empty permission.title then "A session is waiting for approval." else permission.title)
      ("permission-" <> permission.session_id) source

abbrev pub turn_status : SessionDetail → Option String
turn_status d = elim d.active_turn [ none ↦ none | some turn ↦ some turn.status ]

abbrev pub was_active : Option String → Bool
was_active none = false
was_active (some status) = status == "running" || status == "stopping"

unfoldable pub should_notify_turn_complete : Option SessionDetail → Option SessionDetail → Bool
should_notify_turn_complete none next = false
should_notify_turn_complete (some previous) none = false
should_notify_turn_complete (some previous) (some next) =
    previous.session.id == next.session.id
    && was_active (turn_status previous)
    && not (is_some next.active_turn)
    && next.session.status == "idle"

abbrev pub started_at : SessionDetail → String
started_at d = elim d.active_turn [ none ↦ "" | some turn ↦ turn.started_at ]

unfoldable pub turn_completion_notification_key :
    Option SessionDetail → Option SessionDetail → Option String
unfolding should_notify_turn_complete
turn_completion_notification_key none next = none
turn_completion_notification_key (some previous) none = none
turn_completion_notification_key (some previous) (some next) =
    if should_notify_turn_complete (some previous) (some next)
    then some (next.session.id <> ":" <> started_at previous)
    else none

unfoldable pub notify_turn_complete : SessionDetail → Option String → Option Notification
unfolding show_browser_notification
notify_turn_complete d source =
    show_browser_notification "Turn complete" (d.session.agent_name <> " is idle.")
      ("turn-complete-" <> d.session.id) source

-- A change of the session that is shown, with the event that made it.
pub record Transition : Type 0 where
  pub previous : Option SessionDetail
  pub next : Option SessionDetail
  pub event : RealtimeEvent

-- What follows when the key of a completed turn is known.
unfoldable pub notify_completed :
    Option String
    → Option SessionDetail
    → List String
    → Option String
    → List String × Option Notification
unfolding add notify_turn_complete
notify_completed none next completed source = (completed, none)
notify_completed (some key) none completed source = (completed, none)
notify_completed (some key) (some next) completed source =
    if has key completed
    then (completed, none)
    else (add key completed, notify_turn_complete next source)

-- The result has `completedTurns` as the call leaves it.
unfoldable pub notify_for_realtime_transition :
    Transition → List String → Option String → List String × Option Notification
unfolding notify_permission_request notify_completed turn_completion_notification_key
notify_for_realtime_transition t completed source = elim t.event [
  | RealtimeEvent.permission_requested request ↦
      (completed, notify_permission_request request.permission source)
  | RealtimeEvent.active_turn_updated id status turn ↦
      notify_completed (turn_completion_notification_key t.previous t.next) t.next completed source
  | _ ↦ (completed, none)
]
