-- ===== src/Realtime/Snapshot.antt =====
-- realtime.ts: the state that events act on, the guard on the session's id, and small helpers.
use acp_webui.Common.{Option, none, some, List, String, ◌==◌, ◌<>◌, Bool, ◌&&◌, if◌then◌else◌}
use acp_webui.Common.Host.{Clock}
use acp_webui.Types.{ChatMessage, InboxItem, SessionDetail}

pub record AppSnapshot : Type 0 where
  pub current_session : Option SessionDetail
  pub inbox : List InboxItem
  pub live_assistant : String
  pub error : Option String

-- `if (state.currentSession?.session.id !== id) return state;` and then the rest of the case.
unfoldable pub on_current : AppSnapshot → String → (SessionDetail → AppSnapshot) → AppSnapshot
on_current state id rest = elim state.current_session [
  | none ↦ state
  | some d ↦ if d.session.id == id then rest d else state
]

-- `{ ...detail, session: { ...detail.session, status } }`
abbrev pub with_status : SessionDetail → String → SessionDetail
with_status d new_status = record d { session = record d.session { status = new_status } }

unfoldable pub normalize_session_status : String → Bool → String
normalize_session_status status has_pending_permission =
    if has_pending_permission && status == "idle" then "waiting_approval" else status

unfoldable pub assistant_message : Clock → String → String → ChatMessage
assistant_message c id text = record {
  id = "live-" <> c.millis;
  session_id = id;
  role = "assistant";
  content = text;
  content_blocks = none;
  status = "idle";
  created_at = c.iso;
}
