-- ===== src/Samples.antt =====
-- Data for the tests: a host that reads a text of n characters as the time n, and small values of the
-- program's types.
use Prim.Native.String.{len}
use acp_webui.Common.{none, some, [], ◌∷◌, String, compare, true, false, is_empty, if◌then◌else◌}
use acp_webui.Common.Host.{Host, Clock}
use acp_webui.Types.{
  InboxItem, Json, PermissionRequest, ReviewArtifactSummary, Session, SessionContinuity,
  SessionDetail, TimelineItem, ToolCallItem, Workspace,
}

abbrev pub sample_host : Host
sample_host = record {
  parse_date = λ s. if is_empty s then none else some (len s);
  locale_compare = λ a b. compare (len a) (len b);
}

abbrev pub sample_clock : Clock
sample_clock = record { iso = "now"; millis = "3" }

abbrev pub sample_workspace : Workspace
sample_workspace = record { id = "w1"; name = "demo"; path = "/demo"; created_at = "c" }

abbrev pub session_named : String → String → Session
session_named name state = record {
  id = name;
  workspace_id = "w1";
  agent_id = "codex";
  agent_name = "Codex";
  title = none;
  native_title = none;
  native_updated_at = none;
  import_source = none;
  imported_at = none;
  permission_mode = "manual";
  launch_profile_id = none;
  launch_profile_key = none;
  acp_session_id = none;
  external_session_id = none;
  status = state;
  created_at = "c";
  updated_at = "uu";
}

abbrev pub request_at : String → String → PermissionRequest
request_at name date = record {
  id = name;
  session_id = "s1";
  acp_session_id = "a1";
  tool_call_id = none;
  title = "Run";
  kind = "execute";
  status = "pending";
  selected_option_id = none;
  tool_call = Json.null;
  options = [];
  failure_message = none;
  created_at = date;
  resolved_at = none;
}

abbrev pub live_continuity : SessionContinuity
live_continuity = record {
  state = "live";
  continuable = true;
  restorable = false;
  restoring = false;
  reason = none;
  failure_message = none;
  restore_started_at = none;
  restore_completed_at = none;
}

abbrev pub message_at : String → String → String → TimelineItem
message_at name date words = TimelineItem.message (record {
  id = name;
  session_id = "s1";
  timestamp = date;
  status = "idle";
  role = "assistant";
  content = words;
  content_blocks = none;
})

abbrev pub tool_named : String → String → String → ToolCallItem
tool_named name call state = record {
  id = name;
  session_id = "s1";
  timestamp = "tt";
  status = state;
  tool_call_id = some call;
  tool_kind = "execute";
  title = "ls";
  summary = "";
  input = Json.null;
  output = none;
  review_artifact_ids = [];
}

abbrev pub artifact_named : String → ReviewArtifactSummary
artifact_named name = record {
  id = name;
  session_id = "s1";
  tool_call_id = some "t1";
  kind = "diff";
  title = "Diff";
  summary = "";
  preview = none;
  source = "acp";
  created_at = "ttt";
}

abbrev pub sample_detail : SessionDetail
sample_detail = record {
  session = session_named "s1" "running";
  workspace = sample_workspace;
  config_options = none;
  current_model = none;
  launch_control_summary = none;
  messages = [];
  queued_prompts = none;
  active_turn = some (record { started_at = "tttt"; status = "running"; stop_requested_at = none });
  review_artifacts = [];
  timeline = message_at "m1" "t" "hi" ∷ message_at "m2" "ttt" "there" ∷ [];
  pending_permission = some (request_at "p1" "d");
  pending_permissions = some (request_at "p1" "d" ∷ request_at "p2" "dd" ∷ []);
  pending_approval_count = some 2;
  queued_approval_count = some 1;
  failure_message = none;
  continuity = live_continuity;
  continuable = true;
  view_only_reason = none;
}

abbrev pub sample_entry : InboxItem
sample_entry = record {
  session = session_named "s1" "running";
  workspace = sample_workspace;
  permission = request_at "p1" "d";
  queued_approval_count = some 1;
}
