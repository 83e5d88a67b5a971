-- ===== src/Types/Timeline.antt =====
-- types.ts: the items of a session's timeline, one record for each kind.
use Prim.Native.String.{String}
use mathlib.Core.Option.{Option}
use mathlib.Core.List.{List}
use acp_webui.Types.Unknown.{Json}
use acp_webui.Types.Chat.{MessageContentBlock}

pub record MessageItem : Type 0 where
  pub id : String
  pub session_id : String
  pub timestamp : String
  pub status : String
  pub role : String
  pub content : String
  pub content_blocks : Option (List MessageContentBlock)

pub record ToolCallItem : Type 0 where
  pub id : String
  pub session_id : String
  pub timestamp : String
  pub status : String
  pub tool_call_id : Option String
  pub tool_kind : String
  pub title : String
  pub summary : String
  pub input : Json
  pub output : Option Json
  pub review_artifact_ids : List String

pub record PermissionItem : Type 0 where
  pub id : String
  pub session_id : String
  pub timestamp : String
  pub status : String
  pub tool_call_id : Option String
  pub title : String
  pub permission_kind : String

pub record ReviewArtifactItem : Type 0 where
  pub id : String
  pub session_id : String
  pub timestamp : String
  pub status : String
  pub tool_call_id : Option String
  pub artifact_kind : String
  pub title : String
  pub summary : String
  pub source : String

pub data TimelineItem : Type 0 where
  message : MessageItem → TimelineItem
  tool_call : ToolCallItem → TimelineItem
  permission : PermissionItem → TimelineItem
  review_artifact : ReviewArtifactItem → TimelineItem

-- The fields that every kind has.
abbrev pub item_kind : TimelineItem → String
item_kind (TimelineItem.message m) = "message"
item_kind (TimelineItem.tool_call t) = "tool_call"
item_kind (TimelineItem.permission p) = "permission"
item_kind (TimelineItem.review_artifact r) = "review_artifact"

abbrev pub item_id : TimelineItem → String
item_id (TimelineItem.message m) = m.id
item_id (TimelineItem.tool_call t) = t.id
item_id (TimelineItem.permission p) = p.id
item_id (TimelineItem.review_artifact r) = r.id

abbrev pub item_session_id : TimelineItem → String
item_session_id (TimelineItem.message m) = m.session_id
item_session_id (TimelineItem.tool_call t) = t.session_id
item_session_id (TimelineItem.permission p) = p.session_id
item_session_id (TimelineItem.review_artifact r) = r.session_id

abbrev pub item_timestamp : TimelineItem → String
item_timestamp (TimelineItem.message m) = m.timestamp
item_timestamp (TimelineItem.tool_call t) = t.timestamp
item_timestamp (TimelineItem.permission p) = p.timestamp
item_timestamp (TimelineItem.review_artifact r) = r.timestamp
