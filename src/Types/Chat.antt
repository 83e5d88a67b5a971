-- ===== src/Types/Chat.antt =====
-- types.ts: messages, permission requests, review artifacts and queued prompts.
use Prim.Native.Nat.{ℕ}
use Prim.Native.String.{String}
use mathlib.Core.Option.{Option}
use mathlib.Core.List.{List}
use acp_webui.Types.Unknown.{Json}

pub data MessageContentBlock : Type 0 where
  text : String → MessageContentBlock
  image : (mime_type image_data : String) (uri name : Option String) → MessageContentBlock

pub record ChatMessage : Type 0 where
  pub id : String
  pub session_id : String
  pub role : String
  pub content : String
  pub content_blocks : Option (List MessageContentBlock)
  pub status : String
  pub created_at : String

pub record PermissionOption : Type 0 where
  pub option_id : String
  pub name : String
  pub kind : String

pub record PermissionRequest : Type 0 where
  pub id : String
  pub session_id : String
  pub acp_session_id : String
  pub tool_call_id : Option String
  pub title : String
  pub kind : String
  pub status : String
  pub selected_option_id : Option String
  pub tool_call : Json
  pub options : List PermissionOption
  pub failure_message : Option String
  pub created_at : String
  pub resolved_at : Option String

pub record ReviewArtifactSummary : Type 0 where
  pub id : String
  pub session_id : String
  pub tool_call_id : Option String
  pub kind : String
  pub title : String
  pub summary : String
  pub preview : Option Json
  pub source : String
  pub created_at : String

pub record ReviewArtifact : Type 0 where
  pub summary : ReviewArtifactSummary
  pub payload : Json

pub record QueuedPrompt : Type 0 where
  pub id : String
  pub session_id : String
  pub message_id : String
  pub prompt : String
  pub content_blocks : Option (List MessageContentBlock)
  pub status : String
  pub position : ℕ
  pub created_at : String
  pub submitted_at : Option String

pub record ActiveTurn : Type 0 where
  pub started_at : String
  pub status : String
  pub stop_requested_at : Option String
