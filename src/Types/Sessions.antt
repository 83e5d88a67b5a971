-- ===== src/Types/Sessions.antt =====
-- types.ts: workspaces, sessions, their details and list items, and the inbox.
use Prim.Native.Nat.{ℕ}
use Prim.Native.String.{String}
use mathlib.Core.Bool.{Bool}
use mathlib.Core.Option.{Option}
use mathlib.Core.List.{List}
use acp_webui.Types.Agent.{AgentControlSelection, PermissionModeId}
use acp_webui.Types.Chat.{
  ActiveTurn, ChatMessage, PermissionRequest, QueuedPrompt, ReviewArtifactSummary,
}
use acp_webui.Types.Timeline.{TimelineItem}

pub record Workspace : Type 0 where
  pub id : String
  pub name : String
  pub path : String
  pub created_at : String

pub record Session : Type 0 where
  pub id : String
  pub workspace_id : String
  pub agent_id : String
  pub agent_name : String
  pub title : Option String
  pub native_title : Option String
  pub native_updated_at : Option String
  pub import_source : Option String
  pub imported_at : Option String
  pub permission_mode : PermissionModeId
  pub launch_profile_id : Option String
  pub launch_profile_key : Option String
  pub acp_session_id : Option String
  pub external_session_id : Option String
  pub status : String
  pub created_at : String
  pub updated_at : String

pub record SessionContinuity : Type 0 where
  pub state : String
  pub continuable : Bool
  pub restorable : Bool
  pub restoring : Bool
  pub reason : Option String
  pub failure_message : Option String
  pub restore_started_at : Option String
  pub restore_completed_at : Option String

pub record SessionConfigSelectValue : Type 0 where
  pub value : String
  pub name : String
  pub description : Option String

pub record SessionConfigSelectGroup : Type 0 where
  pub name : String
  pub description : Option String
  pub options : List SessionConfigSelectValue

pub data SessionConfigSelectOption : Type 0 where
  value_option : SessionConfigSelectValue → SessionConfigSelectOption
  group_option : SessionConfigSelectGroup → SessionConfigSelectOption

pub record SessionConfigOption : Type 0 where
  pub id : String
  pub name : String
  pub description : Option String
  pub category : Option String
  pub type : String
  pub current_value : Option String
  pub options : Option (List SessionConfigSelectOption)

pub record SessionCurrentModel : Type 0 where
  pub config_id : String
  pub value : String
  pub name : Option String

pub record SessionDetail : Type 0 where
  pub session : Session
  pub workspace : Workspace
  pub config_options : Option (List SessionConfigOption)
  pub current_model : Option SessionCurrentModel
  pub launch_control_summary : Option (List AgentControlSelection)
  pub messages : List ChatMessage
  pub queued_prompts : Option (List QueuedPrompt)
  pub active_turn : Option ActiveTurn
  pub review_artifacts : List ReviewArtifactSummary
  pub timeline : List TimelineItem
  pub pending_permission : Option PermissionRequest
  pub pending_permissions : Option (List PermissionRequest)
  pub pending_approval_count : Option ℕ
  pub queued_approval_count : Option ℕ
  pub failure_message : Option String
  pub continuity : SessionContinuity
  pub continuable : Bool
  pub view_only_reason : Option String

pub record InboxItem : Type 0 where
  pub session : Session
  pub workspace : Workspace
  pub permission : PermissionRequest
  pub queued_approval_count : Option ℕ

pub record SessionListPermission : Type 0 where
  pub id : String
  pub title : String
  pub kind : String
  pub created_at : String

pub record SessionListItem : Type 0 where
  pub session : Session
  pub workspace : Workspace
  pub last_activity_at : String
  pub current_model : Option SessionCurrentModel
  pub launch_control_summary : Option (List AgentControlSelection)
  pub queued_prompt_count : Option ℕ
  pub active_turn : Option ActiveTurn
  pub pending_permission : Option SessionListPermission
  pub queued_approval_count : Option ℕ
  pub review_artifact_count : ℕ
  pub has_review_artifacts : Bool
  pub continuity : SessionContinuity
  pub continuable : Bool
  pub view_only_reason : Option String
