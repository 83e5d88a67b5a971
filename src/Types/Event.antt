-- ===== src/Types/Event.antt =====
-- types.ts: the events that arrive over the web socket.
use Prim.Native.Nat.{ℕ}
use Prim.Native.String.{String}
use mathlib.Core.Option.{Option}
use mathlib.Core.List.{List}
use acp_webui.Types.Agent.{ConnectionStatus, PermissionModeId}
use acp_webui.Types.Chat.{ActiveTurn, PermissionRequest, QueuedPrompt, ReviewArtifactSummary}
use acp_webui.Types.Timeline.{TimelineItem}
use acp_webui.Types.Sessions.{Session, SessionConfigOption, SessionCurrentModel, Workspace}

pub record PermissionRequested : Type 0 where
  pub permission : PermissionRequest
  pub active_permission : Option PermissionRequest
  pub pending_approval_count : Option ℕ
  pub queued_approval_count : Option ℕ

pub record PermissionResolved : Type 0 where
  pub session_id : String
  pub permission_id : String
  pub next_permission : Option PermissionRequest
  pub status : Option String
  pub pending_approval_count : Option ℕ
  pub queued_approval_count : Option ℕ

pub data RealtimeEvent : Type 0 where
  connection_status : (status : ConnectionStatus) → RealtimeEvent
  agent_connection_status :
      (agent_id : String) (permission_mode : Option PermissionModeId) (status : ConnectionStatus)
      → RealtimeEvent
  session_status : (session_id status : String) → RealtimeEvent
  active_turn_updated :
      (session_id status : String) (active_turn : Option ActiveTurn) → RealtimeEvent
  queued_prompts_updated :
      (session_id : String) (queued_prompts : Option (List QueuedPrompt)) → RealtimeEvent
  text_delta : (session_id delta : String) → RealtimeEvent
  assistant_message : (session_id content : String) → RealtimeEvent
  permission_requested : PermissionRequested → RealtimeEvent
  permission_resolved : PermissionResolved → RealtimeEvent
  review_artifact : (artifact : ReviewArtifactSummary) → RealtimeEvent
  timeline_item_upsert : (item : TimelineItem) → RealtimeEvent
  session_restore_started : (session_id : String) → RealtimeEvent
  session_restore_succeeded : (session_id : String) → RealtimeEvent
  session_restore_failed : (session_id message : String) → RealtimeEvent
  session_list_changed : (workspace_id agent_id : String) (count : ℕ) → RealtimeEvent
  workspace_changed : (workspace_id : String) (workspace : Workspace) → RealtimeEvent
  workspace_deleted : (workspace_id : String) (session_count : ℕ) → RealtimeEvent
  session_updated : (session_id : String) (session : Session) → RealtimeEvent
  session_deleted : (session_id workspace_id agent_id : String) → RealtimeEvent
  session_config_updated :
      (session_id : String) (config_options : Option (List SessionConfigOption))
      (current_model : Option SessionCurrentModel)
      → RealtimeEvent
  error : (message : String) → RealtimeEvent
