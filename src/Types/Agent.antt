-- ===== src/Types/Agent.antt =====
-- types.ts: connections, agents and their controls.
use Prim.Native.Nat.{ℕ}
use Prim.Native.String.{String}
use mathlib.Core.Bool.{Bool}
use mathlib.Core.Option.{Option}
use mathlib.Core.List.{List}
use acp_webui.Types.Unknown.{Json}

pub record AgentSessionCapabilities : Type 0 where
  pub load_session : Bool
  pub resume_session : Bool
  pub list_sessions : Bool
  pub close_session : Bool

pub record AgentPromptCapabilities : Type 0 where
  pub image : Bool
  pub audio : Bool
  pub embedded_context : Bool

pub record ConnectionStatus : Type 0 where
  pub state : String
  pub message : Option String
  pub agent_info : Option Json
  pub prompt_capabilities : Option AgentPromptCapabilities
  pub session_capabilities : Option AgentSessionCapabilities

abbrev pub PermissionModeId : Type 0
PermissionModeId = String

abbrev pub PermissionModeRiskLevel : Type 0
PermissionModeRiskLevel = String

pub record AgentPermissionModeStatus : Type 0 where
  pub id : PermissionModeId
  pub label : String
  pub description : String
  pub risk_level : PermissionModeRiskLevel
  pub status : ConnectionStatus

pub record AgentControlValue : Type 0 where
  pub value : String
  pub label : String
  pub description : Option String
  pub risk_level : Option PermissionModeRiskLevel

pub record AgentControl : Type 0 where
  pub id : String
  pub label : String
  pub description : Option String
  pub category : String
  pub scope : String
  pub type : String
  pub default_value : String
  pub options : List AgentControlValue

pub record AgentControlSelection : Type 0 where
  pub id : String
  pub label : String
  pub value : String
  pub value_label : String
  pub category : String
  pub scope : String
  pub risk_level : Option PermissionModeRiskLevel

pub record AgentRuntimeStatus : Type 0 where
  pub id : String
  pub provider_id : Option String
  pub title : String
  pub enabled : Bool
  pub status : ConnectionStatus
  pub permission_modes : List AgentPermissionModeStatus
  pub launch_controls : Option (List AgentControl)

pub record AuthStatus : Type 0 where
  pub access : String
  pub pairing_required : Bool
  pub client_ip : Option String

pub record AccessObservability : Type 0 where
  pub bind_host : String
  pub bind_port : ℕ
  pub access_url : String
  pub auth : AuthStatus
  pub exposure_mode : String
  pub tailscale_serve_url : Option String

pub record TranscriptionCapability : Type 0 where
  pub available : Bool
  pub max_audio_bytes : ℕ
