-- ===== src/Composer/State.antt =====
-- The variables of `PromptComposer` in frontend/src/features/sessions/SessionPane.tsx.
use acp_webui.Common.{String, ℕ, Bool, Option, List}
use acp_webui.Composer.Files.{ImageAttachment}
use acp_webui.Types.{MessageContentBlock}

pub data VoiceState : Type 0 where
  idle recording transcribing : VoiceState

-- A `MediaRecorder`; it is inactive before it starts and after it stops.
pub record Recorder : Type 0 where
  pub mime_type : String
  pub inactive : Bool

pub record Blob : Type 0 where
  pub size : ℕ
  pub type : String

pub record Props : Type 0 where
  pub agent_name : String
  pub busy : Bool
  pub disabled : Bool
  pub image_prompt_supported : Bool
  pub voice_supported : Bool

-- What `submitPrompt` keeps while its prompt is sent.
pub record Submitted : Type 0 where
  pub prompt : String
  pub attachments : List ImageAttachment
  pub voice_recording : Bool

-- A call of the server: the prompt that is sent, or the audio that is transcribed.
pub data Call : Type 0 where
  send_prompt : (prompt : String) (content_blocks : List MessageContentBlock) → Call
  transcribe_audio : (parts : List Blob) (mime_type file_name : String) → Call

-- `opened`, `stopped` and `calls` record what is done outside: the streams that the microphone gave and
-- those of which every track is stopped, by their numbers, and the calls of the server, the latest
-- first. `submitted` holds what each submission keeps, the latest first.
pub record Composer : Type 0 where
  pub props : Props
  pub prompt : String
  pub attachments : List ImageAttachment
  pub attachment_error : Option String
  pub preview_attachment_id : Option String
  pub voice_state : VoiceState
  pub voice_error : Option String
  pub media_recorder : Option Recorder
  pub media_stream : Option ℕ
  pub audio_chunks : List Blob
  pub transcribe_on_stop : Bool
  pub voice_active : Bool
  pub submitted : List Submitted
  pub opened : List ℕ
  pub stopped : List ℕ
  pub calls : List Call

abbrev pub is_recording : VoiceState → Bool
is_recording VoiceState.recording = Bool.true
is_recording VoiceState.idle = Bool.false
is_recording VoiceState.transcribing = Bool.false

abbrev pub is_transcribing : VoiceState → Bool
is_transcribing VoiceState.transcribing = Bool.true
is_transcribing VoiceState.idle = Bool.false
is_transcribing VoiceState.recording = Bool.false
