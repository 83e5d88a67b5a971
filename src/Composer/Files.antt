-- ===== src/Composer/Files.antt =====
-- `readImageAttachment`, `preferredAudioMimeType`, `recordingFileName` and `recordingErrorMessage` of
-- frontend/src/features/sessions/SessionPane.tsx.
use acp_webui.Common.{
  String, ℕ, Bool, not, ◌||◌, Option, none, some, List, [], ◌∷◌, find, if◌then◌else◌, includes,
  is_empty, ltb, or_else, ◌==◌, ◌<>◌,
}
use acp_webui.Common.Sets.{has}
use acp_webui.Common.Text.{to_lower_case}
use acp_webui.Common.Text.Number.{decimal}
use acp_webui.Common.Text.Split.{is_code}

abbrev pub supported_image_mime_types : List String
supported_image_mime_types = "image/png" ∷ "image/jpeg" ∷ "image/webp" ∷ "image/gif" ∷ []

abbrev pub max_image_bytes : ℕ
max_image_bytes = 5242880

-- A file, with what the host gives for it: `result` is the data URL that the `FileReader` reads, `none`
-- where it fails, and `uuid` is the text that tells one attachment from another.
pub record File : Type 0 where
  pub name : String
  pub type : String
  pub size : ℕ
  pub last_modified : ℕ
  pub result : Option String
  pub uuid : String

pub record ImageAttachment : Type 0 where
  pub id : String
  pub mime_type : String
  pub image_data : String
  pub uri : Option String
  pub name : String
  pub size : ℕ

pub data Read : Type 0 where
  loaded : ImageAttachment → Read
  rejected : (message : String) → Read

-- What is behind the first comma.
unfoldable pub after_comma : String → Option String
after_comma String.[] = none
after_comma (String.◌∷◌ c s) = let rest = after_comma s in if is_code b',' c then some s else rest

unfoldable pub loaded_attachment : File → Option String → Read
unfolding after_comma decimal
loaded_attachment file none = Read.rejected "Failed to read image attachment."
loaded_attachment file (some result) = Read.loaded (record {
  id =
      file.name
      <> "-"
      <> decimal file.size
      <> "-"
      <> decimal file.last_modified
      <> "-"
      <> file.uuid;
  mime_type = file.type;
  image_data = or_else (after_comma result) result;
  uri = none;
  name = file.name;
  size = file.size;
})

unfoldable pub read_image_attachment : File → Read
unfolding loaded_attachment
read_image_attachment file =
    if not (has file.type supported_image_mime_types)
    then Read.rejected
        ("Unsupported image type " <> (if is_empty file.type then "unknown" else file.type) <> ".")
    else if ltb max_image_bytes file.size
    then Read.rejected "Image attachments must be 5 MB or smaller."
    else loaded_attachment file file.result

-- The second argument is `MediaRecorder.isTypeSupported`.
unfoldable pub preferred_audio_mime_type : Option (String → Bool) → String
preferred_audio_mime_type none = ""
preferred_audio_mime_type (some is_type_supported) =
    or_else (find is_type_supported ("audio/webm" ∷ "audio/ogg" ∷ "audio/mp4" ∷ [])) ""

unfoldable pub recording_file_name : String → String
unfolding to_lower_case
recording_file_name mime_type =
    let normalized = to_lower_case mime_type in
    if includes normalized "mp4"
    then "recording.mp4"
    else if includes normalized "ogg"
    then "recording.ogg"
    else if includes normalized "mpeg"
    then "recording.mp3"
    else if includes normalized "wav"
    then "recording.wav"
    else "recording.webm"

-- What is thrown: an error of the DOM, another error, or something else.
pub data Thrown : Type 0 where
  dom_exception : (name message : String) → Thrown
  error : (message : String) → Thrown
  other : (text : String) → Thrown

-- `error instanceof Error ? error.message : String(error)`
abbrev pub message_of : Thrown → String
message_of (Thrown.dom_exception name message) = message
message_of (Thrown.error message) = message
message_of (Thrown.other text) = text

unfoldable pub recording_error_message : Thrown → String
recording_error_message (Thrown.dom_exception name message) =
    if name == "NotAllowedError" || name == "SecurityError"
    then "Microphone access was denied. Check browser permissions and try again."
    else if name == "NotFoundError"
    then "No microphone was found for voice input."
    else message
recording_error_message (Thrown.error message) = message
recording_error_message (Thrown.other text) = "Voice input failed. Try again."
