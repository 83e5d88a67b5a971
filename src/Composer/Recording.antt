-- ===== src/Composer/Recording.antt =====
-- The recording of a voice in `PromptComposer` of frontend/src/features/sessions/SessionPane.tsx.
use acp_webui.Common.{
  String, ℕ, ◌+◌, Bool, true, false, not, ◌||◌, Option, none, some, List, [], ◌∷◌, ◌++◌,
  if◌then◌else◌, is_empty, is_some, nat_eq,
}
use acp_webui.Composer.Files.{Thrown, message_of, recording_error_message, recording_file_name}
use acp_webui.Composer.State.{
  Blob, Call, Composer, Recorder, VoiceState, is_recording, is_transcribing,
}
use acp_webui.Voice.Transcript.{insert_voice_transcript}

-- `stopMediaStream`
unfoldable pub stop_media_stream : Option ℕ → Composer → Composer
stop_media_stream none c = c
stop_media_stream (some stream) c = record c { stopped = stream ∷ c.stopped }

unfoldable pub size_of : List Blob → ℕ
size_of [] = 0
size_of (part ∷ parts) = part.size + size_of parts

-- `recorder.mimeType || chunks[0]?.type || "audio/webm"`
abbrev pub audio_mime_type : Recorder → List Blob → String
audio_mime_type recorder [] =
    if is_empty recorder.mime_type then "audio/webm" else recorder.mime_type
audio_mime_type recorder (part ∷ parts) =
    if not (is_empty recorder.mime_type)
    then recorder.mime_type
    else if not (is_empty part.type)
    then part.type
    else "audio/webm"

abbrev pub set_idle : Option String → Composer → Composer
set_idle voice_error c =
    if c.voice_active
    then record c {
      voice_state = VoiceState.idle;
      voice_error = if is_some voice_error then voice_error else c.voice_error;
    }
    else c

-- The part of `finishVoiceRecording` behind the release of the stream.
unfoldable pub transcribe_chunks : Recorder → Bool → List Blob → Composer → Composer
unfolding size_of recording_file_name
transcribe_chunks recorder should_transcribe chunks c =
    if not should_transcribe
    then set_idle none c
    else if nat_eq (size_of chunks) 0
    then set_idle (some "No audio was recorded. Try again.") c
    else record c {
      voice_state = if c.voice_active then VoiceState.transcribing else c.voice_state;
      calls =
          Call.transcribe_audio chunks (audio_mime_type recorder chunks)
            (recording_file_name (audio_mime_type recorder chunks))
          ∷ c.calls;
    }

unfoldable pub finish_voice_recording : Recorder → Composer → Composer
unfolding stop_media_stream transcribe_chunks
finish_voice_recording recorder c = transcribe_chunks recorder c.transcribe_on_stop c.audio_chunks (
    stop_media_stream c.media_stream (record c {
      transcribe_on_stop = false;
      media_recorder = none;
      media_stream = none;
      audio_chunks = [];
    }))

unfoldable pub stop_recorder : Option Recorder → Composer → Composer
unfolding finish_voice_recording
stop_recorder none c = record c { voice_state = VoiceState.idle }
stop_recorder (some recorder) c =
    if recorder.inactive
    then finish_voice_recording recorder c
    else record c { media_recorder = some (record recorder { inactive = true }) }

unfoldable pub stop_voice_recording : Bool → Composer → Composer
unfolding stop_recorder
stop_voice_recording transcribe c =
    stop_recorder c.media_recorder (record c { transcribe_on_stop = transcribe })

-- `startVoiceRecording` until it waits for the microphone.
unfoldable pub start_voice_recording : Composer → Composer
start_voice_recording c =
    if not c.props.voice_supported
      || c.props.disabled
      || c.props.busy
      || is_recording c.voice_state
      || is_transcribing c.voice_state
    then c
    else record c { voice_error = none; audio_chunks = []; transcribe_on_stop = true }

-- How the recorder of a stream comes out: it runs, its constructor throws, or its `start` throws.
pub data Made : Type 0 where
  started : (mime_type : String) → Made
  not_made : Thrown → Made
  not_started : (mime_type : String) → Thrown → Made

-- The `catch` of `startVoiceRecording`.
unfoldable pub recording_failed : Thrown → Composer → Composer
unfolding recording_error_message
recording_failed thrown c = record c {
  voice_state = VoiceState.idle;
  voice_error = some (recording_error_message thrown);
}

unfoldable pub made_recorder : ℕ → Made → Composer → Composer
unfolding recording_failed
made_recorder stream (Made.started mime_type) c = record c {
  media_stream = some stream;
  media_recorder = some (record { mime_type = mime_type; inactive = false });
  voice_state = VoiceState.recording;
}
made_recorder stream (Made.not_made thrown) c = recording_failed thrown c
made_recorder stream (Made.not_started mime_type thrown) c = recording_failed thrown (record c {
  media_stream = some stream;
  media_recorder = some (record { mime_type = mime_type; inactive = true });
})

-- The rest of `startVoiceRecording`, with the stream that the microphone gives.
unfoldable pub microphone_granted : ℕ → Made → Composer → Composer
unfolding stop_media_stream made_recorder
microphone_granted stream made c =
    let given = record c { opened = stream ∷ c.opened } in
    if not c.voice_active
    then stop_media_stream (some stream) given
    else made_recorder stream made given

unfoldable pub data_available : Blob → Composer → Composer
data_available part c =
    if nat_eq part.size 0 then c else record c { audio_chunks = c.audio_chunks ++ (part ∷ []) }

unfoldable pub recorder_failed : Composer → Composer
unfolding stop_voice_recording
recorder_failed c =
    stop_voice_recording false (record c { voice_error = some "Voice input failed. Try again." })

-- What follows `transcribeAudio`.
unfoldable pub transcribed : String → Composer → Composer
unfolding insert_voice_transcript
transcribed text c =
    if c.voice_active
    then record c {
      prompt = insert_voice_transcript c.prompt text;
      voice_error = none;
      voice_state = VoiceState.idle;
    }
    else c

unfoldable pub transcription_failed : Thrown → Composer → Composer
transcription_failed thrown c =
    if c.voice_active
    then record c { voice_error = some (message_of thrown); voice_state = VoiceState.idle }
    else c

unfoldable pub toggle_voice_input : Composer → Composer
unfolding stop_voice_recording start_voice_recording
toggle_voice_input c =
    if not c.props.voice_supported || c.props.disabled || c.props.busy
    then c
    else if is_recording c.voice_state
    then stop_voice_recording true c
    else start_voice_recording c
