-- ===== src/Composer/Step.antt =====
-- The events of `PromptComposer` in frontend/src/features/sessions/SessionPane.tsx, and its effects.
use acp_webui.Common.{
  String, ℕ, Bool, true, false, not, ◌&&◌, ◌||◌, Option, none, some, List, [], ◌∷◌, if◌then◌else◌,
}
use acp_webui.Composer.Draft.{
  add_image_files, answer, apply_prompt_template, prompt_settled, remove_attachment, submission,
  submit_prompt, update_prompt_draft,
}
use acp_webui.App.Busy.{Outcome, send_prompt}
use acp_webui.Composer.Files.{File, Thrown}
use acp_webui.Composer.Recording.{
  Made, data_available, finish_voice_recording, microphone_granted, recorder_failed,
  recording_failed, stop_media_stream, stop_voice_recording, toggle_voice_input, transcribed,
  transcription_failed,
}
use acp_webui.Composer.State.{Blob, Composer, Props, Recorder, VoiceState, is_recording}

-- `sent` tells what `submitPromptToSession` came to for a submission, which `sendPrompt` hands on.
-- `recorder_ended` tells that the host made the recorder inactive by itself, before its `onstop`.
pub data Event : Type 0 where
  edited : String → Event
  voice_toggled : Event
  granted : (stream : ℕ) → Made → Event
  refused : Thrown → Event
  data_arrived : Blob → Event
  recorder_error : Event
  recorder_ended : Event
  recorder_stopped : Recorder → Event
  transcript_arrived : String → Event
  transcript_refused : Thrown → Event
  submitted : Event
  sent : (submission : ℕ) (outcome : Option Outcome) → Event
  files_added : List File → Event
  attachment_removed : (id : String) → Event
  template_applied : (body : String) → Event
  rendered : Props → Event
  unmounted : Event

abbrev ended : Option Recorder → Option Recorder
ended none = none
ended (some recorder) = some (record recorder { inactive = true })

-- The cleanup of the effect that runs once.
unfoldable pub unmount : Composer → Composer
unfolding stop_voice_recording stop_media_stream
unmount c =
    let quiet = stop_voice_recording false (record c { voice_active = false }) in
    stop_media_stream quiet.media_stream quiet

unfoldable pub handle : Event → Composer → Composer
unfolding update_prompt_draft toggle_voice_input microphone_granted recording_failed data_available
    recorder_failed finish_voice_recording transcribed transcription_failed submit_prompt submission
    prompt_settled send_prompt add_image_files remove_attachment apply_prompt_template unmount
handle (Event.edited value) c = update_prompt_draft value c
handle Event.voice_toggled c = toggle_voice_input c
handle (Event.granted stream made) c = microphone_granted stream made c
handle (Event.refused thrown) c = recording_failed thrown c
handle (Event.data_arrived part) c = data_available part c
handle Event.recorder_error c = recorder_failed c
handle Event.recorder_ended c = record c { media_recorder = ended c.media_recorder }
handle (Event.recorder_stopped recorder) c = finish_voice_recording recorder c
handle (Event.transcript_arrived text) c = transcribed text c
handle (Event.transcript_refused thrown) c = transcription_failed thrown c
handle Event.submitted c = submit_prompt c
handle (Event.sent n outcome) c =
    answer (prompt_settled (send_prompt outcome)) (submission n c.submitted) c
handle (Event.files_added files) c = add_image_files files c
handle (Event.attachment_removed id) c = remove_attachment id c
handle (Event.template_applied body) c = apply_prompt_template body c
handle (Event.rendered props) c = record c { props = props }
handle Event.unmounted c = unmount c

abbrev differ : Bool → Bool → Bool
differ a b = if a then not b else b

-- Whether the effect on `[busy, disabled, voiceRecording]`, which runs when one of them has changed,
-- stops the recording.
abbrev pub is_stopped : (before after : Composer) → Bool
is_stopped before after =
    after.voice_active
    && (differ before.props.busy after.props.busy
        || differ before.props.disabled after.props.disabled
        || differ (is_recording before.voice_state) (is_recording after.voice_state))
    && is_recording after.voice_state
    && (after.props.disabled || after.props.busy)

unfoldable pub voice_effect : (before after : Composer) → Composer
unfolding stop_voice_recording
voice_effect before after =
    if is_stopped before after then stop_voice_recording false after else after

unfoldable pub step : Event → Composer → Composer
unfolding handle voice_effect
step event c = voice_effect c (handle event c)

unfoldable pub run : List Event → Composer → Composer
unfolding step
run [] c = c
run (event ∷ events) c = run events (step event c)

abbrev pub new_composer : Props → Composer
new_composer props = record {
  props = props;
  prompt = "";
  attachments = [];
  attachment_error = none;
  preview_attachment_id = none;
  voice_state = VoiceState.idle;
  voice_error = none;
  media_recorder = none;
  media_stream = none;
  audio_chunks = [];
  transcribe_on_stop = false;
  voice_active = true;
  submitted = [];
  opened = [];
  stopped = [];
  calls = [];
}
