-- ===== src/Composer/Tests.antt =====
-- The composer of a prompt at concrete inputs.
use acp_webui.Common.{List, true, false, some, none, [], ◌∷◌, ◌≡◌, refl}
use acp_webui.Composer.Draft.{add_image_files}
use acp_webui.Composer.Files.{File, Thrown, recording_file_name}
use acp_webui.Composer.Recording.{Made}
use acp_webui.Composer.State.{Blob, Call, Composer}
use acp_webui.Composer.Step.{Event, new_composer, run}
use acp_webui.Composer.Leaves.{IsHeld, among}
use acp_webui.Composer.Streams.{run-IsHeld}
use acp_webui.Composer.Images.{HasAcceptedImages, add_image_files-HasAcceptedImages}
use acp_webui.Composer.Faults.{able, second_microphone}

abbrev picture : File
picture = record {
  name = "a.png";
  type = "image/png";
  size = 4;
  last_modified = 7;
  result = some "data:image/png;base64,aGk=";
  uuid = "u";
}

abbrev drawing : File
drawing = record picture { type = "image/svg+xml" }

abbrev ready : Composer
ready = new_composer (able "Codex" true)

abbrev drafted : Composer
drafted = record (run (Event.files_added (picture ∷ []) ∷ []) ready) { prompt = " fix it " }

one_picture :
    drafted.attachments
    ≡ record {
      id = "a.png-4-7-u";
      mime_type = "image/png";
      image_data = "aGk=";
      uri = none;
      name = "a.png";
      size = 4;
    }
      ∷ []
unfolding run
one_picture = refl

no_drawing :
    (add_image_files (picture ∷ drawing ∷ []) ready).attachment_error
    ≡ some "Unsupported image type image/svg+xml."
unfolding add_image_files
no_drawing = refl

opus : recording_file_name "audio/OGG; codecs=opus" ≡ "recording.ogg"
unfolding recording_file_name
opus = refl

-- The microphone is on for good if no recorder can be made of its stream.
left_on :
    (run
      (Event.voice_toggled
        ∷ Event.granted 1 (Made.not_made (Thrown.error "NotSupportedError"))
        ∷ Event.unmounted
        ∷ [])
      ready).stopped
    ≡ []
unfolding run
left_on = refl

abbrev sound : Blob
sound = record { size = 9; type = "audio/webm" }

sent_to_transcribe :
    (run
      (Event.voice_toggled
        ∷ Event.granted 1 (Made.started "audio/webm")
        ∷ Event.voice_toggled
        ∷ Event.data_arrived sound
        ∷ Event.recorder_stopped (record { mime_type = "audio/webm"; inactive = true })
        ∷ [])
      ready).calls
    ≡ Call.transcribe_audio (sound ∷ []) "audio/webm" "recording.webm" ∷ []
unfolding run
sent_to_transcribe = refl

abbrev one_recording : List Event
one_recording =
    Event.voice_toggled
    ∷ Event.granted 1 (Made.started "audio/webm")
    ∷ Event.unmounted
    ∷ Event.recorder_stopped (record { mime_type = "audio/webm"; inactive = true })
    ∷ Event.granted 2 (Made.started "audio/webm")
    ∷ []

run-IsHeld_example : IsHeld (run one_recording ready)
unfolding run
run-IsHeld_example =
    run-IsHeld (able "Codex" true) one_recording (tt, (refl, (tt, (tt, (refl, tt)))))

-- The microphone is asked for twice before it is given, and given twice.
abbrev asked_twice : Composer
asked_twice =
    run
      (Event.voice_toggled ∷ Event.voice_toggled ∷ Event.granted 1 (Made.started "audio/webm") ∷ [])
      ready

abbrev afterwards : List Event
afterwards =
    Event.voice_toggled
    ∷ Event.recorder_stopped (record { mime_type = "audio/webm"; inactive = true })
    ∷ Event.unmounted
    ∷ []

second_microphone_example :
    among 1 (run (Event.granted 2 (Made.started "audio/webm") ∷ afterwards) asked_twice).stopped
    ≡ false
unfolding run
second_microphone_example =
    second_microphone asked_twice 1 2 "audio/webm" afterwards refl refl refl (tt, (tt, (tt, tt)))

add_image_files-HasAcceptedImages_example :
    HasAcceptedImages (add_image_files (picture ∷ drawing ∷ []) ready)
add_image_files-HasAcceptedImages_example =
    add_image_files-HasAcceptedImages (picture ∷ drawing ∷ []) ready (tt, tt)
