-- ===== src/Voice/Tests.antt =====
-- Voice input at concrete inputs.
use acp_webui.Common.{true, false, Option, none, some, List, [], ◌∷◌, ◌++◌, ◌≡◌, refl}
use acp_webui.Common.Text.{trim}
use acp_webui.Voice.Support.{Constructor, SpeechRecognitionTarget, speech_recognition_supported}
use acp_webui.Voice.Transcript.{
  SpeechRecognitionResult, SpeechRecognitionResultEvent, insert_voice_transcript, ℤ,
}
use acp_webui.Voice.Adapter.{
  Input, LifecycleEvent, SpeechRecognitionEndReason, new_adapter, run, step,
}
use acp_webui.Voice.Laws.{end_reason_since_start, expected_reason}
use acp_webui.Common.Text.Words.{words}
use acp_webui.Voice.Words.{words-insert_voice_transcript}

abbrev plain_page : SpeechRecognitionTarget
plain_page = record {
  speech_recognition = none;
  webkit_speech_recognition = some Constructor.function;
  is_secure_context = some false;
  location = some (record { hostname = some "192.168.0.2"; protocol = some "http:" });
}

insecure : speech_recognition_supported (some plain_page) ≡ false
unfolding speech_recognition_supported
insecure = refl

spaced : insert_voice_transcript "fix the" " bug " ≡ "fix the bug"
unfolding insert_voice_transcript
spaced = refl

abbrev heard : List (Option SpeechRecognitionResult)
heard =
    some (record { is_final = some true; transcript = some " open " })
    ∷ none
    ∷ some (record { is_final = some false; transcript = some "the file" })
    ∷ []

abbrev said : SpeechRecognitionResultEvent
said = record { result_index = some (ℤ.negsuc 0); results = some heard }

abbrev inputs : List Input
inputs = Input.on_start ∷ Input.on_result said ∷ []

told :
    (run (Input.begin none ∷ inputs ++ Input.on_end ∷ []) new_adapter).events
    ≡ LifecycleEvent.listening
      ∷ LifecycleEvent.transcript "open the file" false
      ∷ LifecycleEvent.ended SpeechRecognitionEndReason.complete
      ∷ []
unfolding run new_adapter trim
told = refl

end_reason_since_start_example :
    (step Input.on_end (run (Input.begin none ∷ inputs) new_adapter).adapter).events
    ≡ LifecycleEvent.ended (expected_reason none inputs) ∷ []
unfolding new_adapter
end_reason_since_start_example = end_reason_since_start none inputs new_adapter refl refl

words-insert_voice_transcript_example :
    words (insert_voice_transcript "fix the" " bug ") ≡ words "fix the" ++ words " bug "
words-insert_voice_transcript_example = words-insert_voice_transcript "fix the" " bug "
