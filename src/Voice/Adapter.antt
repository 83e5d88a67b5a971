-- ===== src/Voice/Adapter.antt =====
-- frontend/src/utils/speechRecognition.ts: `createSpeechRecognitionAdapter`. The adapter's variables
-- are a record, and each of its methods and of the recogniser's callbacks is an input.
use acp_webui.Common.{
  String, ℕ, suc, Bool, true, false, ◌||◌, Option, none, some, List, [], ◌∷◌, ◌++◌, if◌then◌else◌,
  is_empty, or_else, ◌==◌,
}
use acp_webui.Common.Text.{trim}
use acp_webui.Voice.Transcript.{SpeechRecognitionResultEvent, transcript_from_result_event}

pub data SpeechRecognitionEndReason : Type 0 where
  complete stopped unexpected : SpeechRecognitionEndReason

pub data LifecycleEvent : Type 0 where
  listening : LifecycleEvent
  transcript : (transcript : String) (is_final : Bool) → LifecycleEvent
  ended : (reason : SpeechRecognitionEndReason) → LifecycleEvent
  error : (error message : String) → LifecycleEvent

pub record SpeechRecognitionErrorEvent : Type 0 where
  pub error : Option String
  pub message : Option String

-- A recogniser is known by its number, in the order in which they are made.
pub record Adapter : Type 0 where
  pub recognition : Option ℕ
  pub made : ℕ
  pub destroyed : Bool
  pub stop_requested : Bool
  pub received_transcript : Bool
  pub failed : Bool

-- What is called of the recognisers.
pub data Call : Type 0 where
  start stop abort : (recogniser : ℕ) → Call

pub record Outcome : Type 0 where
  pub adapter : Adapter
  pub events : List LifecycleEvent
  pub calls : List Call

unfoldable pub new_adapter : Adapter
new_adapter = record {
  recognition = none;
  made = 0;
  destroyed = false;
  stop_requested = false;
  received_transcript = false;
  failed = false;
}

pub data Input : Type 0 where
  -- `start()`, with the message of what the recogniser's `start` throws
  begin : (thrown : Option String) → Input
  -- `stop()` and `destroy()`
  cease : Input
  destroy : Input
  -- the recogniser's callbacks
  on_start : Input
  on_result : SpeechRecognitionResultEvent → Input
  on_error : SpeechRecognitionErrorEvent → Input
  on_end : Input

unfoldable pub speech_recognition_error_message : SpeechRecognitionErrorEvent → String
unfolding trim
speech_recognition_error_message event =
    let error = or_else event.error "" in
    let message = trim (or_else event.message "") in
    if error == "not-allowed" || error == "service-not-allowed"
    then "Microphone access was denied. Check browser permissions and try again."
    else if error == "audio-capture"
    then "No microphone was found for voice input."
    else if error == "network"
    then "Voice input could not reach the recognition service."
    else if error == "no-speech"
    then "No speech was detected. Try again."
    else if is_empty message
    then "Voice input failed. Try again."
    else message

unfoldable pub end_reason : Adapter → SpeechRecognitionEndReason
end_reason a =
    if a.stop_requested
    then SpeechRecognitionEndReason.stopped
    else if a.failed
    then SpeechRecognitionEndReason.stopped
    else if a.received_transcript
    then SpeechRecognitionEndReason.complete
    else SpeechRecognitionEndReason.unexpected

unfoldable pub start_recognition : Option String → Adapter → Outcome
start_recognition thrown a =
    if a.destroyed
    then record { adapter = a; events = []; calls = [] }
    else let started = record a {
      recognition = some a.made;
      made = suc a.made;
      stop_requested = false;
      received_transcript = false;
      failed = false;
    } in
      elim thrown [
        | none ↦ record { adapter = started; events = []; calls = Call.start a.made ∷ [] }
        | some message ↦ record {
          adapter = record started { failed = true };
          events = LifecycleEvent.error "start_failed" message ∷ [];
          calls = Call.start a.made ∷ [];
        }
      ]

abbrev call_of : (ℕ → Call) → Option ℕ → List Call
call_of call none = []
call_of call (some n) = call n ∷ []

unfoldable pub step : Input → Adapter → Outcome
unfolding start_recognition transcript_from_result_event speech_recognition_error_message end_reason
step (Input.begin thrown) a = start_recognition thrown a
step Input.cease a = record {
  adapter = record a { stop_requested = true };
  events = [];
  calls = call_of Call.stop a.recognition;
}
step Input.destroy a = record {
  adapter = record a { destroyed = true; stop_requested = true; recognition = none };
  events = [];
  calls = call_of Call.abort a.recognition;
}
step Input.on_start a = record { adapter = a; events = LifecycleEvent.listening ∷ []; calls = [] }
step (Input.on_result event) a =
    let result = transcript_from_result_event event in
    if is_empty result.transcript then record { adapter = a; events = []; calls = [] } else record {
      adapter = record a { received_transcript = true };
      events = LifecycleEvent.transcript result.transcript result.is_final ∷ [];
      calls = [];
    }
step (Input.on_error event) a = record {
  adapter = record a { failed = true };
  events =
      LifecycleEvent.error (or_else event.error "unknown") (speech_recognition_error_message event)
      ∷ [];
  calls = [];
}
step Input.on_end a = record {
  adapter = a;
  events = LifecycleEvent.ended (end_reason a) ∷ [];
  calls = [];
}

unfoldable pub run : List Input → Adapter → Outcome
unfolding step
run [] a = record { adapter = a; events = []; calls = [] }
run (input ∷ inputs) a =
    let first = step input a in
    let rest = run inputs first.adapter in
    record {
      adapter = rest.adapter;
      events = first.events ++ rest.events;
      calls = first.calls ++ rest.calls;
    }
