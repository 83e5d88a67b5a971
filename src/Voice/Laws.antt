-- ===== src/Voice/Laws.antt =====
-- About frontend/src/utils/speechRecognition.ts: the adapter over a run of inputs.
use acp_webui.Common.{
  String, Bool, true, false, not, ◌||◌, Option, none, some, List, [], ◌∷◌, any, if◌then◌else◌,
  is_empty, is_some, ◌≡◌, refl, ap, ◌∙◌, arith, Bool-cases, inl, inr,
}
use acp_webui.Voice.Transcript.{transcript_from_result_event}
use acp_webui.Voice.Adapter.{
  Adapter, Input, LifecycleEvent, SpeechRecognitionEndReason, end_reason, run, start_recognition,
  step,
}

abbrev pub is_begin : Input → Bool
is_begin input = elim input [ Input.begin thrown ↦ true | _ ↦ false ]

abbrev pub is_stop : Input → Bool
is_stop input = elim input [ Input.cease ↦ true | Input.destroy ↦ true | _ ↦ false ]

abbrev pub is_failure : Input → Bool
is_failure input = elim input [ Input.on_error event ↦ true | _ ↦ false ]

abbrev pub is_heard : Input → Bool
is_heard input = elim input [
  | Input.on_result event ↦ not (is_empty (transcript_from_result_event event).transcript)
  | _ ↦ false
]

-- The reason for an end, by the flags that are set.
abbrev reason_by : (stop failed heard : Bool) → SpeechRecognitionEndReason
reason_by stop failed heard =
    if stop || failed
    then SpeechRecognitionEndReason.stopped
    else if heard
    then SpeechRecognitionEndReason.complete
    else SpeechRecognitionEndReason.unexpected

-- The reason for an end, by what came in since the start.
abbrev pub expected_reason : Option String → List Input → SpeechRecognitionEndReason
expected_reason thrown inputs =
    if any is_stop inputs || (is_some thrown || any is_failure inputs)
    then SpeechRecognitionEndReason.stopped
    else if any is_heard inputs
    then SpeechRecognitionEndReason.complete
    else SpeechRecognitionEndReason.unexpected

-- The flags after a run without a start.
abbrev HasFlags : (stop failed heard : Bool) → Adapter → Type 0
HasFlags stop failed heard a =
    (a.stop_requested ≡ stop) × (a.failed ≡ failed) × (a.received_transcript ≡ heard)

or_assoc : (a b c : Bool) → ((a || b) || c) ≡ (a || (b || c))
or_assoc true b c = refl
or_assoc false b c = refl

or_false : (a : Bool) → a ≡ (a || false)
or_false true = refl
or_false false = refl

or_true : (a : Bool) → true ≡ (a || true)
or_true true = refl
or_true false = refl

step-HasFlags :
    (input : Input) (a : Adapter)
    → is_begin input ≡ false
    → HasFlags
        (a.stop_requested || is_stop input)
        (a.failed || is_failure input)
        (a.received_transcript || is_heard input)
        (step input a).adapter
unfolding step
step-HasFlags (Input.begin thrown) a h = ground arith
step-HasFlags Input.cease a h =
    (or_true a.stop_requested, or_false a.failed, or_false a.received_transcript)
step-HasFlags Input.destroy a h =
    (or_true a.stop_requested, or_false a.failed, or_false a.received_transcript)
step-HasFlags Input.on_start a h =
    (or_false a.stop_requested, or_false a.failed, or_false a.received_transcript)
step-HasFlags (Input.on_result event) a h =
    elim (Bool-cases (is_empty (transcript_from_result_event event).transcript)) [
      | inl blank ↦
          rw blank (or_false a.stop_requested, or_false a.failed, or_false a.received_transcript)
      | inr heard ↦
          rw heard (or_false a.stop_requested, or_false a.failed, or_true a.received_transcript)
    ]
step-HasFlags (Input.on_error event) a h =
    (or_false a.stop_requested, or_true a.failed, or_false a.received_transcript)
step-HasFlags Input.on_end a h =
    (or_false a.stop_requested, or_false a.failed, or_false a.received_transcript)

run-HasFlags :
    (inputs : List Input) (a : Adapter)
    → any is_begin inputs ≡ false
    → HasFlags
        (a.stop_requested || any is_stop inputs)
        (a.failed || any is_failure inputs)
        (a.received_transcript || any is_heard inputs)
        (run inputs a).adapter
unfolding run
run-HasFlags [] a h = (or_false a.stop_requested, or_false a.failed, or_false a.received_transcript)
run-HasFlags (input ∷ inputs) a h =
    let (stop, failed, heard) = step-HasFlags input a (ground arith) in
    let (stop', failed', heard') = run-HasFlags inputs (step input a).adapter (ground arith) in
    (
      stop'
          ∙ ap (λ b. b || any is_stop inputs) stop
          ∙ or_assoc a.stop_requested (is_stop input) (any is_stop inputs),
      failed'
          ∙ ap (λ b. b || any is_failure inputs) failed
          ∙ or_assoc a.failed (is_failure input) (any is_failure inputs),
      heard'
          ∙ ap (λ b. b || any is_heard inputs) heard
          ∙ or_assoc a.received_transcript (is_heard input) (any is_heard inputs),
    )

end_reason-flags :
    (stop failed heard : Bool) (a : Adapter)
    → HasFlags stop failed heard a
    → end_reason a ≡ reason_by stop failed heard
unfolding end_reason
end_reason-flags stop failed heard a (s, f, h) = rw (s, f, h) (go stop failed)
  where
    go :
        (stop failed : Bool)
        → (if stop
            then SpeechRecognitionEndReason.stopped
            else if failed
            then SpeechRecognitionEndReason.stopped
            else if heard
            then SpeechRecognitionEndReason.complete
            else SpeechRecognitionEndReason.unexpected)
          ≡ reason_by stop failed heard
    go true failed = refl
    go false true = refl
    go false false = refl

-- A start clears what an earlier recognition left.
start-HasFlags :
    (thrown : Option String) (a : Adapter)
    → a.destroyed ≡ false
    → HasFlags false (is_some thrown) false (step (Input.begin thrown) a).adapter
unfolding step start_recognition
start-HasFlags none a alive = rw alive (refl, refl, refl)
start-HasFlags (some message) a alive = rw alive (refl, refl, refl)

-- The end of a recognition is told as stopped if a stop, a failed start or an error came in since
-- the last start of an adapter that is not destroyed, else as complete if something was heard
-- since, and else as unexpected; nothing from before that start counts.
pub end_reason_since_start :
    (thrown : Option String) (inputs : List Input) (a : Adapter)
    → a.destroyed ≡ false
    → any is_begin inputs ≡ false
    → (step Input.on_end (run (Input.begin thrown ∷ inputs) a).adapter).events
      ≡ LifecycleEvent.ended (expected_reason thrown inputs) ∷ []
unfolding step run
end_reason_since_start thrown inputs a alive h =
    let begun = (step (Input.begin thrown) a).adapter in
    let (stop, failed, heard) = start-HasFlags thrown a alive in
    let (stop', failed', heard') = run-HasFlags inputs begun h in
    let flags : HasFlags (any is_stop inputs) (is_some thrown || any is_failure inputs)
        (any is_heard inputs) (run inputs begun).adapter =
      (
        stop' ∙ ap (λ b. b || any is_stop inputs) stop,
        failed' ∙ ap (λ b. b || any is_failure inputs) failed,
        heard' ∙ ap (λ b. b || any is_heard inputs) heard,
      ) in
    ap (λ reason. LifecycleEvent.ended reason ∷ [])
      (end_reason-flags _ _ _ (run inputs begun).adapter flags)

-- A destroyed adapter has no recogniser.
abbrev IsDead : Adapter → Type 0
IsDead a = (a.destroyed ≡ true) × (a.recognition ≡ none)

step-IsDead :
    (input : Input) (a : Adapter)
    → IsDead a
    → IsDead (step input a).adapter × ((step input a).calls ≡ [])
unfolding step start_recognition
step-IsDead (Input.begin thrown) a (dead, gone) = rw dead ((refl, gone), refl)
step-IsDead Input.cease a (dead, gone) = ((dead, gone), rw gone refl)
step-IsDead Input.destroy a (dead, gone) = ((refl, refl), rw gone refl)
step-IsDead Input.on_start a (dead, gone) = ((dead, gone), refl)
step-IsDead (Input.on_result event) a (dead, gone) =
    elim (Bool-cases (is_empty (transcript_from_result_event event).transcript)) [
      | inl blank ↦ rw blank ((dead, gone), refl)
      | inr heard ↦ rw heard ((dead, gone), refl)
    ]
step-IsDead (Input.on_error event) a (dead, gone) = ((dead, gone), refl)
step-IsDead Input.on_end a (dead, gone) = ((dead, gone), refl)

run-IsDead :
    (inputs : List Input) (a : Adapter)
    → IsDead a
    → IsDead (run inputs a).adapter × ((run inputs a).calls ≡ [])
unfolding run
run-IsDead [] a d = (d, refl)
run-IsDead (input ∷ inputs) a d =
    let (still, silent) = step-IsDead input a d in
    let (last, quiet) = run-IsDead inputs (step input a).adapter still in
    (last, rw (silent, quiet) refl)

-- Once an adapter is destroyed no recogniser is started, stopped or aborted, whatever comes in.
pub silent_once_destroyed :
    (inputs : List Input) (a : Adapter) → (run inputs (step Input.destroy a).adapter).calls ≡ []
unfolding step
silent_once_destroyed inputs a =
    let (dead, quiet) = run-IsDead inputs (step Input.destroy a).adapter (refl, refl) in quiet
