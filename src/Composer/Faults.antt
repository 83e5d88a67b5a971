-- ===== src/Composer/Faults.antt =====
-- About what goes wrong in `PromptComposer` of frontend/src/features/sessions/SessionPane.tsx.
use acp_webui.Common.{
  String, ℕ, Bool, true, false, not, some, List, [], ◌∷◌, nat_eq, All, ◌≡◌, arith,
}
use acp_webui.Composer.Lost.{IsOther, run-IsLost, voice_effect-IsLost}
use acp_webui.Composer.Leaves.{IsLost, among, pick_known}
use acp_webui.Composer.Recording.{Made, made_recorder, microphone_granted}
use acp_webui.Composer.State.{Composer, Props}
use acp_webui.Composer.Step.{Event, handle, run, step, voice_effect}

-- The draft of the prompt is the same.
abbrev SameDraft : Composer → Composer → Type 0
SameDraft c d = (d.prompt ≡ c.prompt) × (d.attachments ≡ c.attachments)

-- A page on which a voice can be recorded.
abbrev pub able : (agent_name : String) (image_prompt_supported : Bool) → Props
able agent_name image_prompt_supported = record {
  agent_name = agent_name;
  busy = false;
  disabled = false;
  image_prompt_supported = image_prompt_supported;
  voice_supported = true;
}

replaced-IsLost :
    (c : Composer) (first second : ℕ) (mime_type : String)
    → c.voice_active ≡ true
    → among first c.stopped ≡ false
    → nat_eq second first ≡ false
    → IsLost first (handle (Event.granted second (Made.started mime_type)) c)
unfolding handle microphone_granted made_recorder
replaced-IsLost c first second mime_type shown out other =
    pick_known (IsLost first) (not c.voice_active) _ _ (λ gone. absurd (ground arith))
      (λ here. (out, other))

-- A stream of the microphone that is not stopped when another one is given to the page that is
-- shown, and a recorder is made of that, is never stopped, whatever follows, if it is not given
-- again.
pub second_microphone :
    (c : Composer) (first second : ℕ) (mime_type : String) (events : List Event)
    → c.voice_active ≡ true
    → among first c.stopped ≡ false
    → nat_eq second first ≡ false
    → All (IsOther first) events
    → among first (run (Event.granted second (Made.started mime_type) ∷ events) c).stopped ≡ false
unfolding run step
second_microphone c first second mime_type events shown out other v =
    let replaced : Composer = handle (Event.granted second (Made.started mime_type)) c in
    (run-IsLost first events (voice_effect c replaced) v (
      voice_effect-IsLost first c replaced
        (replaced-IsLost c first second mime_type shown out other))).0

-- A composer that records, and that no audio has come to yet.
abbrev pub in_recording : (mime_type : String) (stream : ℕ) → Composer → Composer
in_recording mime_type stream c = record c {
  media_recorder = some (record { mime_type = mime_type; inactive = false });
  media_stream = some stream;
  audio_chunks = [];
  voice_active = true;
}
