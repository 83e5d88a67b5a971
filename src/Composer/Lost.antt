-- ===== src/Composer/Lost.antt =====
-- About the streams of the microphone in `PromptComposer` of
-- frontend/src/features/sessions/SessionPane.tsx: one that is neither stopped nor held stays so.
use acp_webui.Common.{ℕ, some, List, [], ◌∷◌, false, not, All, nat_eq, ◌≡◌, refl}
use acp_webui.Composer.Handled.{handle-Leaves}
use acp_webui.Composer.Leaves.{
  IsLost, among, is_stream, pick, stop_media_stream-IsLost, stop_voice_recording-Leaves,
}
use acp_webui.Composer.Recording.{
  Made, made_recorder, microphone_granted, recording_failed, stop_media_stream,
  stop_voice_recording,
}
use acp_webui.Composer.State.{Composer}
use acp_webui.Composer.Step.{Event, handle, is_stopped, run, step, unmount, voice_effect}

-- The event does not bring the stream of the number.
abbrev pub IsOther : ℕ → Event → Type 0
IsOther first (Event.granted stream made) = nat_eq stream first ≡ false
IsOther first event = Unit

made_recorder-IsLost :
    (first stream : ℕ) (made : Made) (c : Composer)
    → nat_eq stream first ≡ false
    → among first c.stopped ≡ false
    → is_stream first c.media_stream ≡ false
    → IsLost first (made_recorder stream made c)
unfolding made_recorder recording_failed
made_recorder-IsLost first stream (Made.started mime_type) c other out free = (out, other)
made_recorder-IsLost first stream (Made.not_made thrown) c other out free = (out, free)
made_recorder-IsLost first stream (Made.not_started mime_type thrown) c other out free =
    (out, other)

granted-IsLost :
    (first stream : ℕ) (made : Made) (c : Composer)
    → nat_eq stream first ≡ false
    → IsLost first c
    → IsLost first (microphone_granted stream made c)
unfolding microphone_granted stop_media_stream
granted-IsLost first stream made c other l =
    let given : Composer = record c { opened = stream ∷ c.opened } in
    pick (IsLost first) (not c.voice_active) (stop_media_stream (some stream) given)
      (made_recorder stream made given) (rw (other, l.0) refl, l.1)
      (made_recorder-IsLost first stream made given other l.0 l.1)

handle-IsLost :
    (first : ℕ) (event : Event) (c : Composer)
    → IsOther first event
    → IsLost first c
    → IsLost first (handle event c)
unfolding handle unmount
handle-IsLost first (Event.granted stream made) c other l =
    granted-IsLost first stream made c other l
handle-IsLost first Event.unmounted c other l =
    let gone : Composer = record c { voice_active = false } in
    let quiet : Composer = stop_voice_recording false gone in
    let left = (stop_voice_recording-Leaves false gone).lost first l in
    stop_media_stream-IsLost quiet.media_stream quiet.media_stream quiet first refl left.1 left
handle-IsLost first event c other l = (handle-Leaves event c tt).lost first l

pub voice_effect-IsLost :
    (first : ℕ) (before after : Composer)
    → IsLost first after
    → IsLost first (voice_effect before after)
unfolding voice_effect
voice_effect-IsLost first before after l =
    pick (IsLost first) (is_stopped before after) (stop_voice_recording false after) after
      ((stop_voice_recording-Leaves false after).lost first l) l

pub run-IsLost :
    (first : ℕ) (events : List Event) (c : Composer)
    → All (IsOther first) events
    → IsLost first c
    → IsLost first (run events c)
unfolding run step
run-IsLost first [] c v l = l
run-IsLost first (event ∷ events) c (other, v) l =
    run-IsLost first events (step event c) v
      (voice_effect-IsLost first c (handle event c) (handle-IsLost first event c other l))
