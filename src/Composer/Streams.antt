-- ===== src/Composer/Streams.antt =====
-- About the streams of the microphone in `PromptComposer` of
-- frontend/src/features/sessions/SessionPane.tsx.
use acp_webui.Common.{
  ℕ, Bool, true, false, not, Option, none, some, List, [], ◌∷◌, ◌≡◌, refl, sym, ◌∙◌, arith, inl,
  inr,
}
use acp_webui.Composer.Recording.{
  Made, made_recorder, microphone_granted, recording_failed, stop_media_stream,
  stop_voice_recording,
}
use acp_webui.Composer.State.{Composer, Props}
use acp_webui.Composer.Step.{
  Event, handle, is_stopped, new_composer, run, step, unmount, voice_effect,
}
use acp_webui.Composer.Handled.{handle-Leaves}
use acp_webui.Composer.Leaves.{
  Leaves, Held, IsHeld, Kept, keep-All, Kept-stopped, Kept-without, pick, pick_known,
  stop_voice_recording-Leaves,
}

-- A stream is given while no other is held, and a recorder is made of it, or the page is gone.
abbrev pub IsCalm : Event → Composer → Type 0
IsCalm (Event.granted stream (Made.started mime_type)) c = c.media_stream ≡ none
IsCalm (Event.granted stream (Made.not_made thrown)) c = c.voice_active ≡ false
IsCalm (Event.granted stream (Made.not_started mime_type thrown)) c = c.media_stream ≡ none
IsCalm event c = Unit

abbrev pub IsCalmRun : List Event → Composer → Type 0
IsCalmRun [] c = Unit
IsCalmRun (event ∷ events) c = IsCalm event c × IsCalmRun events (step event c)

holds : (c d : Composer) → Leaves c d → IsHeld c → IsHeld d
holds c d p h = let same = p.held c.voice_active h in rw p.shown same

stop_media_stream-IsHeld :
    (held : Option ℕ) (active : Bool) (c : Composer)
    → held ≡ c.media_stream
    → Held active c
    → IsHeld (stop_media_stream held c)
unfolding stop_media_stream
stop_media_stream-IsHeld none active c e h =
    keep-All (λ n k. inl (Kept-without c.stopped c.media_stream active n e k)) c.opened h
stop_media_stream-IsHeld (some stream) active c e h =
    keep-All
      (λ n k.
        Kept-stopped stream c.stopped c.media_stream c.media_stream active c.voice_active n e k)
      c.opened h

unmount-IsHeld : (c : Composer) → IsHeld c → IsHeld (unmount c)
unfolding unmount
unmount-IsHeld c h =
    let gone : Composer = record c { voice_active = false } in
    let quiet : Composer = stop_voice_recording false gone in
    stop_media_stream-IsHeld quiet.media_stream c.voice_active quiet refl
      ((stop_voice_recording-Leaves false gone).held c.voice_active h)

made_recorder-IsHeld :
    (stream : ℕ) (made : Made) (c : Composer)
    → IsCalm (Event.granted stream made) c
    → c.voice_active ≡ true
    → IsHeld c
    → IsHeld (made_recorder stream made (record c { opened = stream ∷ c.opened }))
unfolding made_recorder recording_failed
made_recorder-IsHeld stream (Made.started mime_type) c calm shown h = (
  inr (shown, refl),
  keep-All (λ n k. inl (Kept-without c.stopped c.media_stream c.voice_active n (sym calm) k))
      c.opened h,
)
made_recorder-IsHeld stream (Made.not_started mime_type thrown) c calm shown h = (
  inr (shown, refl),
  keep-All (λ n k. inl (Kept-without c.stopped c.media_stream c.voice_active n (sym calm) k))
      c.opened h,
)
made_recorder-IsHeld stream (Made.not_made thrown) c calm shown h =
    elim (true_false (sym shown ∙ calm)) [ ]
  where
    true_false : Path Bool true false → ⊥
    true_false same = cc

granted-IsHeld :
    (stream : ℕ) (made : Made) (c : Composer)
    → IsCalm (Event.granted stream made) c
    → IsHeld c
    → IsHeld (microphone_granted stream made c)
unfolding microphone_granted stop_media_stream
granted-IsHeld stream made c calm h =
    let given : Composer = record c { opened = stream ∷ c.opened } in
    pick_known IsHeld (not c.voice_active) (stop_media_stream (some stream) given)
      (made_recorder stream made given)
      (λ gone. (
        inl (ground arith),
        keep-All (λ n k. Kept-more stream c.stopped c.media_stream c.voice_active n k) c.opened h,
      ))
      (λ shown. made_recorder-IsHeld stream made c calm (ground arith) h)
  where
    Kept-more :
        (stream : ℕ) (stopped : List ℕ) (held : Option ℕ) (active : Bool) (n : ℕ)
        → Kept stopped held active n
        → Kept (stream ∷ stopped) held active n
    Kept-more stream stopped held active n (inl out) = inl (ground arith)
    Kept-more stream stopped held active n (inr here) = inr here

handle-IsHeld : (event : Event) (c : Composer) → IsCalm event c → IsHeld c → IsHeld (handle event c)
unfolding handle
handle-IsHeld (Event.granted stream made) c calm h = granted-IsHeld stream made c calm h
handle-IsHeld Event.unmounted c calm h = unmount-IsHeld c h
handle-IsHeld event c calm h = holds c _ (handle-Leaves event c tt) h

voice_effect-IsHeld : (before after : Composer) → IsHeld after → IsHeld (voice_effect before after)
unfolding voice_effect
voice_effect-IsHeld before after h =
    pick IsHeld (is_stopped before after) (stop_voice_recording false after) after
      (holds after _ (stop_voice_recording-Leaves false after) h) h

run_from :
    (events : List Event) (c : Composer) → IsCalmRun events c → IsHeld c → IsHeld (run events c)
unfolding run step
run_from [] c calm h = h
run_from (event ∷ events) c (calm, later) h =
    run_from events (step event c) later
      (voice_effect-IsHeld c (handle event c) (handle-IsHeld event c calm h))

-- Once the page is gone every stream that the microphone gave is stopped, and before that every one
-- but the one that the composer holds, through every run of events from a new composer in which a
-- stream is given only while none is held, and a recorder is made of it unless the page is gone.
pub run-IsHeld :
    (props : Props) (events : List Event)
    → IsCalmRun events (new_composer props)
    → IsHeld (run events (new_composer props))
run-IsHeld props events calm = run_from events (new_composer props) calm tt
