-- ===== src/Composer/Handled.antt =====
-- About `PromptComposer` of frontend/src/features/sessions/SessionPane.tsx: what each event does to the
-- streams of the microphone.
use acp_webui.Common.{false, some, refl}
use acp_webui.Composer.Draft.{
  prompt_not_sent, prompt_settled, remove_attachment, submission, update_prompt_draft,
}
use acp_webui.Composer.Recording.{recorder_failed, recording_failed}
use acp_webui.Composer.State.{Submitted, Composer}
use acp_webui.Composer.Step.{Event, handle}
use acp_webui.App.Busy.{Outcome, send_prompt}
use acp_webui.Composer.Leaves.{
  then_, Leaves, add_image_files-Leaves, answer-Leaves, apply_prompt_template-Leaves,
  data_available-Leaves, finish_voice_recording-Leaves, prompt_sent-Leaves,
  stop_voice_recording-Leaves, submit_prompt-Leaves, toggle_voice_input-Leaves, transcribed-Leaves,
  transcription_failed-Leaves,
}

-- The events that neither bring a stream nor end the page.
abbrev pub IsInside : Event → Type 0
IsInside (Event.granted stream made) = ⊥
IsInside Event.unmounted = ⊥
IsInside event = Unit

prompt_settled-Leaves :
    (outcome : Outcome) (s : Submitted) (c : Composer) → Leaves c (prompt_settled outcome s c)
unfolding prompt_settled prompt_not_sent
prompt_settled-Leaves Outcome.resolved s c = prompt_sent-Leaves s c
prompt_settled-Leaves (Outcome.rejected thrown) s c = record {
  held = λ active h. h;
  lost = λ first l. l;
  shown = refl;
}

pub handle-Leaves : (event : Event) (c : Composer) → IsInside event → Leaves c (handle event c)
unfolding handle update_prompt_draft recording_failed remove_attachment recorder_failed
handle-Leaves (Event.edited value) c v = (record {
  held = λ active h. h;
  lost = λ first l. l;
  shown = refl;
})
handle-Leaves Event.voice_toggled c v = toggle_voice_input-Leaves c
handle-Leaves (Event.granted stream made) c v = elim v [ ]
handle-Leaves (Event.refused thrown) c v = (record {
  held = λ active h. h;
  lost = λ first l. l;
  shown = refl;
})
handle-Leaves (Event.data_arrived part) c v = data_available-Leaves part c
handle-Leaves Event.recorder_error c v =
    let told : Composer = record c { voice_error = some "Voice input failed. Try again." } in
    then_ {c = c} {d = told} (record { held = λ active h. h; lost = λ first l. l; shown = refl })
      (stop_voice_recording-Leaves false told)
handle-Leaves Event.recorder_ended c v = (record {
  held = λ active h. h;
  lost = λ first l. l;
  shown = refl;
})
handle-Leaves (Event.recorder_stopped recorder) c v = finish_voice_recording-Leaves recorder c
handle-Leaves (Event.transcript_arrived text) c v = transcribed-Leaves text c
handle-Leaves (Event.transcript_refused thrown) c v = transcription_failed-Leaves thrown c
handle-Leaves Event.submitted c v = submit_prompt-Leaves c
handle-Leaves (Event.sent n outcome) c v =
    answer-Leaves (prompt_settled (send_prompt outcome)) (submission n c.submitted) c
      (λ s. prompt_settled-Leaves (send_prompt outcome) s c)
handle-Leaves (Event.files_added files) c v = add_image_files-Leaves files c
handle-Leaves (Event.attachment_removed id) c v = (record {
  held = λ active h. h;
  lost = λ first l. l;
  shown = refl;
})
handle-Leaves (Event.template_applied body) c v = apply_prompt_template-Leaves body c
handle-Leaves (Event.rendered props) c v = (record {
  held = λ active h. h;
  lost = λ first l. l;
  shown = refl;
})
handle-Leaves Event.unmounted c v = elim v [ ]
