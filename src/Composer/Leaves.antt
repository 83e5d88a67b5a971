-- ===== src/Composer/Leaves.antt =====
-- About the streams of the microphone, and the handlers that leave them, in `PromptComposer` of
-- frontend/src/features/sessions/SessionPane.tsx.
use acp_webui.Common.{
  ap, String, ℕ, Bool, true, false, not, ◌&&◌, ◌||◌, Option, none, some, List, [], ◌∷◌, All, any,
  if◌then◌else◌, nat_eq, is_empty, ltb, length, ◌≡◌, refl, ◌∙◌, arith, Bool-cases, ◌⊎◌, inl, inr,
  some_inj,
}
use acp_webui.Common.Text.{trim}
use acp_webui.Composer.Draft.{
  ReadAll, add_image_files, add_read, answer, apply_prompt_template, prompt_sent, read_all,
  submit_prompt, unsupported,
}
use acp_webui.Composer.Files.{File, Thrown}
use acp_webui.Composer.Recording.{
  data_available, finish_voice_recording, set_idle, size_of, start_voice_recording,
  stop_media_stream, stop_recorder, stop_voice_recording, toggle_voice_input, transcribe_chunks,
  transcribed, transcription_failed,
}
use acp_webui.Composer.State.{Blob, Composer, Recorder, Submitted, is_recording, is_transcribing}

abbrev pub among : ℕ → List ℕ → Bool
among n ns = any (λ m. nat_eq m n) ns

-- A stream is stopped, or is the one that the composer holds.
abbrev pub Kept : List ℕ → Option ℕ → Bool → ℕ → Type 0
Kept stopped held active n = (among n stopped ≡ true) ⊎ ((active ≡ true) × (held ≡ some n))

abbrev pub Held : Bool → Composer → Type 0
Held active c = All (Kept c.stopped c.media_stream active) c.opened

-- Every stream that the microphone gave is stopped, or the page is still shown and holds it.
abbrev pub IsHeld : Composer → Type 0
IsHeld c = Held c.voice_active c

abbrev pub is_stream : ℕ → Option ℕ → Bool
is_stream n none = false
is_stream n (some m) = nat_eq m n

-- A stream is neither stopped nor held.
abbrev pub IsLost : ℕ → Composer → Type 0
IsLost first c = (among first c.stopped ≡ false) × (is_stream first c.media_stream ≡ false)

-- What a handler does that leaves the streams as they are, and the page too.
pub record Leaves (c d : Composer) : Type 0 where
  pub held : (active : Bool) → Held active c → Held active d
  pub lost : (first : ℕ) → IsLost first c → IsLost first d
  pub shown : d.voice_active ≡ c.voice_active

pub keep-All : {P Q : ℕ → Type 0} → ((n : ℕ) → P n → Q n) → (ns : List ℕ) → All P ns → All Q ns
keep-All f [] h = tt
keep-All f (n ∷ ns) (p, h) = (f n p, keep-All f ns h)

pub Kept-without :
    (stopped : List ℕ) (held : Option ℕ) (active : Bool) (n : ℕ)
    → none ≡ held
    → Kept stopped held active n
    → among n stopped ≡ true
Kept-without stopped held active n e (inl out) = out
Kept-without stopped held active n e (inr (shown, here)) = elim (none_some (e ∙ here)) [ ]
  where
    none_some : {m : ℕ} → Path (Option ℕ) none (some m) → ⊥
    none_some same = cc

pub Kept-stopped :
    (stream : ℕ) (stopped : List ℕ) (held now_held : Option ℕ) (active now_active : Bool) (n : ℕ)
    → some stream ≡ held
    → Kept stopped held active n
    → Kept (stream ∷ stopped) now_held now_active n
Kept-stopped stream stopped held now_held active now_active n e (inl out) = inl (ground arith)
Kept-stopped stream stopped held now_held active now_active n e (inr (shown, here)) =
    let same : stream ≡ n = some_inj (e ∙ here) in inl (ground arith)

pub then_ : {c d e : Composer} → Leaves c d → Leaves d e → Leaves c e
then_ p q = record {
  held = λ active h. q.held active (p.held active h);
  lost = λ first l. q.lost first (p.lost first l);
  shown = q.shown ∙ p.shown;
}

pub pick : (P : Composer → Type 0) (b : Bool) (d e : Composer) → P d → P e → P (if b then d else e)
pick P true d e h k = h
pick P false d e h k = k

pub pick_known :
    (P : Composer → Type 0) (b : Bool) (d e : Composer)
    → (b ≡ true → P d)
    → (b ≡ false → P e)
    → P (if b then d else e)
pick_known P true d e h k = h refl
pick_known P false d e h k = k refl

pub set_idle-Leaves : (message : Option String) (c : Composer) → Leaves c (set_idle message c)
set_idle-Leaves message c = elim (Bool-cases c.voice_active) [
  | inl shown ↦ rw shown (record { held = λ active h. h; lost = λ first l. l; shown = refl })
  | inr gone ↦ rw gone (record { held = λ active h. h; lost = λ first l. l; shown = refl })
]

pub transcribe_chunks-Leaves :
    (recorder : Recorder) (b : Bool) (chunks : List Blob) (c : Composer)
    → Leaves c (transcribe_chunks recorder b chunks c)
unfolding transcribe_chunks
transcribe_chunks-Leaves recorder false chunks c = set_idle-Leaves none c
transcribe_chunks-Leaves recorder true chunks c = elim (Bool-cases (nat_eq (size_of chunks) 0)) [
  | inl empty ↦ rw empty (set_idle-Leaves (some "No audio was recorded. Try again.") c)
  | inr full ↦ rw full (record { held = λ active h. h; lost = λ first l. l; shown = refl })
]

pub stop_media_stream-IsLost :
    (held now_held : Option ℕ) (c : Composer) (first : ℕ)
    → held ≡ c.media_stream
    → is_stream first now_held ≡ false
    → IsLost first c
    → IsLost first (stop_media_stream held (record c { media_stream = now_held }))
unfolding stop_media_stream
stop_media_stream-IsLost none now_held c first e k l = (l.0, k)
stop_media_stream-IsLost (some stream) now_held c first e k l =
    let other : nat_eq stream first ≡ false = ap (is_stream first) e ∙ l.1 in
    (rw (other, l.0) refl, k)

pub stop_media_stream-Leaves :
    (held : Option ℕ) (c : Composer)
    → held ≡ c.media_stream
    → Leaves c (stop_media_stream held (record c { media_stream = none }))
unfolding stop_media_stream
stop_media_stream-Leaves none c e = record {
  held =
      λ active. keep-All (λ n k. inl (Kept-without c.stopped c.media_stream active n e k)) c.opened;
  lost = λ first l. stop_media_stream-IsLost none none c first e refl l;
  shown = refl;
}
stop_media_stream-Leaves (some stream) c e = record {
  held = λ active.
      keep-All (λ n k. Kept-stopped stream c.stopped c.media_stream none active active n e k)
        c.opened;
  lost = λ first l. stop_media_stream-IsLost (some stream) none c first e refl l;
  shown = refl;
}

pub finish_voice_recording-Leaves :
    (recorder : Recorder) (c : Composer) → Leaves c (finish_voice_recording recorder c)
unfolding finish_voice_recording
finish_voice_recording-Leaves recorder c =
    let blank : Composer = record c {
      transcribe_on_stop = false;
      media_recorder = none;
      audio_chunks = [];
    } in
    then_ {c = c} {d = blank} (record { held = λ active h. h; lost = λ first l. l; shown = refl })
      (then_ (stop_media_stream-Leaves c.media_stream blank refl) (
        transcribe_chunks-Leaves recorder c.transcribe_on_stop c.audio_chunks
          (stop_media_stream c.media_stream (record blank { media_stream = none }))))

pub stop_recorder-Leaves :
    (recorder : Option Recorder) (c : Composer) → Leaves c (stop_recorder recorder c)
unfolding stop_recorder
stop_recorder-Leaves none c = record { held = λ active h. h; lost = λ first l. l; shown = refl }
stop_recorder-Leaves (some recorder) c = elim (Bool-cases recorder.inactive) [
  | inl over ↦ rw over (finish_voice_recording-Leaves recorder c)
  | inr runs ↦ rw runs (record { held = λ active h. h; lost = λ first l. l; shown = refl })
]

pub stop_voice_recording-Leaves :
    (transcribe : Bool) (c : Composer) → Leaves c (stop_voice_recording transcribe c)
unfolding stop_voice_recording
stop_voice_recording-Leaves transcribe c =
    let asked : Composer = record c { transcribe_on_stop = transcribe } in
    then_ {c = c} {d = asked} (record { held = λ active h. h; lost = λ first l. l; shown = refl })
      (stop_recorder-Leaves c.media_recorder asked)

pub prompt_sent-Leaves : (s : Submitted) (c : Composer) → Leaves c (prompt_sent s c)
unfolding prompt_sent
prompt_sent-Leaves s c = elim (Bool-cases s.voice_recording) [
  | inl records ↦
      let quiet = stop_voice_recording-Leaves false c in
      rw records (record { held = quiet.held; lost = quiet.lost; shown = quiet.shown })
  | inr silent ↦ rw silent (record { held = λ active h. h; lost = λ first l. l; shown = refl })
]

pub start_voice_recording-Leaves : (c : Composer) → Leaves c (start_voice_recording c)
unfolding start_voice_recording
start_voice_recording-Leaves c =
    elim (Bool-cases (
      not c.props.voice_supported
      || c.props.disabled
      || c.props.busy
      || is_recording c.voice_state
      || is_transcribing c.voice_state)) [
        | inl barred ↦
            rw barred (record { held = λ active h. h; lost = λ first l. l; shown = refl })
        | inr free ↦ rw free (record { held = λ active h. h; lost = λ first l. l; shown = refl })
      ]

pub toggle_voice_input-Leaves : (c : Composer) → Leaves c (toggle_voice_input c)
unfolding toggle_voice_input
toggle_voice_input-Leaves c =
    let started = start_voice_recording c in
    let stopped = stop_voice_recording true c in
    pick (Leaves c) (not c.props.voice_supported || c.props.disabled || c.props.busy) c
      (if is_recording c.voice_state then stopped else started)
      (record { held = λ active h. h; lost = λ first l. l; shown = refl })
      (pick (Leaves c) (is_recording c.voice_state) stopped started
        (stop_voice_recording-Leaves true c) (start_voice_recording-Leaves c))

pub submit_prompt-Leaves : (c : Composer) → Leaves c (submit_prompt c)
unfolding submit_prompt
submit_prompt-Leaves c =
    elim (Bool-cases (
      is_empty (trim c.prompt) && not (ltb 0 (length c.attachments))
      || c.props.disabled
      || c.props.busy)) [
        | inl barred ↦
            rw barred (record { held = λ active h. h; lost = λ first l. l; shown = refl })
        | inr free ↦
            elim (Bool-cases (ltb 0 (length c.attachments) && not c.props.image_prompt_supported)) [
              | inl images ↦
                  rw (free, images)
                    (record { held = λ active h. h; lost = λ first l. l; shown = refl })
              | inr fits ↦
                  rw (free, fits)
                    (record { held = λ active h. h; lost = λ first l. l; shown = refl })
            ]
      ]

pub add_read-Leaves : (read : ReadAll) (c : Composer) → Leaves c (add_read read c)
unfolding add_read
add_read-Leaves (ReadAll.all_loaded next) c = record {
  held = λ active h. h;
  lost = λ first l. l;
  shown = refl;
}
add_read-Leaves (ReadAll.one_rejected message) c = record {
  held = λ active h. h;
  lost = λ first l. l;
  shown = refl;
}

pub add_image_files-Leaves : (files : List File) (c : Composer) → Leaves c (add_image_files files c)
unfolding add_image_files
add_image_files-Leaves [] c = record { held = λ active h. h; lost = λ first l. l; shown = refl }
add_image_files-Leaves (file ∷ files) c =
    pick (Leaves c) (not c.props.image_prompt_supported)
      (record c { attachment_error = unsupported c }) (add_read (read_all (file ∷ files)) c)
      (record { held = λ active h. h; lost = λ first l. l; shown = refl })
      (add_read-Leaves (read_all (file ∷ files)) c)

pub answer-Leaves :
    (reply : Submitted → Composer → Composer) (s : Option Submitted) (c : Composer)
    → ((s : Submitted) → Leaves c (reply s c))
    → Leaves c (answer reply s c)
answer-Leaves reply none c h = record { held = λ active h. h; lost = λ first l. l; shown = refl }
answer-Leaves reply (some s) c h = h s

pub data_available-Leaves : (part : Blob) (c : Composer) → Leaves c (data_available part c)
unfolding data_available
data_available-Leaves part c = elim (Bool-cases (nat_eq part.size 0)) [
  | inl empty ↦ rw empty (record { held = λ active h. h; lost = λ first l. l; shown = refl })
  | inr full ↦ rw full (record { held = λ active h. h; lost = λ first l. l; shown = refl })
]

pub transcribed-Leaves : (text : String) (c : Composer) → Leaves c (transcribed text c)
unfolding transcribed
transcribed-Leaves text c = elim (Bool-cases c.voice_active) [
  | inl shown ↦ rw shown (record { held = λ active h. h; lost = λ first l. l; shown = refl })
  | inr gone ↦ rw gone (record { held = λ active h. h; lost = λ first l. l; shown = refl })
]

pub transcription_failed-Leaves :
    (thrown : Thrown) (c : Composer) → Leaves c (transcription_failed thrown c)
unfolding transcription_failed
transcription_failed-Leaves thrown c = elim (Bool-cases c.voice_active) [
  | inl shown ↦ rw shown (record { held = λ active h. h; lost = λ first l. l; shown = refl })
  | inr gone ↦ rw gone (record { held = λ active h. h; lost = λ first l. l; shown = refl })
]

pub apply_prompt_template-Leaves :
    (body : String) (c : Composer) → Leaves c (apply_prompt_template body c)
unfolding apply_prompt_template
apply_prompt_template-Leaves body c = elim (Bool-cases c.props.disabled) [
  | inl barred ↦ rw barred (record { held = λ active h. h; lost = λ first l. l; shown = refl })
  | inr free ↦ rw free (record { held = λ active h. h; lost = λ first l. l; shown = refl })
]
