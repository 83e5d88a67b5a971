-- ===== src/Voice/Words.antt =====
-- About frontend/src/utils/speechRecognition.ts: the words of the prompt after a voice input.
use acp_webui.Common.{String, ◌++◌, is_empty, ◌<>◌, ◌≡◌, refl, sym, ap, ◌∙◌, Bool-cases, inl, inr}
use mathlib.Core.List.{append-nil}
use text.Mathlib.TextLemmas.{nil-append}
use acp_webui.Common.Text.{trim}
use acp_webui.Common.Text.Words.{
  ends_with_space, no_words, words, words-append, words-append_apart, words-trim,
}
use acp_webui.Voice.Transcript.{insert_voice_transcript}

-- The words of the prompt after a voice input are those that it had, then those of the transcript,
-- none joined and none lost.
pub words-insert_voice_transcript :
    (current transcript : String)
    → words (insert_voice_transcript current transcript) ≡ words current ++ words transcript
unfolding insert_voice_transcript
words-insert_voice_transcript current transcript = elim (Bool-cases (is_empty (trim transcript))) [
  | inl silent ↦ rw silent (
      sym (append-nil (words current))
      ∙ ap (λ ws. words current ++ ws) (sym (no_words transcript silent)))
  | inr spoken ↦ elim (Bool-cases (is_empty (trim current))) [
    | inl blank ↦ rw (spoken, blank, no_words current blank) (words-trim transcript)
    | inr typed ↦ elim (Bool-cases (ends_with_space current)) [
      | inl ends ↦
          rw (spoken, typed, ends)
            (ap (λ text. words (current <> text)) (nil-append (trim transcript))
              ∙ words-append current (trim transcript) ends
              ∙ ap (λ ws. words current ++ ws) (words-trim transcript))
      | inr goes_on ↦
          rw (spoken, typed, goes_on)
            (words-append_apart " " refl current (trim transcript)
              ∙ ap (λ ws. words current ++ ws) (words-trim transcript))
    ]
  ]
]
