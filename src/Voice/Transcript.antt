-- ===== src/Voice/Transcript.antt =====
-- frontend/src/utils/speechRecognition.ts: the transcript of a result, and the prompt that takes it.
use acp_webui.Common.{
  String, ℕ, Bool, true, false, not, ◌&&◌, Option, none, some, List, [], ◌∷◌, ◌++◌, filter, map,
  if◌then◌else◌, is_empty, or_else, ◌<>◌, ◌≡◌, refl, ◌∙◌, ap, sym, Bool-cases, inl, inr,
}
use mathlib.Core.List.{append_assoc, append-nil}
use acp_webui.Common.Sets.{drop}
use acp_webui.Common.Text.Words.{ends_with_space}
use acp_webui.Common.Text.{trim}
use acp_webui.Common.Text.Split.{join}

-- An integer, as `resultIndex` may be.
pub data ℤ : Type 0 where
  pos : ℕ → ℤ
  negsuc : ℕ → ℤ

-- `Math.max(0, i)`
abbrev pub at_least_zero : ℤ → ℕ
at_least_zero (ℤ.pos n) = n
at_least_zero (ℤ.negsuc n) = 0

-- A result with the transcript of its first alternative; `none` where one of them is missing.
pub record SpeechRecognitionResult : Type 0 where
  pub is_final : Option Bool
  pub transcript : Option String

pub record SpeechRecognitionResultEvent : Type 0 where
  pub result_index : Option ℤ
  pub results : Option (List (Option SpeechRecognitionResult))

pub record Transcript : Type 0 where
  pub transcript : String
  pub is_final : Bool

abbrev pub is_true : Option Bool → Bool
is_true none = false
is_true (some b) = b

abbrev pub trimmed : Option String → String
unfolding trim
trimmed none = ""
trimmed (some s) = trim s

-- The loop, with `transcripts` and `isFinal`.
unfoldable pub collect :
    List (Option SpeechRecognitionResult) → List String → Bool → List String × Bool
unfolding trim
collect [] transcripts is_final = (transcripts, is_final)
collect (none ∷ results) transcripts is_final = collect results transcripts is_final
collect (some result ∷ results) transcripts is_final =
    let blank = collect results transcripts is_final in
    let heard =
      collect results (transcripts ++ trimmed result.transcript ∷ [])
        (is_final && is_true result.is_final) in
    if is_empty (trimmed result.transcript) then blank else heard

unfoldable pub transcript_from_results : List (Option SpeechRecognitionResult) → ℕ → Transcript
unfolding collect join trim
transcript_from_results [] start = record { transcript = ""; is_final = false }
transcript_from_results (result ∷ results) start =
    let (transcripts, is_final) = collect (drop start (result ∷ results)) [] true in
    record { transcript = trim (join " " transcripts); is_final = is_final }

unfoldable pub transcript_from_result_event : SpeechRecognitionResultEvent → Transcript
unfolding transcript_from_results
transcript_from_result_event event =
    transcript_from_results (or_else event.results [])
      (at_least_zero (or_else event.result_index (ℤ.pos 0)))

unfoldable pub insert_voice_transcript : String → String → String
unfolding trim ends_with_space
insert_voice_transcript current transcript =
    let text = trim transcript in
    if is_empty text
    then current
    else if is_empty (trim current)
    then text
    else current <> (if ends_with_space current then "" else " ") <> text

-- The results in which something is heard.
abbrev pub is_heard : Option SpeechRecognitionResult → Bool
is_heard none = false
is_heard (some result) = not (is_empty (trimmed result.transcript))

abbrev pub words_of : Option SpeechRecognitionResult → String
words_of none = ""
words_of (some result) = trimmed result.transcript

abbrev pub is_final_result : Option SpeechRecognitionResult → Bool
is_final_result none = false
is_final_result (some result) = is_true result.is_final

abbrev pub every_final : List (Option SpeechRecognitionResult) → Bool
every_final [] = true
every_final (result ∷ results) = is_final_result result && every_final results

and_assoc : (a b c : Bool) → ((a && b) && c) ≡ (a && (b && c))
and_assoc true b c = refl
and_assoc false b c = refl

and_true : (a : Bool) → a ≡ (a && true)
and_true true = refl
and_true false = refl

collect-lem :
    (results : List (Option SpeechRecognitionResult)) (transcripts : List String) (is_final : Bool)
    → collect results transcripts is_final ≡ (
      transcripts ++ map words_of (filter is_heard results),
      is_final && every_final (filter is_heard results),
    )
unfolding collect
collect-lem [] transcripts is_final = simp (append-nil, sym (and_true is_final))
collect-lem (none ∷ results) transcripts is_final = collect-lem results transcripts is_final
collect-lem (some result ∷ results) transcripts is_final =
    elim (Bool-cases (is_empty (trimmed result.transcript))) [
      | inl blank ↦ rw blank (collect-lem results transcripts is_final)
      | inr heard ↦ rw heard (
          collect-lem results (transcripts ++ trimmed result.transcript ∷ [])
            (is_final && is_true result.is_final)
          ∙ simp (append_assoc, and_assoc))
    ]

-- The transcript of an event has the words that are heard from its index on, and is final if they are.
pub transcript_from_results_lem :
    (result : Option SpeechRecognitionResult) (results : List (Option SpeechRecognitionResult))
    (start : ℕ)
    → let heard = filter is_heard (drop start (result ∷ results)) in
      transcript_from_results (result ∷ results) start
      ≡ record { transcript = trim (join " " (map words_of heard)); is_final = every_final heard }
unfolding transcript_from_results
transcript_from_results_lem result results start =
    ap
      (λ (transcripts, is_final). record {
        transcript = trim (join " " transcripts);
        is_final = is_final;
      })
      (collect-lem (drop start (result ∷ results)) [] true)
