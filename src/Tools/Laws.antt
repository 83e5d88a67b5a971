-- ===== src/Tools/Laws.antt =====
-- About frontend/src/utils/toolDisplay.ts: the lengths of what is shown, and the search of a payload.
use acp_webui.Common.{
  String, ℕ, ◌-◌, ◌≤◌, Option, none, some, List, [], ◌∷◌, map, arith, Bool-cases, inl, inr, All,
  leb, leb→le, is_empty, not, ◌&&◌, ◌==◌, or_else,
}
use acp_webui.Common.Sets.{has, take_last}
use acp_webui.Common.Text.Split.{join}
use acp_webui.Common.Text.Units
use acp_webui.Types.{ReviewArtifactSummary, ToolCallItem}
use acp_webui.Tools.Shell.{
  command_output_summary, compact_multiline_tail, compact_text, cut, max_output_tail_lines,
  meaningful_summary, output_lines, max_output_tail_length,
}
use acp_webui.Tools.Display.{
  ToolCallDisplayDetail, detail, detail_key, max_detail_length, max_result_length,
  max_subject_length, unique_details, unseen_details,
}
use acp_webui.Tools.Kind.{ToolActivityKind, result_for_status, subject_for_kind}
use acp_webui.Tools.Call.{
  activity_kind, shown_subject, tool_values, tool_output_text, tool_call_display, tool_details,
  tool_metadata, tool_output_tail, tool_result,
}

cut_le : (text : String) (max : ℕ) → 3 ≤ max → Units.length (cut text max) ≤ max
unfolding cut
cut_le text max h = elim (Bool-cases (leb (Units.length text) max)) [
  | inl short ↦ rw short (leb→le _ max short)
  | inr long ↦
      let kept = Units.length-take (max - 3) text in
      rw long (
        rw (Units.length-append (Units.take (max - 3) text) "...")
          (unfold Units.length in omega arith))
]

pub compact_text_le :
    (text : String) (max : ℕ) → 3 ≤ max → Units.length (compact_text text max) ≤ max
unfolding compact_text
compact_text_le text max h = cut_le _ max h

-- A detail's value fits.
abbrev pub Fits : ToolCallDisplayDetail → Type 0
Fits item = Units.length item.value ≤ max_detail_length

abbrev pub Fits? : Option ToolCallDisplayDetail → Type 0
Fits? none = Unit
Fits? (some item) = Fits item

detail-Fits : (label : String) (value : Option String) → Fits? (detail label value)
unfolding detail
detail-Fits label value =
    elim (Bool-cases (is_empty (compact_text (or_else value "") max_detail_length))) [
      | inl blank ↦ rw blank tt
      | inr shown ↦ rw shown (compact_text_le (or_else value "") max_detail_length (omega arith))
    ]

unseen_details-Fits :
    (seen : List String) (details : List (Option ToolCallDisplayDetail))
    → All Fits? details
    → All Fits (unseen_details seen details)
unfolding unseen_details
unseen_details-Fits seen [] h = tt
unseen_details-Fits seen (none ∷ details) (p, h) = unseen_details-Fits seen details h
unseen_details-Fits seen (some item ∷ details) (p, h) =
    elim (Bool-cases (has (detail_key item) seen)) [
      | inl old ↦ rw old (unseen_details-Fits seen details h)
      | inr new ↦ rw new (p, unseen_details-Fits (detail_key item ∷ seen) details h)
    ]

tool_result_le : (item : ToolCallItem) → Units.length (tool_result item) ≤ max_result_length
unfolding tool_result
tool_result_le item =
    compact_text_le
      (or_else (meaningful_summary (some item.summary))
        (or_else (command_output_summary (tool_output_text item)) (result_for_status item.status)))
      max_result_length (omega arith)

abbrev pub TailFits : Option String → Type 0
TailFits none = Unit
TailFits (some tail) = Units.length tail ≤ max_output_tail_length

tool_output_tail-TailFits : (item : ToolCallItem) → TailFits (tool_output_tail item)
unfolding tool_output_tail compact_multiline_tail
tool_output_tail-TailFits item =
    elim (Bool-cases
      (not (is_empty (tool_output_text item)) && not (tool_output_text item == "null"))) [
        | inl shown ↦ rw shown (
            cut_le
              (join "\n" (take_last max_output_tail_lines (output_lines (tool_output_text item))))
              max_output_tail_length (omega arith))
        | inr blank ↦ rw blank tt
      ]

details-Fits :
    (values : List (String × Option String))
    → All Fits? (map (λ (label, value). detail label value) values)
details-Fits [] = tt
details-Fits ((label, value) ∷ values) = (detail-Fits label value, details-Fits values)

tool_metadata-Fits :
    (kind : ToolActivityKind) (item : ToolCallItem) → All Fits (tool_metadata kind item)
unfolding tool_metadata unique_details
tool_metadata-Fits kind item =
    unseen_details-Fits [] (map (λ (label, value). detail label value) (tool_details kind item))
      (details-Fits (tool_details kind item))

shown_subject_le : (item : ToolCallItem) → Units.length (shown_subject item) ≤ max_subject_length
unfolding shown_subject
shown_subject_le item =
    compact_text_le (subject_for_kind (activity_kind item) (tool_values item)) max_subject_length
      (omega arith)

-- What is shown of a tool call is short, counted in UTF-16 code units: the subject has at most 180,
-- the result and every value of the details at most 240, and the tail of the output at most 520,
-- whatever the payload holds.
pub tool_call_display-Fits :
    (item : ToolCallItem) (review_artifacts : List ReviewArtifactSummary)
    → (Units.length (tool_call_display item review_artifacts).subject ≤ max_subject_length)
      × (Units.length (tool_call_display item review_artifacts).result ≤ max_result_length)
      × All Fits (tool_call_display item review_artifacts).metadata
      × TailFits (tool_call_display item review_artifacts).output_tail
unfolding tool_call_display
tool_call_display-Fits item review_artifacts = (
  shown_subject_le item,
  tool_result_le item,
  tool_metadata-Fits _ item,
  tool_output_tail-TailFits item,
)
