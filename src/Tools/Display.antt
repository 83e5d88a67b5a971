-- ===== src/Tools/Display.antt =====
-- frontend/src/utils/toolDisplay.ts: `toolCallDisplay`, what the page shows of a tool call.
use acp_webui.Common.{
  String, ℕ, Bool, not, ◌&&◌, Option, none, some, List, [], ◌∷◌, ◌++◌, map, filter, find, flat_map,
  if◌then◌else◌, is_empty, truthy, or_else, ◌<>◌, ◌==◌,
}
use acp_webui.Common.Sets.{has, unique}
use acp_webui.Common.Text.{to_lower_case}
use acp_webui.Common.Text.Split.{join, nonempty}
use acp_webui.Types.{ReviewArtifactSummary}
use acp_webui.Tools.Shell.{compact_text, is_generic_tool_title}
use acp_webui.Tools.Kind.{ToolActivityKind, text_or}

pub record ToolCallDisplayDetail : Type 0 where
  pub label : String
  pub value : String

pub record ToolCallDisplay : Type 0 where
  pub kind : ToolActivityKind
  pub action_label : String
  pub subject : String
  pub status : String
  pub status_label : String
  pub result : String
  pub metadata : List ToolCallDisplayDetail
  pub output_tail : Option String
  pub detail_text : String

abbrev pub max_subject_length : ℕ
max_subject_length = 180

abbrev pub max_detail_length : ℕ
max_detail_length = 240

abbrev pub max_result_length : ℕ
max_result_length = 240

unfoldable pub detail : String → Option String → Option ToolCallDisplayDetail
unfolding compact_text
detail label value =
    let compact = compact_text (or_else value "") max_detail_length in
    if is_empty compact then none else some (record { label = label; value = compact })

abbrev pub detail_key : ToolCallDisplayDetail → String
detail_key item = item.label <> ":" <> item.value

-- `uniqueDetails`, with the keys that are in `seen`.
unfoldable pub unseen_details :
    List String → List (Option ToolCallDisplayDetail) → List ToolCallDisplayDetail
unseen_details seen [] = []
unseen_details seen (none ∷ details) = unseen_details seen details
unseen_details seen (some item ∷ details) =
    let without = unseen_details seen details in
    let others = unseen_details (detail_key item ∷ seen) details in
    if has (detail_key item) seen then without else item ∷ others

unfoldable pub unique_details : List (Option ToolCallDisplayDetail) → List ToolCallDisplayDetail
unfolding unseen_details
unique_details details = unseen_details [] details

-- `artifactIds.map((id) => reviewArtifacts.find(...)).filter(Boolean)`
unfoldable pub linked_artifacts :
    List ReviewArtifactSummary → List String → List ReviewArtifactSummary
linked_artifacts review_artifacts ids =
    flat_map
      (λ id. elim (find (λ artifact. artifact.id == id) review_artifacts) [
        | none ↦ []
        | some artifact ↦ artifact ∷ []
      ])
      ids

unfoldable pub artifact_titles : List ReviewArtifactSummary → List String → List String
unfolding linked_artifacts compact_text is_generic_tool_title
artifact_titles review_artifacts ids =
    filter (λ title. not (is_generic_tool_title (some title)))
      (map
        (λ artifact.
          compact_text (text_or artifact.title (text_or artifact.summary artifact.kind))
            max_detail_length)
        (filter (λ artifact. not (artifact.kind == "image"))
          (linked_artifacts review_artifacts ids)))

abbrev line_if : Bool → String → List String
line_if b line = if b then line ∷ [] else []

-- The arguments are the fields of `display`.
unfoldable pub tool_detail_text :
    (action_label subject status_label result : String)
    → List ToolCallDisplayDetail
    → Option String
    → List ReviewArtifactSummary
    → List String
    → String
unfolding artifact_titles unique join to_lower_case
tool_detail_text label subject status result metadata output_tail review_artifacts artifact_ids =
    let titles = artifact_titles review_artifacts artifact_ids in
    join "\n" (
      unique (
        nonempty (
          (label <> " " <> subject)
            ∷ ("Status: " <> status)
            ∷ line_if (not (is_empty result) && not (to_lower_case result == status))
                ("Result: " <> result)
          ++ map (λ item. item.label <> ": " <> item.value) metadata
          ++ (elim titles [ [] ↦ [] | t ∷ ts ↦ ("Evidence: " <> join ", " (unique (t ∷ ts))) ∷ [] ])
          ++ line_if (truthy output_tail) ("Output:\n" <> or_else output_tail ""))))
