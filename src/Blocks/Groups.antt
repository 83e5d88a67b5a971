-- ===== src/Blocks/Groups.antt =====
-- frontend/src/app/timelineBlocks.ts: a group of tool calls, its status and its summary.
use acp_webui.Common.{
  String, ℕ, suc, Bool, true, false, ◌&&◌, ◌||◌, Option, none, some, List, [], ◌∷◌, map, filter,
  if◌then◌else◌, length, ltb, nat_eq, ◌==◌, ◌<>◌, head?, includes,
}
use acp_webui.Common.Sets.{last?, unique}
use acp_webui.Common.Text.{to_lower_case}
use acp_webui.Common.Text.Number.{decimal}
use acp_webui.Common.Text.Split.{ends_with, join}
use acp_webui.Types.{MessageItem, PermissionItem, ReviewArtifactItem, ToolCallItem}
use acp_webui.Tools.Display.{ToolCallDisplay}
use acp_webui.Tools.Kind.{ToolActivityKind, kind_text}

pub record TimelineToolGroupEntry : Type 0 where
  pub item : ToolCallItem
  pub display : ToolCallDisplay

pub record ToolGroup : Type 0 where
  pub id : String
  pub entries : List TimelineToolGroupEntry
  pub summary : String
  pub status : String
  pub status_label : Option String
  pub failure_count : ℕ
  pub class_names : List String

pub data TimelineDisplayBlock : Type 0 where
  message : MessageItem → TimelineDisplayBlock
  tool_group : ToolGroup → TimelineDisplayBlock
  permission : PermissionItem → TimelineDisplayBlock
  review_artifact : ReviewArtifactItem → TimelineDisplayBlock

pub data ActivitySummaryKey : Type 0 where
  command file_change file_read search browser tool : ActivitySummaryKey

pub record ActivitySummary : Type 0 where
  pub verb : String
  pub noun : String

unfoldable pub activity_summary : ActivitySummaryKey → ActivitySummary
activity_summary ActivitySummaryKey.command = record { verb = "Ran"; noun = "command" }
activity_summary ActivitySummaryKey.file_change = record { verb = "Changed"; noun = "file" }
activity_summary ActivitySummaryKey.file_read = record { verb = "Read"; noun = "file" }
activity_summary ActivitySummaryKey.search = record { verb = "Searched"; noun = "search" }
activity_summary ActivitySummaryKey.browser = record { verb = "Browsed"; noun = "browser action" }
activity_summary ActivitySummaryKey.tool = record { verb = "Used"; noun = "tool" }

unfoldable pub summary_key : ToolActivityKind → ActivitySummaryKey
summary_key ToolActivityKind.command = ActivitySummaryKey.command
summary_key ToolActivityKind.file_change = ActivitySummaryKey.file_change
summary_key ToolActivityKind.file_read = ActivitySummaryKey.file_read
summary_key ToolActivityKind.search = ActivitySummaryKey.search
summary_key ToolActivityKind.browser = ActivitySummaryKey.browser
summary_key ToolActivityKind.mcp = ActivitySummaryKey.tool
summary_key ToolActivityKind.generic = ActivitySummaryKey.tool

-- `a === b` of two keys
abbrev pub key_number : ActivitySummaryKey → ℕ
key_number ActivitySummaryKey.command = 0
key_number ActivitySummaryKey.file_change = 1
key_number ActivitySummaryKey.file_read = 2
key_number ActivitySummaryKey.search = 3
key_number ActivitySummaryKey.browser = 4
key_number ActivitySummaryKey.tool = 5

abbrev pub same_key : ActivitySummaryKey → ActivitySummaryKey → Bool
same_key a b = nat_eq (key_number a) (key_number b)

unfoldable pub pluralize : String → ℕ → String
unfolding ends_with
pluralize noun count =
    if nat_eq count 1 then noun else if ends_with noun "search" then "searches" else noun <> "s"

-- `lowerFirst`
lower_first : String → String
unfolding to_lower_case
lower_first String.[] = String.[]
lower_first (String.◌∷◌ c value) = to_lower_case (String.◌∷◌ c String.[]) <> value

unfoldable pub activity_count_label : ActivitySummaryKey → ℕ → Bool → String
unfolding activity_summary lower_first pluralize decimal
activity_count_label kind count sentence_start =
    let summary = activity_summary kind in
    let verb = if sentence_start then summary.verb else lower_first summary.verb in
    verb <> " " <> decimal count <> " " <> pluralize summary.noun count

abbrev is_mcp : ToolActivityKind → Bool
is_mcp ToolActivityKind.mcp = true
is_mcp _ = false

-- `/node[_-]?repl/i.test(value)`
names_node_repl : String → Bool
unfolding to_lower_case
names_node_repl value =
    let lower = to_lower_case value in
    includes lower "noderepl" || includes lower "node_repl" || includes lower "node-repl"

unfoldable pub friendly_tool_subject : TimelineToolGroupEntry → String
unfolding names_node_repl
friendly_tool_subject entry =
    if is_mcp entry.display.kind && names_node_repl entry.item.tool_kind
    then "Node Repl"
    else entry.display.subject

unfoldable pub single_tool_summary : TimelineToolGroupEntry → String
unfolding friendly_tool_subject activity_summary summary_key
single_tool_summary entry =
    (activity_summary (summary_key entry.display.kind)).verb <> " " <> friendly_tool_subject entry

-- `orderedKinds` and `counts`: the counts of the kinds, in the order in which they are met.
unfoldable pub count_kind :
    ActivitySummaryKey → List (ActivitySummaryKey × ℕ) → List (ActivitySummaryKey × ℕ)
count_kind kind [] = (kind, 1) ∷ []
count_kind kind ((k, n) ∷ counts) =
    let rest = count_kind kind counts in
    if same_key k kind then (k, suc n) ∷ counts else (k, n) ∷ rest

unfoldable pub count_kinds :
    List TimelineToolGroupEntry → List (ActivitySummaryKey × ℕ) → List (ActivitySummaryKey × ℕ)
unfolding count_kind summary_key
count_kinds [] counts = counts
count_kinds (entry ∷ entries) counts =
    count_kinds entries (count_kind (summary_key entry.display.kind) counts)

count_labels : Bool → List (ActivitySummaryKey × ℕ) → List String
unfolding activity_count_label
count_labels first [] = []
count_labels first ((kind, count) ∷ counts) =
    activity_count_label kind count first ∷ count_labels false counts

unfoldable pub tool_group_summary : List TimelineToolGroupEntry → String
unfolding single_tool_summary count_kinds count_labels join
tool_group_summary (entry ∷ []) = single_tool_summary entry
tool_group_summary entries = join ", " (count_labels true (count_kinds entries []))

abbrev pub has_status : String → TimelineToolGroupEntry → Bool
unfolding to_lower_case
has_status status entry = to_lower_case entry.item.status == status

abbrev item_id? : Option TimelineToolGroupEntry → String
item_id? none = ""
item_id? (some entry) = entry.item.id

-- `flushTools` and the loop of `buildTimelineBlocks` call it with at least one entry.
unfoldable pub tool_group_block : List TimelineToolGroupEntry → TimelineDisplayBlock
unfolding tool_group_summary unique decimal to_lower_case
tool_group_block entries =
    let failure_count = length (filter (has_status "failed") entries) in
    let running_count = length (filter (has_status "running") entries) in
    TimelineDisplayBlock.tool_group (record {
      id =
          "tool-group-"
          <> item_id? (head? entries)
          <> "-"
          <> item_id? (last? entries)
          <> "-"
          <> decimal (length entries);
      entries = entries;
      summary = tool_group_summary entries;
      status =
          if ltb 0 failure_count
          then "failed"
          else if ltb 0 running_count
          then "running"
          else "completed";
      status_label =
          if ltb 0 failure_count
          then some (decimal failure_count <> " failed")
          else if ltb 0 running_count
          then some "running"
          else if ltb 1 (length entries)
          then some (decimal (length entries) <> " completed")
          else none;
      failure_count = failure_count;
      class_names = unique (map (λ entry. kind_text entry.display.kind) entries);
    })
