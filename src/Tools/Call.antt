-- ===== src/Tools/Call.antt =====
-- frontend/src/utils/toolDisplay.ts: what `toolCallDisplay` reads from a tool call, and its result.
use acp_webui.Common.{
  String, Bool, true, false, not, ◌&&◌, Option, none, some, List, [], ◌∷◌, map, if◌then◌else◌,
  is_empty, truthy, or_else, or_else?, ◌==◌,
}
use acp_webui.Common.Text.{to_lower_case}
use acp_webui.Common.Text.Split.{join, nonempty}
use acp_webui.Types.{ReviewArtifactSummary, ToolCallItem}
use acp_webui.Tools.Values.{
  as_record, find_content_text, find_string, output_from_payload, string_field,
}
use acp_webui.Tools.Shell.{
  command_output_summary, compact_multiline_tail, compact_text, meaningful_summary,
  shell_command_from_content, useful_tool_name,
}
use acp_webui.Tools.Kind.{
  ToolActivityKind, ToolValues, action_label, detect_kind, fallback_subject, result_for_status,
  status_label, subject_for_kind, text_or,
}
use acp_webui.Tools.Display.{
  ToolCallDisplay, ToolCallDisplayDetail, detail, max_result_length, max_subject_length,
  tool_detail_text, unique_details,
}

abbrev texts_of : List (Option String) → List String
texts_of [] = []
texts_of (none ∷ os) = texts_of os
texts_of (some s ∷ os) = s ∷ texts_of os

-- The text that `detectKind` looks at.
unfoldable tool_text : ToolCallItem → Option String → Option String → String
unfolding as_record string_field join to_lower_case
tool_text item content_text raw_output =
    let input = as_record item.input in
    to_lower_case (
      join " " (
        nonempty (
          texts_of (
            some item.tool_kind
            ∷ some item.title
            ∷ string_field input "sessionUpdate"
            ∷ string_field input "kind"
            ∷ string_field input "type"
            ∷ string_field input "name"
            ∷ string_field input "tool"
            ∷ content_text
            ∷ (if truthy raw_output then some "raw output terminal command" else none)
            ∷ []))))

abbrev pub command_keys : List String
command_keys = "command" ∷ "cmd" ∷ "script" ∷ "shell" ∷ "commandLine" ∷ []

abbrev path_keys : List String
path_keys = "path" ∷ "file" ∷ "filename" ∷ "directory" ∷ "glob" ∷ []

abbrev query_keys : List String
query_keys = "query" ∷ "q" ∷ "pattern" ∷ "search" ∷ "searchQuery" ∷ []

-- The values that are looked up in the input of a tool call.
unfoldable pub tool_values : ToolCallItem → ToolValues
unfolding find_content_text find_string shell_command_from_content fallback_subject
tool_values item =
    let content_text = find_content_text item.input in
    record {
      command =
          or_else? (find_string item.input command_keys) (shell_command_from_content content_text);
      content_text = content_text;
      fallback =
          fallback_subject item.title item.tool_kind (find_string item.input ("rawOutput" ∷ []));
      path = find_string item.input path_keys;
      query = find_string item.input query_keys;
      server = find_string item.input ("server" ∷ "serverName" ∷ "mcpServer" ∷ []);
      tool = find_string item.input ("tool" ∷ "toolName" ∷ "name" ∷ []);
      url = find_string item.input ("url" ∷ "href" ∷ "target" ∷ []);
    }

unfoldable pub tool_output_text : ToolCallItem → String
unfolding output_from_payload find_string
tool_output_text item =
    text_or (output_from_payload item.output)
      (or_else (find_string item.input ("rawOutput" ∷ [])) "")

unfoldable pub tool_result : ToolCallItem → String
unfolding tool_output_text compact_text meaningful_summary command_output_summary result_for_status
tool_result item =
    compact_text
      (or_else (meaningful_summary (some item.summary))
        (or_else (command_output_summary (tool_output_text item)) (result_for_status item.status)))
      max_result_length

unfoldable pub tool_output_tail : ToolCallItem → Option String
unfolding tool_output_text compact_multiline_tail
tool_output_tail item =
    let output_text = tool_output_text item in
    if not (is_empty output_text) && not (output_text == "null")
    then some (compact_multiline_tail output_text)
    else none

abbrev is_command : ToolActivityKind → Bool
is_command ToolActivityKind.command = true
is_command _ = false

-- What `detail` is given: a label and a value each.
unfoldable pub tool_details : ToolActivityKind → ToolCallItem → List (String × Option String)
unfolding tool_values useful_tool_name find_string
tool_details kind item =
    let values = tool_values item in
    ("Command", or_else? values.command (if is_command kind then values.content_text else none))
    ∷ ("Path", values.path)
    ∷ ("Query", values.query)
    ∷ ("URL", values.url)
    ∷ ("Cwd", (find_string item.input ("cwd" ∷ "workingDirectory" ∷ [])))
    ∷ ("Server", values.server)
    ∷ (
      "Tool",
      (useful_tool_name (
          some (
            if truthy values.tool && not (or_else values.tool "" == item.tool_kind)
            then or_else values.tool ""
            else item.tool_kind))),
    )
    ∷ []

unfoldable pub tool_metadata : ToolActivityKind → ToolCallItem → List ToolCallDisplayDetail
unfolding tool_details unique_details detail
tool_metadata kind item =
    unique_details (map (λ (label, value). detail label value) (tool_details kind item))

unfoldable pub activity_kind : ToolCallItem → ToolActivityKind
unfolding tool_values tool_text detect_kind find_string
activity_kind item =
    let values = tool_values item in
    detect_kind (tool_text item values.content_text (find_string item.input ("rawOutput" ∷ [])))
      values

unfoldable pub shown_subject : ToolCallItem → String
unfolding activity_kind tool_values subject_for_kind compact_text
shown_subject item =
    compact_text (subject_for_kind (activity_kind item) (tool_values item)) max_subject_length

unfoldable pub tool_call_display : ToolCallItem → List ReviewArtifactSummary → ToolCallDisplay
unfolding activity_kind shown_subject tool_result tool_output_tail tool_metadata action_label
    status_label tool_detail_text
tool_call_display item review_artifacts =
    let kind = activity_kind item in
    let label = action_label kind item.tool_kind in
    let subject = shown_subject item in
    let status = status_label item.status in
    let result = tool_result item in
    let metadata = tool_metadata kind item in
    let output_tail = tool_output_tail item in
    record {
      kind = kind;
      action_label = label;
      subject = subject;
      status = item.status;
      status_label = status;
      result = result;
      metadata = metadata;
      output_tail = output_tail;
      detail_text =
          tool_detail_text label subject status result metadata output_tail review_artifacts
            item.review_artifact_ids;
    }
