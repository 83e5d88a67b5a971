-- ===== src/Tools/Tests.antt =====
-- Tool calls at concrete inputs.
use acp_webui.Common.{◌≤◌, Option, none, some, List, [], ◌∷◌, ◌≡◌, refl, head?, All}
use acp_webui.Common.Text.Units
use acp_webui.Samples.{artifact_named, tool_named}
use acp_webui.Types.{Elements, Fields, Json, ToolCallItem}
use acp_webui.Tools.Values.{find_string}
use acp_webui.Tools.Display.{ToolCallDisplayDetail, max_result_length, max_subject_length}
use acp_webui.Tools.Call.{tool_call_display}
use acp_webui.Tools.Laws.{Fits, TailFits, tool_call_display-Fits}
use acp_webui.Tools.Search.{find_string-texts_under, texts_under}
use acp_webui.Tools.Kind.{kind_text}

abbrev sparse : ToolCallItem
sparse = record (tool_named "t1" "c1" "completed") {
  tool_kind = "unknown";
  title = "Tool call";
  summary = "tool_call_update completed";
  input = Json.object (
      Fields.field "sessionUpdate" (Json.text "tool_call_update") (
        Fields.field "toolCall"
          (Json.object (
            Fields.field "content"
              (Json.array (
                Elements.cons
                  (Json.object (
                    Fields.field "text" (Json.text "```powershell\nnpm test\nnpm run build\n```")
                      Fields.end))
                  Elements.nil))
              Fields.end))
          Fields.end));
}

sparse_subject : (tool_call_display sparse []).subject ≡ "npm test && npm run build"
unfolding tool_call_display
sparse_subject = refl

sparse_kind : kind_text (tool_call_display sparse []).kind ≡ "command"
unfolding tool_call_display
sparse_kind = refl

abbrev failing : ToolCallItem
failing = record (tool_named "t2" "c2" "failed") {
  title = "Run command";
  summary = "Command failed";
  input = Json.object (Fields.field "command" (Json.text "npm test") Fields.end);
  output = some (
      Json.object (
        Fields.field "stderr" (Json.text "line 1\nline 2\nline 3\nline 4\nline 5\nline 6\nline 7")
          Fields.end));
}

failing_tail :
    (tool_call_display failing []).output_tail
    ≡ some "line 2\nline 3\nline 4\nline 5\nline 6\nline 7"
unfolding tool_call_display
failing_tail = refl

failing_text :
    (tool_call_display failing (artifact_named "a1" ∷ [])).detail_text
    ≡ "Ran npm test\nStatus: failed\nResult: Command failed\nCommand: npm test\nTool: execute\nOutput:\nline 2\nline 3\nline 4\nline 5\nline 6\nline 7"
unfolding tool_call_display
failing_text = refl

tool_call_display-Fits_example :
    (Units.length (tool_call_display failing []).subject ≤ max_subject_length)
    × (Units.length (tool_call_display failing []).result ≤ max_result_length)
    × All Fits (tool_call_display failing []).metadata
    × TailFits (tool_call_display failing []).output_tail
tool_call_display-Fits_example = tool_call_display-Fits failing []

abbrev details : List (Option ToolCallDisplayDetail)
details =
    some (record { label = "Path"; value = "a" })
    ∷ none
    ∷ some (record { label = "Path"; value = "a" })
    ∷ []

find_string-texts_under_example :
    find_string failing.input ("cmd" ∷ "command" ∷ [])
    ≡ head? (texts_under ("cmd" ∷ "command" ∷ []) 5 failing.input)
find_string-texts_under_example = find_string-texts_under failing.input ("cmd" ∷ "command" ∷ [])
