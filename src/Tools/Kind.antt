-- ===== src/Tools/Kind.antt =====
-- frontend/src/utils/toolDisplay.ts: the kind of activity that a tool call is, and its names.
use acp_webui.Common.{
  String, ◌&&◌, ◌||◌, Option, none, some, List, [], ◌∷◌, if◌then◌else◌, is_empty, truthy, or_else,
  ◌==◌,
}
use acp_webui.Common.Text.{capital, trim, to_lower_case}
use acp_webui.Common.Text.Split.{has_word, is_code, join, nonempty, squash}
use acp_webui.Tools.Shell.{is_generic_tool_title, useful_tool_name}

pub data ToolActivityKind : Type 0 where
  command : ToolActivityKind
  file_change : ToolActivityKind
  file_read : ToolActivityKind
  search : ToolActivityKind
  browser : ToolActivityKind
  mcp : ToolActivityKind
  generic : ToolActivityKind

-- The kind as the text that it is in the source.
abbrev pub kind_text : ToolActivityKind → String
kind_text ToolActivityKind.command = "command"
kind_text ToolActivityKind.file_change = "file_change"
kind_text ToolActivityKind.file_read = "file_read"
kind_text ToolActivityKind.search = "search"
kind_text ToolActivityKind.browser = "browser"
kind_text ToolActivityKind.mcp = "mcp"
kind_text ToolActivityKind.generic = "generic"

-- The values that `detectKind` and `subjectForKind` are given.
pub record ToolValues : Type 0 where
  pub command : Option String
  pub content_text : Option String
  pub fallback : String
  pub path : Option String
  pub query : Option String
  pub server : Option String
  pub tool : Option String
  pub url : Option String

abbrev browser_words : List String
browser_words = "browser" ∷ "navigate" ∷ "click" ∷ "screenshot" ∷ "page" ∷ "url" ∷ []

abbrev change_words : List String
change_words =
    "edit" ∷ "write" ∷ "patch" ∷ "apply_patch" ∷ "update_file" ∷ "create_file" ∷ "delete_file"
    ∷ "replace" ∷ []

abbrev search_words : List String
search_words = "search" ∷ "grep" ∷ "rg" ∷ "find" ∷ "query" ∷ []

abbrev command_words : List String
command_words = "execute" ∷ "command" ∷ "shell" ∷ "bash" ∷ "powershell" ∷ "terminal" ∷ "run" ∷ []

abbrev read_words : List String
read_words = "list" ∷ "ls" ∷ "glob" ∷ "directory" ∷ "read" ∷ "open" ∷ "fetch" ∷ "cat" ∷ "view" ∷ []

unfoldable pub detect_kind : String → ToolValues → ToolActivityKind
unfolding has_word
detect_kind text values =
    if has_word browser_words text || truthy values.url
    then ToolActivityKind.browser
    else if has_word ("mcp" ∷ []) text || truthy values.server && truthy values.tool
    then ToolActivityKind.mcp
    else if has_word change_words text
    then ToolActivityKind.file_change
    else if has_word search_words text || truthy values.query
    then ToolActivityKind.search
    else if has_word command_words text || truthy values.command
    then ToolActivityKind.command
    else if has_word read_words text || truthy values.path
    then ToolActivityKind.file_read
    else ToolActivityKind.generic

-- `a || b`
abbrev pub text_or : String → String → String
text_or a b = if is_empty a then b else a

unfoldable pub humanize : String → String
unfolding squash trim capital
humanize value =
    let text = trim (squash (λ c. is_code b'_' c || is_code b'-' c) value) in
    if is_empty text then "Tool" else capital text

unfoldable pub action_label : ToolActivityKind → String → String
unfolding humanize
action_label ToolActivityKind.command fallback = "Ran"
action_label ToolActivityKind.file_change fallback = "Changed"
action_label ToolActivityKind.file_read fallback = "Read"
action_label ToolActivityKind.search fallback = "Searched"
action_label ToolActivityKind.browser fallback = "Browsed"
action_label ToolActivityKind.mcp fallback = "Called"
action_label ToolActivityKind.generic fallback = humanize (text_or fallback "Tool")

abbrev listed : Option String → List String → List String
listed none xs = xs
listed (some x) xs = x ∷ xs

unfoldable pub subject_for_kind : ToolActivityKind → ToolValues → String
unfolding join
subject_for_kind ToolActivityKind.command values =
    or_else values.command (or_else values.content_text values.fallback)
subject_for_kind ToolActivityKind.file_change values = or_else values.path values.fallback
subject_for_kind ToolActivityKind.file_read values = or_else values.path values.fallback
subject_for_kind ToolActivityKind.search values =
    or_else values.query (or_else values.path values.fallback)
subject_for_kind ToolActivityKind.browser values = or_else values.url values.fallback
subject_for_kind ToolActivityKind.mcp values =
    text_or (join " / " (nonempty (listed values.server (listed values.tool [])))) values.fallback
subject_for_kind ToolActivityKind.generic values = values.fallback

unfoldable pub result_for_status : String → String
unfolding to_lower_case humanize
result_for_status status =
    let lower = to_lower_case status in
    if lower == "completed"
    then "Completed"
    else if lower == "failed"
    then "Failed"
    else if lower == "running"
    then "Running"
    else humanize (text_or status "Tool activity")

unfoldable pub status_label : String → String
unfolding result_for_status to_lower_case
status_label status = to_lower_case (result_for_status status)

unfoldable pub fallback_subject : String → String → Option String → String
unfolding is_generic_tool_title useful_tool_name
fallback_subject title tool_kind raw_output =
    if truthy raw_output && is_generic_tool_title (some title)
    then "command"
    else if is_generic_tool_title (some title)
    then or_else (useful_tool_name (some tool_kind)) "tool"
    else title
