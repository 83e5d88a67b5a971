-- ===== src/Tools/Shell.antt =====
-- frontend/src/utils/toolDisplay.ts: the texts of a tool call: the shell command in a message, the
-- summary of a command's output, and texts made short.
use acp_webui.Common.{
  String, ℕ, ◌-◌, Bool, true, false, not, ◌&&◌, ◌||◌, Option, none, some, List, [], ◌∷◌, map,
  filter, find, if◌then◌else◌, is_empty, is_some, is_space, leb, ◌<>◌, ◌==◌,
}
use acp_webui.Common.Sets.{take, take_last}
use acp_webui.Common.Text.{trim, to_lower_case}
use acp_webui.Common.Text.Split.{
  after, before, begins_with_one_of, every, first_is, is_break, is_code, is_one_of, join, nonempty,
  pieces, split_lines, squash, unix_lines,
}
use acp_webui.Common.Text.Units
use acp_webui.Tools.Values.{truthy_text}
use Prim.Native.String
use text.Mathlib.Text.{starts_with}

abbrev or_empty : Option String → String
or_empty none = ""
or_empty (some s) = s

unfoldable pub useful_tool_name : Option String → Option String
unfolding trim to_lower_case
useful_tool_name value =
    let text = trim (or_empty value) in
    if is_empty text || to_lower_case text == "unknown" then none else some text

unfoldable pub is_generic_tool_title : Option String → Bool
unfolding trim to_lower_case
is_generic_tool_title value =
    let normalized = to_lower_case (trim (or_empty value)) in
    is_empty normalized || normalized == "tool call" || normalized == "unknown"

-- `/^tool_call(?:_update)?\s+(?:completed|updated|running|failed)\b/i`
unfoldable begins_as_bookkeeping : List (Bool × String) → Bool
unfolding to_lower_case
begins_as_bookkeeping ((true, subject) ∷ (false, gap) ∷ (true, outcome) ∷ rest) =
    is_one_of ("tool_call" ∷ "tool_call_update" ∷ []) (to_lower_case subject)
    && every is_space gap
    && is_one_of ("completed" ∷ "updated" ∷ "running" ∷ "failed" ∷ []) (to_lower_case outcome)
begins_as_bookkeeping _ = false

unfoldable pub meaningful_summary : Option String → Option String
unfolding trim begins_as_bookkeeping pieces
meaningful_summary value =
    let text = trim (or_empty value) in
    if is_empty text || begins_as_bookkeeping (pieces text) then none else some text

abbrev listed : Option String → List String → List String
listed none xs = xs
listed (some x) xs = x ∷ xs

unfoldable pub command_output_summary : String → Option String
unfolding trim unix_lines split_lines join to_lower_case
command_output_summary value =
    let lines = nonempty (map trim (split_lines (unix_lines value))) in
    let exit = find (λ line. starts_with (to_lower_case line) "exit code:") lines in
    let wall_time = find (λ line. starts_with (to_lower_case line) "wall time:") lines in
    truthy_text (some (join ", " (listed exit (listed wall_time []))))

-- The text behind the last line end of the white space that a text begins with.
unfoldable after_blank_lines : String → Option String
after_blank_lines String.[] = none
after_blank_lines (String.◌∷◌ c s) =
    let later = after_blank_lines s in
    if is_space c
    then elim later [ some t ↦ some t | none ↦ if is_break c then some s else none ]
    else none

-- The text before the first ``` of a text.
unfoldable before_fence : String → Option String
before_fence String.[] = none
before_fence (String.◌∷◌ c s) =
    let later = before_fence s in
    if starts_with (String.◌∷◌ c s) "```"
    then some ""
    else elim later [ some t ↦ some (String.◌∷◌ c t) | none ↦ none ]

abbrev fence_languages : List String
fence_languages =
    "" ∷ "sh" ∷ "shell" ∷ "bash" ∷ "zsh" ∷ "powershell" ∷ "ps1" ∷ "pwsh" ∷ "cmd" ∷ "bat" ∷ []

-- What a fence holds, by the text behind its first three characters.
unfoldable fence_content : String → Option String
unfolding before after to_lower_case after_blank_lines before_fence
fence_content s =
    if is_one_of fence_languages (to_lower_case (before is_space s))
    then elim (after_blank_lines (after is_space s)) [ none ↦ none | some t ↦ before_fence t ]
    else none

-- The first match of the expression in `shellCommandFromContent`.
unfoldable fenced_text : String → Option String
unfolding fence_content
fenced_text String.[] = none
fenced_text (String.◌∷◌ c s) =
    let later = fenced_text s in
    if starts_with (String.◌∷◌ c s) "```"
    then elim (fence_content (String.slice s 2 (String.len s))) [ some t ↦ some t | none ↦ later ]
    else later

abbrev shell_programs : List String
shell_programs =
    "bun" ∷ "cargo" ∷ "cmd" ∷ "deno" ∷ "dotnet" ∷ "git" ∷ "go" ∷ "make" ∷ "node" ∷ "npm" ∷ "npx"
    ∷ "pnpm" ∷ "powershell" ∷ "pwsh" ∷ "python" ∷ "rg" ∷ "rustc" ∷ "tsc" ∷ "uv" ∷ "vite" ∷ "yarn"
    ∷ []

unfoldable pub looks_like_shell_command : String → Bool
unfolding before to_lower_case
looks_like_shell_command value =
    let first_token = to_lower_case (before is_space value) in
    begins_with_one_of ("./" ∷ ".\\" ∷ "../" ∷ "..\\" ∷ "/" ∷ "\\" ∷ []) first_token
    || is_one_of shell_programs first_token

abbrev is_command_line : String → Bool
is_command_line line = not (is_empty line) && not (first_is (is_code b'#') line)

command_of_lines : Bool → List String → Option String
unfolding looks_like_shell_command join
command_of_lines fenced [] = none
command_of_lines fenced (line ∷ lines) =
    if fenced || looks_like_shell_command line
    then some (join " && " (take 3 (line ∷ lines)))
    else none

unfoldable pub shell_command_from_content : Option String → Option String
unfolding trim fenced_text unix_lines split_lines command_of_lines
shell_command_from_content value =
    let text = trim (or_empty value) in
    let fenced = fenced_text text in
    let candidate = unix_lines (elim fenced [ some t ↦ t | none ↦ text ]) in
    if is_empty text
    then none
    else command_of_lines (is_some fenced)
        (filter is_command_line (map trim (split_lines candidate)))

-- `text.length <= max ? text : `${text.slice(0, Math.max(0, max - 3))}...``
unfoldable pub cut : String → ℕ → String
unfolding Units.length Units.take
cut text max = if leb (Units.length text) max then text else Units.take (max - 3) text <> "..."

unfoldable pub compact_text : String → ℕ → String
unfolding squash trim cut
compact_text value max = cut (trim (squash is_space value)) max

abbrev pub max_output_tail_lines : ℕ
max_output_tail_lines = 6

abbrev pub max_output_tail_length : ℕ
max_output_tail_length = 520

-- The lines of which `compactMultilineTail` keeps the last ones.
unfoldable pub output_lines : String → List String
unfolding unix_lines trim split_lines
output_lines value = nonempty (split_lines (trim (unix_lines value)))

unfoldable pub compact_multiline_tail : String → String
unfolding output_lines join cut
compact_multiline_tail value =
    cut (join "\n" (take_last max_output_tail_lines (output_lines value))) max_output_tail_length
