-- ===== src/Pages/Prompt.antt =====
-- frontend/src/features/sessions/sessionPaneHelpers.ts: the prompt of a session and its status.
use acp_webui.Common.{
  String, ℕ, ◌-◌, ◌/◌, ◌%◌, Bool, true, false, not, ◌&&◌, Option, none, some, find, map,
  if◌then◌else◌, is_empty, ltb, or_else, truthy, ◌==◌, ◌<>◌,
}
use acp_webui.Common.Host.{Host}
use acp_webui.Common.Text.{trim, trim_end}
use acp_webui.Common.Text.Number.{decimal}
use acp_webui.Common.Text.Split.{split_lines, unix_lines}
use acp_webui.Common.Text.Units
use acp_webui.Types.{ConnectionStatus}

-- `seconds.toString().padStart(2, "0")`
abbrev two_digits : ℕ → String
unfolding decimal
two_digits n = if ltb n 10 then "0" <> decimal n else decimal n

-- The second argument is `now`. A date that cannot be read gives NaN.
unfoldable pub format_active_turn_elapsed : Host → ℕ → String → String
unfolding two_digits decimal
format_active_turn_elapsed h now started_at = elim (h.parse_date started_at) [
  | none ↦ "NaNs"
  | some started ↦
      let total_seconds = (now - started) / 1000 in
      let minutes = total_seconds / 60 in
      let seconds = total_seconds % 60 in
      if ltb 0 minutes
      then decimal minutes <> "m " <> two_digits seconds <> "s"
      else decimal seconds <> "s"
]

unfoldable pub insert_prompt_template_body : String → String → String
unfolding trim trim_end
insert_prompt_template_body current body =
    let template_body = trim body in
    if is_empty template_body
    then current
    else if is_empty (trim current)
    then template_body
    else trim_end current <> "\n\n" <> template_body

-- What a title takes of the first line that is not blank.
unfoldable pub shortened_title : Option String → String
unfolding Units.length Units.take
shortened_title none = "Untitled prompt"
shortened_title (some line) =
    if ltb 60 (Units.length line) then Units.take 57 line <> "..." else line

unfoldable pub default_prompt_template_title : String → String
unfolding trim split_lines unix_lines shortened_title
default_prompt_template_title body =
    shortened_title (find (λ line. not (is_empty line)) (map trim (split_lines (unix_lines body))))

abbrev has_image : Option ConnectionStatus → Bool
has_image none = false
has_image (some connection) = elim connection.prompt_capabilities [
  | none ↦ false
  | some capabilities ↦ capabilities.image
]

unfoldable pub prompt_composer_image_supported :
    Option ConnectionStatus → (continuable : Bool) → Option ConnectionStatus → Bool
prompt_composer_image_supported agent_connection continuable fallback_connection =
    if has_image agent_connection then true else continuable && has_image fallback_connection

pub record ComposerStatus : Type 0 where
  pub agent_connection : Option ConnectionStatus
  pub agent_name : String
  pub continuity_reason : Option String
  pub elapsed_label : Option String
  pub running : Bool
  pub stopping_turn : Bool
  pub waiting_approval : Bool

abbrev elapsed : String → Option String → String
elapsed before label = if truthy label then before <> or_else label "" else "..."

abbrev connection_status : String → Option ConnectionStatus → Option String
connection_status name none = none
connection_status name (some connection) =
    if not (connection.state == "ready") && not (connection.state == "idle")
    then some (or_else connection.message (name <> " is " <> connection.state))
    else none

unfoldable pub prompt_composer_status : ComposerStatus → Option String
prompt_composer_status s =
    if truthy s.continuity_reason
    then s.continuity_reason
    else if s.waiting_approval
    then some "Waiting for approval"
    else if s.stopping_turn
    then some ("Stopping " <> s.agent_name <> elapsed " after " s.elapsed_label)
    else if s.running
    then some (s.agent_name <> " is working" <> elapsed " for " s.elapsed_label)
    else connection_status s.agent_name s.agent_connection
