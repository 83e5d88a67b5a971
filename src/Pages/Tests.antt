-- ===== src/Pages/Tests.antt =====
-- The functions that the pages share, at concrete inputs.
use acp_webui.Common.{String, Option, none, some, List, [], ◌∷◌, ◌++◌, ◌≡◌, refl}
use acp_webui.Common.Text.Words.{words}
use acp_webui.Samples.{sample_detail}
use acp_webui.Types.{Elements, Fields, ConnectionStatus, Json, MessageContentBlock, SessionDetail}
use acp_webui.Pages.Config.{session_config_disabled_reason}
use acp_webui.Pages.Labels.{
  humanize_status, permission_mode_class, permission_mode_label, session_status_label,
}
use acp_webui.Pages.Messages.{message_blocks, renderable_message_blocks}
use acp_webui.Pages.Payload.{image_preview_from_payload, payload_text, tool_summary}
use acp_webui.Pages.Prompt.{default_prompt_template_title, insert_prompt_template_body}
use acp_webui.Pages.Laws.{words-insert_prompt_template_body}
use acp_webui.Pages.Spread.{IsApart, renderable_message_blocks-IsApart, spread}

working : session_status_label "RUNNING" ≡ "Working"
unfolding session_status_label
working = refl

humanized : humanize_status "__needs_your--input " ≡ "Needs your input"
unfolding humanize_status
humanized = refl

mode_class : permission_mode_class "full_auto" ≡ "permission-mode-full-auto"
unfolding permission_mode_class
mode_class = refl

mode_label : permission_mode_label "yolo" [] ≡ "YOLO"
unfolding permission_mode_label
mode_label = refl

inserted : insert_prompt_template_body "fix it \n" " then test " ≡ "fix it\n\nthen test"
unfolding insert_prompt_template_body
inserted = refl

titled : default_prompt_template_title "\r\n  Review \r\nthe rest" ≡ "Review"
unfolding default_prompt_template_title
titled = refl

diff_first :
    payload_text
      (λ v. "{}")
      (Json.object
        (Fields.field "text" (Json.text "t") (Fields.field "diff" (Json.text "+1") Fields.end)))
    ≡ "+1"
unfolding payload_text
diff_first = refl

abbrev text_part : String → Json
text_part s = Json.object (Fields.field "text" (Json.text s) Fields.end)

joined :
    tool_summary
      (λ v. "{}")
      (Json.object (
        Fields.field "content"
          (Json.array (
            Elements.cons
              (text_part "one")
              (Elements.cons Json.null (Elements.cons (text_part "two") Elements.nil))))
          Fields.end))
    ≡ "one\ntwo"
unfolding tool_summary
joined = refl

no_image : image_preview_from_payload (some (Json.text "image/png")) "Image" ≡ none
unfolding image_preview_from_payload
no_image = refl

abbrev streamed : Option (List MessageContentBlock)
streamed = some (
    MessageContentBlock.text "Look "
    ∷ MessageContentBlock.text "here"
    ∷ MessageContentBlock.image "image/png" "aGk=" none none
    ∷ MessageContentBlock.text "!"
    ∷ [])

merged :
    renderable_message_blocks "" streamed
    ≡ MessageContentBlock.text "Look here"
      ∷ MessageContentBlock.image "image/png" "aGk=" none none
      ∷ MessageContentBlock.text "!"
      ∷ []
unfolding renderable_message_blocks
merged = refl

renderable_message_blocks-IsApart_example :
    (spread (renderable_message_blocks "" streamed) ≡ spread (message_blocks "" streamed))
    × IsApart (renderable_message_blocks "" streamed)
renderable_message_blocks-IsApart_example = renderable_message_blocks-IsApart "" streamed

words-insert_prompt_template_body_example :
    words (insert_prompt_template_body "fix it \n" " then test ")
    ≡ words "fix it \n" ++ words " then test "
words-insert_prompt_template_body_example =
    words-insert_prompt_template_body "fix it \n" " then test "

abbrev starting : Option ConnectionStatus
starting = some (record {
  state = "starting";
  message = none;
  agent_info = none;
  session_capabilities = none;
  prompt_capabilities = none;
})

abbrev idle_detail : SessionDetail
idle_detail = record sample_detail {
  session = record sample_detail.session { status = "idle" };
  pending_permission = none;
}

refused : session_config_disabled_reason idle_detail starting ≡ some "Codex is starting."
unfolding session_config_disabled_reason
refused = refl
