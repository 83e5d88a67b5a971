-- ===== src/Composer/Draft.antt =====
-- The draft of a prompt and its images in `PromptComposer` of
-- frontend/src/features/sessions/SessionPane.tsx.
use acp_webui.Common.{
  String, ℕ, Bool, false, not, ◌&&◌, ◌||◌, Option, none, some, List, [], ◌∷◌, ◌++◌, filter, map,
  length, if◌then◌else◌, is_empty, ltb, truthy, ◌==◌, ◌<>◌,
}
use acp_webui.Common.Text.{trim}
use acp_webui.App.Busy.{Outcome}
use acp_webui.Composer.Files.{File, ImageAttachment, Read, read_image_attachment}
use acp_webui.Composer.Recording.{stop_voice_recording}
use acp_webui.Composer.State.{Call, Composer, Submitted, is_recording}
use acp_webui.Pages.Prompt.{insert_prompt_template_body}
use acp_webui.Types.{MessageContentBlock}

unfoldable pub update_prompt_draft : String → Composer → Composer
update_prompt_draft value c = record c {
  prompt = value;
  voice_error = if truthy c.voice_error then none else c.voice_error;
}

abbrev pub image_block : ImageAttachment → MessageContentBlock
image_block attachment =
    MessageContentBlock.image attachment.mime_type attachment.image_data attachment.uri
      (some attachment.name)

abbrev pub unsupported : Composer → Option String
unsupported c = some (c.props.agent_name <> " does not support image attachments.")

-- `submitPrompt` until it waits for the response.
unfoldable pub submit_prompt : Composer → Composer
unfolding trim
submit_prompt c =
    if is_empty (trim c.prompt) && not (ltb 0 (length c.attachments))
      || c.props.disabled
      || c.props.busy
    then c
    else if ltb 0 (length c.attachments) && not c.props.image_prompt_supported
    then record c { attachment_error = unsupported c }
    else record c {
      prompt = "";
      attachments = [];
      preview_attachment_id = none;
      submitted =
          record {
            prompt = c.prompt;
            attachments = c.attachments;
            voice_recording = is_recording c.voice_state;
          }
          ∷ c.submitted;
      calls = Call.send_prompt (trim c.prompt) (map image_block c.attachments) ∷ c.calls;
    }

-- The rest of `submitPrompt`, where the prompt is sent.
unfoldable pub prompt_sent : Submitted → Composer → Composer
unfolding stop_voice_recording
prompt_sent s c = record (if s.voice_recording then stop_voice_recording false c else c) {
  attachment_error = none;
}

-- The `catch` of `submitPrompt`.
unfoldable pub prompt_not_sent : Submitted → Composer → Composer
prompt_not_sent s c = record c { prompt = s.prompt; attachments = s.attachments }

-- What follows `await onSendPrompt(...)`.
unfoldable pub prompt_settled : Outcome → Submitted → Composer → Composer
unfolding prompt_sent prompt_not_sent
prompt_settled Outcome.resolved s c = prompt_sent s c
prompt_settled (Outcome.rejected thrown) s c = prompt_not_sent s c

-- The submission of a number, the first being 0.
unfoldable pub submission : ℕ → List Submitted → Option Submitted
submission n [] = none
submission n (s ∷ earlier) =
    let found = submission n earlier in
    if ltb n (length earlier) then found else if ltb (length earlier) n then none else some s

abbrev pub answer : (Submitted → Composer → Composer) → Option Submitted → Composer → Composer
answer handle none c = c
answer handle (some s) c = handle s c

-- `Promise.all(files.map(readImageAttachment))`: all the attachments, or what rejects it, which is the
-- first rejection before a file is read, if there is one.
pub data ReadAll : Type 0 where
  all_loaded : List ImageAttachment → ReadAll
  one_rejected : (message : String) → ReadAll

abbrev pub read_failed : String
read_failed = "Failed to read image attachment."

abbrev pub join_read : Read → ReadAll → ReadAll
join_read (Read.loaded attachment) (ReadAll.all_loaded attachments) =
    ReadAll.all_loaded (attachment ∷ attachments)
join_read (Read.loaded attachment) (ReadAll.one_rejected message) = ReadAll.one_rejected message
join_read (Read.rejected message) (ReadAll.all_loaded attachments) = ReadAll.one_rejected message
join_read (Read.rejected message) (ReadAll.one_rejected later) =
    ReadAll.one_rejected (if message == read_failed then later else message)

unfoldable pub read_all : List File → ReadAll
unfolding read_image_attachment
read_all [] = ReadAll.all_loaded []
read_all (file ∷ files) = join_read (read_image_attachment file) (read_all files)

unfoldable pub add_read : ReadAll → Composer → Composer
add_read (ReadAll.all_loaded next) c = record c {
  attachments = c.attachments ++ next;
  attachment_error = none;
}
add_read (ReadAll.one_rejected message) c = record c { attachment_error = some message }

-- `addImageFiles`, as it ends.
unfoldable pub add_image_files : List File → Composer → Composer
unfolding read_all add_read
add_image_files [] c = c
add_image_files (file ∷ files) c =
    if not c.props.image_prompt_supported
    then record c { attachment_error = unsupported c }
    else add_read (read_all (file ∷ files)) c

abbrev is_previewed : String → Option String → Bool
is_previewed id none = false
is_previewed id (some shown) = shown == id

-- `onPress` of the button that removes an attachment
unfoldable pub remove_attachment : String → Composer → Composer
remove_attachment id c = record c {
  attachments = filter (λ item. not (item.id == id)) c.attachments;
  preview_attachment_id =
      if is_previewed id c.preview_attachment_id then none else c.preview_attachment_id;
}

-- The draft's part of `applyPromptTemplate`.
unfoldable pub apply_prompt_template : (body : String) → Composer → Composer
unfolding insert_prompt_template_body
apply_prompt_template body c =
    if c.props.disabled then c else record c { prompt = insert_prompt_template_body c.prompt body }
