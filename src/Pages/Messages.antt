-- ===== src/Pages/Messages.antt =====
-- frontend/src/app/timeline.ts and `renderableMessageBlocks` of
-- frontend/src/features/sessions/sessionPaneHelpers.ts: messages as items, and as blocks.
use acp_webui.Common.{String, Option, none, some, List, [], ◌∷◌, if◌then◌else◌, is_empty, ◌<>◌}
use acp_webui.Common.Host.{Clock}
use acp_webui.Types.{ChatMessage, MessageContentBlock, MessageItem}

unfoldable pub live_message : Clock → (session_id content : String) → ChatMessage
live_message clock session_id content = record {
  id = "live-assistant";
  session_id = session_id;
  role = "assistant";
  content = content;
  content_blocks = none;
  status = "running";
  created_at = clock.iso;
}

unfoldable pub timeline_message : MessageItem → ChatMessage
timeline_message item = record {
  id = item.id;
  session_id = item.session_id;
  role = item.role;
  content = item.content;
  content_blocks = item.content_blocks;
  status = item.status;
  created_at = item.timestamp;
}

-- The blocks of a message; `[]` where it has none.
unfoldable pub message_blocks :
    String → Option (List MessageContentBlock) → List MessageContentBlock
message_blocks content (some (block ∷ blocks)) = block ∷ blocks
message_blocks content (some []) =
    if is_empty content then [] else MessageContentBlock.text content ∷ []
message_blocks content none = if is_empty content then [] else MessageContentBlock.text content ∷ []

-- One step of the `reduce`: a text is added to the text that is last.
unfoldable pub merge_block :
    List MessageContentBlock → MessageContentBlock → List MessageContentBlock
merge_block [] block = block ∷ []
merge_block (MessageContentBlock.text s ∷ []) (MessageContentBlock.text t) =
    MessageContentBlock.text (s <> t) ∷ []
merge_block (MessageContentBlock.text s ∷ [])
      (MessageContentBlock.image mime_type image_data uri name) =
    MessageContentBlock.text s ∷ MessageContentBlock.image mime_type image_data uri name ∷ []
merge_block (MessageContentBlock.image mime_type image_data uri name ∷ []) block =
    MessageContentBlock.image mime_type image_data uri name ∷ block ∷ []
merge_block (first ∷ second ∷ merged) block = first ∷ merge_block (second ∷ merged) block

unfoldable pub merge_blocks :
    List MessageContentBlock → List MessageContentBlock → List MessageContentBlock
unfolding merge_block
merge_blocks [] merged = merged
merge_blocks (block ∷ blocks) merged = merge_blocks blocks (merge_block merged block)

unfoldable pub renderable_message_blocks :
    String → Option (List MessageContentBlock) → List MessageContentBlock
unfolding message_blocks merge_blocks
renderable_message_blocks content content_blocks =
    merge_blocks (message_blocks content content_blocks) []
