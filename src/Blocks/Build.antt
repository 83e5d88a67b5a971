-- ===== src/Blocks/Build.antt =====
-- frontend/src/app/timelineBlocks.ts: `buildTimelineBlocks`, the loop over the timeline.
use acp_webui.Common.{String, Bool, true, false, ◌&&◌, List, [], ◌∷◌, ◌++◌, if◌then◌else◌, ◌==◌}
use acp_webui.Common.Text.{to_lower_case}
use acp_webui.Types.{ReviewArtifactSummary, TimelineItem, ToolCallItem}
use acp_webui.Tools.Call.{tool_call_display}
use acp_webui.Blocks.Context.{
  PermissionMap, has_id?, permission_map, should_fold_permission, should_fold_permission_tool_call,
  should_fold_review_artifact, tool_call_with_permission_context, with_linked_artifact_ids,
}
use acp_webui.Blocks.Ids.{
  folded_by_artifacts, folded_by_items, image_tool_call_ids, visible_tool_call_ids,
}
use acp_webui.Blocks.Groups.{TimelineDisplayBlock, TimelineToolGroupEntry, tool_group_block}

-- What the loop reads and does not change.
pub record Context : Type 0 where
  pub review_artifacts : List ReviewArtifactSummary
  pub permissions_by_tool_call_id : PermissionMap
  pub visible_tool_call_ids : List String
  pub folded_artifact_ids : List String
  pub image_artifact_tool_call_ids : List String

unfoldable pub context_of : List TimelineItem → List ReviewArtifactSummary → Context
unfolding permission_map visible_tool_call_ids folded_by_items folded_by_artifacts
    image_tool_call_ids
context_of timeline review_artifacts =
    let visible = visible_tool_call_ids timeline [] in
    record {
      review_artifacts = review_artifacts;
      permissions_by_tool_call_id = permission_map timeline;
      visible_tool_call_ids = visible;
      folded_artifact_ids =
          folded_by_artifacts visible review_artifacts (folded_by_items timeline []);
      image_artifact_tool_call_ids = image_tool_call_ids timeline review_artifacts;
    }

-- `blocks` and `pendingTools`
pub record Progress : Type 0 where
  pub blocks : List TimelineDisplayBlock
  pub pending_tools : List TimelineToolGroupEntry

unfoldable pub flush : List TimelineDisplayBlock → List TimelineToolGroupEntry → Progress
unfolding tool_group_block
flush blocks [] = record { blocks = blocks; pending_tools = [] }
flush blocks (entry ∷ entries) = record {
  blocks = blocks ++ tool_group_block (entry ∷ entries) ∷ [];
  pending_tools = [];
}

unfoldable pub flush_tools : Progress → Progress
unfolding flush
flush_tools p = flush p.blocks p.pending_tools

unfoldable pub push : TimelineDisplayBlock → Progress → Progress
push block p = record p { blocks = p.blocks ++ block ∷ [] }

abbrev pub is_nil {ℓ} : {A : Type ℓ} → List A → Bool
is_nil [] = true
is_nil (x ∷ xs) = false

unfoldable pub entry_of : Context → ToolCallItem → TimelineToolGroupEntry
unfolding with_linked_artifact_ids tool_call_display
entry_of c tool_item =
    let linked = with_linked_artifact_ids tool_item c.review_artifacts in
    record { item = linked; display = tool_call_display linked c.review_artifacts }

-- The end of the case `tool_call`, by whether the tool runs and whether it failed.
unfoldable pub place : (running failed : Bool) → TimelineToolGroupEntry → Progress → Progress
unfolding flush_tools push tool_group_block
place true failed entry p = push (tool_group_block (entry ∷ [])) (flush_tools p)
place false failed entry p =
    if failed && is_nil p.pending_tools
    then push (tool_group_block (entry ∷ [])) p
    else record p { pending_tools = p.pending_tools ++ entry ∷ [] }

unfoldable pub place_entry : TimelineToolGroupEntry → Progress → Progress
unfolding place to_lower_case
place_entry entry p =
    let status = to_lower_case entry.item.status in
    place (status == "running") (status == "failed") entry p

unfoldable pub show_item : Context → TimelineItem → Progress → Progress
unfolding flush_tools push tool_call_with_permission_context should_fold_permission_tool_call
    should_fold_review_artifact place_entry entry_of
show_item c (TimelineItem.message item) p = push (TimelineDisplayBlock.message item) (flush_tools p)
show_item c (TimelineItem.tool_call item) p =
    let tool_item = tool_call_with_permission_context item c.permissions_by_tool_call_id in
    if has_id? item.tool_call_id c.image_artifact_tool_call_ids
    then flush_tools p
    else if should_fold_permission_tool_call tool_item c.permissions_by_tool_call_id
    then p
    else place_entry (entry_of c tool_item) p
show_item c (TimelineItem.review_artifact item) p =
    if should_fold_review_artifact item c.visible_tool_call_ids c.folded_artifact_ids
    then p
    else push (TimelineDisplayBlock.review_artifact item) (flush_tools p)
show_item c (TimelineItem.permission item) p =
    if should_fold_permission item
    then p
    else push (TimelineDisplayBlock.permission item) (flush_tools p)

unfoldable pub show_items : Context → List TimelineItem → Progress → Progress
unfolding show_item
show_items c [] p = p
show_items c (item ∷ timeline) p = show_items c timeline (show_item c item p)

unfoldable pub build_timeline_blocks :
    List TimelineItem → List ReviewArtifactSummary → List TimelineDisplayBlock
unfolding context_of show_items flush_tools
build_timeline_blocks timeline review_artifacts =
    (flush_tools (
      show_items (context_of timeline review_artifacts) timeline
        (record { blocks = []; pending_tools = [] }))).blocks
