-- ===== src/Blocks/Ids.antt =====
-- frontend/src/app/timelineBlocks.ts: the ids of tool calls and artifacts that decide what is folded.
use acp_webui.Common.{String, List, [], ◌∷◌, if◌then◌else◌, ◌==◌}
use acp_webui.Common.Sets.{add, add_all}
use acp_webui.Types.{ReviewArtifactSummary, TimelineItem}
use acp_webui.Blocks.Context.{has_id?, id_text}

-- `visibleToolCallIds`
unfoldable pub visible_tool_call_ids : List TimelineItem → List String → List String
unfolding add_all
visible_tool_call_ids [] set = set
visible_tool_call_ids (TimelineItem.tool_call item ∷ timeline) set =
    visible_tool_call_ids timeline (add_all (id_text item.tool_call_id) set)
visible_tool_call_ids (TimelineItem.message item ∷ timeline) set =
    visible_tool_call_ids timeline set
visible_tool_call_ids (TimelineItem.permission item ∷ timeline) set =
    visible_tool_call_ids timeline set
visible_tool_call_ids (TimelineItem.review_artifact item ∷ timeline) set =
    visible_tool_call_ids timeline set

-- `foldedArtifactIds`, by the items of the timeline and then by the artifacts
unfoldable pub folded_by_items : List TimelineItem → List String → List String
unfolding add_all
folded_by_items [] set = set
folded_by_items (TimelineItem.tool_call item ∷ timeline) set =
    folded_by_items timeline (add_all item.review_artifact_ids set)
folded_by_items (TimelineItem.message item ∷ timeline) set = folded_by_items timeline set
folded_by_items (TimelineItem.permission item ∷ timeline) set = folded_by_items timeline set
folded_by_items (TimelineItem.review_artifact item ∷ timeline) set = folded_by_items timeline set

unfoldable pub folded_by_artifacts :
    List String → List ReviewArtifactSummary → List String → List String
unfolding add
folded_by_artifacts visible [] set = set
folded_by_artifacts visible (artifact ∷ artifacts) set =
    folded_by_artifacts visible artifacts
      (if has_id? artifact.tool_call_id visible then add artifact.id set else set)

-- `imageToolCallIds`, by the artifacts and then by the items
unfoldable pub image_ids_of_artifacts : List ReviewArtifactSummary → List String → List String
unfolding add_all
image_ids_of_artifacts [] set = set
image_ids_of_artifacts (artifact ∷ artifacts) set =
    image_ids_of_artifacts artifacts
      (if artifact.kind == "image" then add_all (id_text artifact.tool_call_id) set else set)

unfoldable pub image_ids_of_items : List TimelineItem → List String → List String
unfolding add_all
image_ids_of_items [] set = set
image_ids_of_items (TimelineItem.review_artifact item ∷ timeline) set =
    image_ids_of_items timeline
      (if item.artifact_kind == "image" then add_all (id_text item.tool_call_id) set else set)
image_ids_of_items (TimelineItem.message item ∷ timeline) set = image_ids_of_items timeline set
image_ids_of_items (TimelineItem.tool_call item ∷ timeline) set = image_ids_of_items timeline set
image_ids_of_items (TimelineItem.permission item ∷ timeline) set = image_ids_of_items timeline set

unfoldable pub image_tool_call_ids : List TimelineItem → List ReviewArtifactSummary → List String
unfolding image_ids_of_items image_ids_of_artifacts
image_tool_call_ids timeline review_artifacts =
    image_ids_of_items timeline (image_ids_of_artifacts review_artifacts [])
