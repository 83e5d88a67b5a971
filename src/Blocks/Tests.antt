-- ===== src/Blocks/Tests.antt =====
-- Blocks of a timeline at concrete inputs.
use acp_webui.Common.{String, ◌||◌, some, List, [], ◌∷◌, ◌≡◌, refl, map, filter, flat_map, All}
use acp_webui.Common.Sets.{has}
use acp_webui.Samples.{artifact_named, message_at, tool_named}
use acp_webui.Types.{
  Fields, Json, PermissionItem, ReviewArtifactSummary, TimelineItem, ToolCallItem,
}
use acp_webui.Blocks.Context.{with_linked_artifact_ids}
use acp_webui.Blocks.Groups.{TimelineDisplayBlock, TimelineToolGroupEntry}
use acp_webui.Blocks.Build.{build_timeline_blocks, context_of, entry_of}
use acp_webui.Blocks.Shown.{block_items, build_timeline_blocks-items, is_shown, kind_and_id}
use acp_webui.Blocks.Status.{IsGrouped, build_timeline_blocks-IsGrouped}
use acp_webui.Blocks.Laws.{has-with_linked_artifact_ids, is_linked}

abbrev run_of : String → String → ToolCallItem
run_of id command = record (tool_named id id "completed") {
  title = "Run command";
  input = Json.object (Fields.field "command" (Json.text command) Fields.end);
}

abbrev asked : PermissionItem
asked = record {
  id = "p1";
  session_id = "s1";
  timestamp = "c";
  status = "resolved";
  tool_call_id = some "t1";
  title = "npm test";
  permission_kind = "execute";
}

abbrev sample_timeline : List TimelineItem
sample_timeline =
    TimelineItem.tool_call (run_of "t1" "a")
    ∷ TimelineItem.permission asked
    ∷ TimelineItem.tool_call (run_of "t2" "b")
    ∷ message_at "m1" "d" "done"
    ∷ TimelineItem.tool_call (record (run_of "t3" "c") { status = "failed" })
    ∷ []

abbrev summary_of : TimelineDisplayBlock → List (String × String)
summary_of (TimelineDisplayBlock.tool_group group) = (group.summary, group.status) ∷ []
summary_of (TimelineDisplayBlock.message item) = []
summary_of (TimelineDisplayBlock.permission item) = []
summary_of (TimelineDisplayBlock.review_artifact item) = []

summaries :
    flat_map summary_of (build_timeline_blocks sample_timeline [])
    ≡ ("Ran 2 commands", "completed") ∷ ("Ran c", "failed") ∷ []
unfolding build_timeline_blocks
summaries = refl

abbrev linked : ReviewArtifactSummary
linked = record (artifact_named "a9") { tool_call_id = some "t1" }

-- An id that is listed twice hides an artifact that is linked.
twice_listed :
    (with_linked_artifact_ids
      (record (run_of "t1" "a") { review_artifact_ids = "a1" ∷ "a1" ∷ [] })
      (linked ∷ [])).review_artifact_ids
    ≡ "a1" ∷ "a1" ∷ []
unfolding with_linked_artifact_ids
twice_listed = refl

build_timeline_blocks-items_example :
    flat_map block_items (build_timeline_blocks sample_timeline (linked ∷ []))
    ≡ map kind_and_id (filter (is_shown (context_of sample_timeline (linked ∷ []))) sample_timeline)
build_timeline_blocks-items_example = build_timeline_blocks-items sample_timeline (linked ∷ [])

build_timeline_blocks-IsGrouped_example :
    All IsGrouped (build_timeline_blocks sample_timeline (linked ∷ []))
build_timeline_blocks-IsGrouped_example =
    build_timeline_blocks-IsGrouped sample_timeline (linked ∷ [])

has-with_linked_artifact_ids_example :
    has "a9" (with_linked_artifact_ids (run_of "t1" "a") (linked ∷ [])).review_artifact_ids
    ≡ (has "a9" (run_of "t1" "a").review_artifact_ids || is_linked "a9" "t1" (linked ∷ []))
has-with_linked_artifact_ids_example =
    has-with_linked_artifact_ids "a9" "t1" (run_of "t1" "a") (linked ∷ []) tt refl refl

abbrev entries : List TimelineToolGroupEntry
entries = map (entry_of (context_of sample_timeline [])) (run_of "t1" "a" ∷ run_of "t2" "b" ∷ [])
