-- ===== src/Realtime/Timeline.antt =====
-- realtime.ts: review artifacts and timeline items of the open session.
pub mod Laws
use acp_webui.Common.{
  some, List, [], ◌∷◌, ◌++◌, String, ◌==◌, ◌<>◌, Bool, false, not, ◌&&◌, is_empty, is_gt, includes,
  if◌then◌else◌,
}
use acp_webui.Common.Host.{Host, Clock, date_order}
use acp_webui.Common.Sort.{sort}
use acp_webui.Common.Keyed.{upsert}
use acp_webui.Types.{
  ReviewArtifactSummary, TimelineItem, item_id, item_kind, item_session_id, item_timestamp,
}
use acp_webui.Realtime.Snapshot.{AppSnapshot, on_current, assistant_message}

-- `${item.kind}-${item.id}`
abbrev pub timeline_key : TimelineItem → String
timeline_key item = item_kind item <> "-" <> item_id item

unfoldable pub timeline_after : Host → TimelineItem → TimelineItem → Bool
unfolding date_order
timeline_after h left right = is_gt (date_order h (item_timestamp left) (item_timestamp right))

unfoldable pub upsert_timeline_item : Host → List TimelineItem → TimelineItem → List TimelineItem
unfolding timeline_after upsert sort
upsert_timeline_item h items item = sort (timeline_after h) (upsert timeline_key item items)

unfoldable pub should_clear_live_assistant_for_timeline_item : String → TimelineItem → Bool
should_clear_live_assistant_for_timeline_item live (TimelineItem.message m) =
    not (is_empty live) && (m.role == "assistant" && includes m.content live)
should_clear_live_assistant_for_timeline_item live _ = false

unfoldable pub apply_timeline_item_upsert : Host → AppSnapshot → TimelineItem → AppSnapshot
apply_timeline_item_upsert h state item = on_current state (item_session_id item) λ d.
    record state {
      current_session = some (record d { timeline = upsert_timeline_item h d.timeline item });
      live_assistant =
          if should_clear_live_assistant_for_timeline_item state.live_assistant item
          then ""
          else state.live_assistant;
    }

unfoldable pub artifact_timeline_item : ReviewArtifactSummary → TimelineItem
artifact_timeline_item a = TimelineItem.review_artifact (record {
  id = a.id;
  session_id = a.session_id;
  timestamp = a.created_at;
  status = "idle";
  tool_call_id = a.tool_call_id;
  artifact_kind = a.kind;
  title = a.title;
  summary = a.summary;
  source = a.source;
})

unfoldable pub apply_review_artifact :
    Host → Clock → AppSnapshot → ReviewArtifactSummary → AppSnapshot
unfolding artifact_timeline_item
apply_review_artifact h c state artifact = on_current state artifact.session_id λ d. record state {
  current_session = some (record d {
    messages =
        if is_empty state.live_assistant
        then d.messages
        else d.messages ++ assistant_message c d.session.id state.live_assistant ∷ [];
    review_artifacts = upsert (λ a. a.id) artifact d.review_artifacts;
    timeline = upsert_timeline_item h d.timeline (artifact_timeline_item artifact);
  });
  live_assistant = "";
}
