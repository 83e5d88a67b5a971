-- ===== src/Blocks/Status.antt =====
-- About frontend/src/app/timelineBlocks.ts: how tool calls are grouped.
use acp_webui.Common.{
  String, ◌≤◌, Bool, true, false, ◌&&◌, List, [], ◌∷◌, ◌++◌, filter, if◌then◌else◌, ◌≡◌, refl,
  arith, any, length, ltb, All, All-append, Bool-cases, inl, inr, ◌⊎◌,
}
use acp_webui.Types.{ReviewArtifactSummary, TimelineItem}
use acp_webui.Blocks.Context.{
  has_id?, should_fold_permission, should_fold_permission_tool_call, should_fold_review_artifact,
  tool_call_with_permission_context,
}
use acp_webui.Blocks.Groups.{
  TimelineDisplayBlock, TimelineToolGroupEntry, has_status, tool_group_block,
}
use acp_webui.Blocks.Build.{
  Context, Progress, build_timeline_blocks, context_of, entry_of, flush, flush_tools, is_nil, place,
  place_entry, push, show_item, show_items,
}

-- Whether no tool of a list runs.
abbrev pub AllDone : List TimelineToolGroupEntry → Type 0
AllDone entries = All (λ entry. has_status "running" entry ≡ false) entries

-- Whether the first of a list of tools has not failed.
abbrev pub StartsWell : List TimelineToolGroupEntry → Type 0
StartsWell [] = Unit
StartsWell (entry ∷ entries) = has_status "failed" entry ≡ false

abbrev pub expected_status : List TimelineToolGroupEntry → String
expected_status entries =
    if any (has_status "failed") entries
    then "failed"
    else if any (has_status "running") entries
    then "running"
    else "completed"

-- A group as a page may show it: one tool, or several of which none runs and the first has not failed;
-- its status is "failed" if one of them failed.
abbrev pub IsGrouped : TimelineDisplayBlock → Type 0
IsGrouped (TimelineDisplayBlock.message item) = Unit
IsGrouped (TimelineDisplayBlock.permission item) = Unit
IsGrouped (TimelineDisplayBlock.review_artifact item) = Unit
IsGrouped (TimelineDisplayBlock.tool_group group) =
    ((length group.entries ≡ 1)
      ⊎ ((2 ≤ length group.entries) × AllDone group.entries × StartsWell group.entries))
    × (group.status ≡ expected_status group.entries)
    × (group.failure_count ≡ length (filter (has_status "failed") group.entries))

any_of_count :
    (p : TimelineToolGroupEntry → Bool) (entries : List TimelineToolGroupEntry)
    → ltb 0 (length (filter p entries)) ≡ any p entries
any_of_count p [] = refl
any_of_count p (entry ∷ entries) = elim (Bool-cases (p entry)) [
  | inl counted ↦ rw counted (ground arith)
  | inr other ↦ rw other (any_of_count p entries)
]

-- A group has the status that its entries give.
group-status :
    (entries : List TimelineToolGroupEntry)
    → ((length entries ≡ 1) ⊎ ((2 ≤ length entries) × AllDone entries × StartsWell entries))
    → IsGrouped (tool_group_block entries)
unfolding tool_group_block
group-status entries h = (
  h,
  rw (any_of_count (has_status "failed") entries, any_of_count (has_status "running") entries) refl,
  refl,
)

-- What holds of the loop's variables: the blocks are grouped, no tool that waits runs, and the first
-- of them has not failed.
abbrev IsTidy : Progress → Type 0
IsTidy p = All IsGrouped p.blocks × AllDone p.pending_tools × StartsWell p.pending_tools

flush-IsTidy :
    (blocks : List TimelineDisplayBlock) (entries : List TimelineToolGroupEntry)
    → All IsGrouped blocks
    → AllDone entries
    → StartsWell entries
    → IsTidy (flush blocks entries)
unfolding flush
flush-IsTidy blocks [] grouped done well = (grouped, tt, tt)
flush-IsTidy blocks (entry ∷ []) grouped done well =
    (All-append IsGrouped blocks _ grouped (group-status (entry ∷ []) (inl refl), tt), tt, tt)
flush-IsTidy blocks (entry ∷ second ∷ entries) grouped done well = (
  All-append IsGrouped blocks _ grouped
      (group-status (entry ∷ second ∷ entries) (inr (omega arith, done, well)), tt),
  tt,
  tt,
)

flush_tools-IsTidy : (p : Progress) → IsTidy p → IsTidy (flush_tools p)
unfolding flush_tools
flush_tools-IsTidy p (grouped, done, well) = flush-IsTidy p.blocks p.pending_tools grouped done well

push-IsTidy :
    (block : TimelineDisplayBlock) (p : Progress)
    → IsGrouped block
    → IsTidy p
    → IsTidy (push block p)
unfolding push
push-IsTidy block p b (grouped, done, well) =
    (All-append IsGrouped p.blocks (block ∷ []) grouped (b, tt), done, well)

StartsWell-append :
    (entries : List TimelineToolGroupEntry) (entry : TimelineToolGroupEntry)
    → StartsWell entries
    → (has_status "failed" entry && is_nil entries) ≡ false
    → StartsWell (entries ++ entry ∷ [])
StartsWell-append [] entry well h = ground arith
StartsWell-append (first ∷ entries) entry well h = well

place-IsTidy :
    (running failed : Bool) (entry : TimelineToolGroupEntry) (p : Progress)
    → has_status "running" entry ≡ running
    → has_status "failed" entry ≡ failed
    → IsTidy p
    → IsTidy (place running failed entry p)
unfolding place
place-IsTidy true failed entry p r f v =
    push-IsTidy (tool_group_block (entry ∷ [])) (flush_tools p)
      (group-status (entry ∷ []) (inl refl)) (flush_tools-IsTidy p v)
place-IsTidy false failed entry p r f (grouped, done, well) =
    elim (Bool-cases (failed && is_nil p.pending_tools)) [
      | inl alone ↦ rw alone (
          push-IsTidy (tool_group_block (entry ∷ [])) p (group-status (entry ∷ []) (inl refl))
            (grouped, done, well))
      | inr wait ↦
          let starts : (has_status "failed" entry && is_nil p.pending_tools) ≡ false = rw f wait in
          rw wait (
            grouped,
            All-append (λ e. has_status "running" e ≡ false) p.pending_tools (entry ∷ []) done
                (r, tt),
            StartsWell-append p.pending_tools entry well starts,
          )
    ]

place_entry-IsTidy :
    (entry : TimelineToolGroupEntry) (p : Progress) → IsTidy p → IsTidy (place_entry entry p)
unfolding place_entry
place_entry-IsTidy entry p v = place-IsTidy _ _ entry p refl refl v

show_item-IsTidy :
    (c : Context) (item : TimelineItem) (p : Progress) → IsTidy p → IsTidy (show_item c item p)
unfolding show_item
show_item-IsTidy c (TimelineItem.message item) p h =
    push-IsTidy (TimelineDisplayBlock.message item) (flush_tools p) tt (flush_tools-IsTidy p h)
show_item-IsTidy c (TimelineItem.review_artifact item) p h =
    elim (Bool-cases
      (should_fold_review_artifact item c.visible_tool_call_ids c.folded_artifact_ids)) [
        | inl folded ↦ rw folded h
        | inr shown ↦ rw shown (
            push-IsTidy (TimelineDisplayBlock.review_artifact item) (flush_tools p) tt
              (flush_tools-IsTidy p h))
      ]
show_item-IsTidy c (TimelineItem.permission item) p h =
    elim (Bool-cases (should_fold_permission item)) [
      | inl folded ↦ rw folded h
      | inr shown ↦ rw shown (
          push-IsTidy (TimelineDisplayBlock.permission item) (flush_tools p) tt
            (flush_tools-IsTidy p h))
    ]
show_item-IsTidy c (TimelineItem.tool_call item) p h =
    elim (Bool-cases (has_id? item.tool_call_id c.image_artifact_tool_call_ids)) [
      | inl image ↦ rw image (flush_tools-IsTidy p h)
      | inr plain ↦
          rw plain
            (elim (Bool-cases (
              should_fold_permission_tool_call
                (tool_call_with_permission_context item c.permissions_by_tool_call_id)
                c.permissions_by_tool_call_id)) [
                  | inl folded ↦ rw folded h
                  | inr shown ↦ rw shown (
                      place_entry-IsTidy
                        (entry_of c
                          (tool_call_with_permission_context item c.permissions_by_tool_call_id))
                        p h)
                ])
    ]

show_items-IsTidy :
    (c : Context) (timeline : List TimelineItem) (p : Progress)
    → IsTidy p
    → IsTidy (show_items c timeline p)
unfolding show_items
show_items-IsTidy c [] p h = h
show_items-IsTidy c (item ∷ timeline) p h =
    show_items-IsTidy c timeline (show_item c item p) (show_item-IsTidy c item p h)

-- Every group of tool calls holds one, or at least two of which none runs and the first has not
-- failed; its status is failed if one of them failed, else running if one runs, else completed; and
-- its count of failures is the number of those that failed.
pub build_timeline_blocks-IsGrouped :
    (timeline : List TimelineItem) (review_artifacts : List ReviewArtifactSummary)
    → All IsGrouped (build_timeline_blocks timeline review_artifacts)
unfolding build_timeline_blocks
build_timeline_blocks-IsGrouped timeline review_artifacts =
    let c = context_of timeline review_artifacts in
    (flush_tools-IsTidy (show_items c timeline (record { blocks = []; pending_tools = [] }))
      (show_items-IsTidy c timeline (record { blocks = []; pending_tools = [] }) (tt, tt, tt))).0
