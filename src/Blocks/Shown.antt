-- ===== src/Blocks/Shown.antt =====
-- About frontend/src/app/timelineBlocks.ts: which items of a timeline the blocks hold.
use acp_webui.Common.{
  String, Bool, true, false, not, ◌&&◌, Option, none, some, List, [], ◌∷◌, ◌++◌, map, filter,
  flat_map, if◌then◌else◌, ◌≡◌, refl, sym, ap, arith, ◌∙◌, ◌==◌, is_empty, Bool-cases, inl, inr,
}
use mathlib.Core.List.{append-nil, append_assoc}
use acp_webui.Common.Text.{to_lower_case}
use acp_webui.Types.{
  PermissionItem, ReviewArtifactSummary, TimelineItem, ToolCallItem, item_id, item_kind,
}
use acp_webui.Blocks.Context.{
  has_id?, permission_of, should_fold_permission, should_fold_permission_tool_call,
  should_fold_review_artifact, tool_call_with_permission_context, with_linked_artifact_ids,
  with_permission,
}
use acp_webui.Blocks.Groups.{TimelineDisplayBlock, TimelineToolGroupEntry, tool_group_block}
use acp_webui.Blocks.Build.{
  Context, Progress, build_timeline_blocks, context_of, entry_of, flush, flush_tools, is_nil, place,
  place_entry, push, show_item, show_items,
}

abbrev pub entry_item : TimelineToolGroupEntry → String × String
entry_item entry = ("tool_call", entry.item.id)

-- The kinds and ids of the items that a block holds.
abbrev pub block_items : TimelineDisplayBlock → List (String × String)
block_items (TimelineDisplayBlock.message item) = ("message", item.id) ∷ []
block_items (TimelineDisplayBlock.tool_group group) = map entry_item group.entries
block_items (TimelineDisplayBlock.permission item) = ("permission", item.id) ∷ []
block_items (TimelineDisplayBlock.review_artifact item) = ("review_artifact", item.id) ∷ []

-- Whether an item is shown: a message always; a tool call unless an image stands for it or it only
-- keeps the books of a permission; an artifact or a permission unless it is folded into a tool call.
abbrev pub is_shown : Context → TimelineItem → Bool
is_shown c (TimelineItem.message item) = true
is_shown c (TimelineItem.tool_call item) =
    not (has_id? item.tool_call_id c.image_artifact_tool_call_ids)
    && not (
        should_fold_permission_tool_call
          (tool_call_with_permission_context item c.permissions_by_tool_call_id)
          c.permissions_by_tool_call_id)
is_shown c (TimelineItem.review_artifact item) =
    not (should_fold_review_artifact item c.visible_tool_call_ids c.folded_artifact_ids)
is_shown c (TimelineItem.permission item) = not (should_fold_permission item)

abbrev pub kind_and_id : TimelineItem → String × String
kind_and_id item = (item_kind item, item_id item)

-- What the blocks hold, and then the tools that wait for theirs.
abbrev held : Progress → List (String × String)
held p = flat_map block_items p.blocks ++ map entry_item p.pending_tools

flat_map-append :
    (bs cs : List TimelineDisplayBlock)
    → flat_map block_items (bs ++ cs) ≡ flat_map block_items bs ++ flat_map block_items cs
flat_map-append [] cs = refl
flat_map-append (b ∷ bs) cs =
    ap (λ rest. block_items b ++ rest) (flat_map-append bs cs)
    ∙ sym (append_assoc (block_items b) (flat_map block_items bs) (flat_map block_items cs))

held-flush :
    (blocks : List TimelineDisplayBlock) (entries : List TimelineToolGroupEntry)
    → held (flush blocks entries) ≡ flat_map block_items blocks ++ map entry_item entries
unfolding flush tool_group_block
held-flush blocks [] = refl
held-flush blocks (entry ∷ entries) = simp (flat_map-append, append-nil)

held-flush_tools : (p : Progress) → held (flush_tools p) ≡ held p
unfolding flush_tools
held-flush_tools p = held-flush p.blocks p.pending_tools

flush-pending :
    (blocks : List TimelineDisplayBlock) (entries : List TimelineToolGroupEntry)
    → (flush blocks entries).pending_tools ≡ []
unfolding flush
flush-pending blocks [] = refl
flush-pending blocks (entry ∷ entries) = refl

-- A block is pushed when no tool waits.
held-push :
    (block : TimelineDisplayBlock) (p : Progress)
    → p.pending_tools ≡ []
    → held (push block p) ≡ held p ++ block_items block
unfolding push
held-push block p h = simp (h, flat_map-append, append-nil)

held-push-flush_tools :
    (block : TimelineDisplayBlock) (p : Progress)
    → held (push block (flush_tools p)) ≡ held p ++ block_items block
unfolding flush_tools
held-push-flush_tools block p =
    held-push block (flush p.blocks p.pending_tools) (flush-pending p.blocks p.pending_tools)
    ∙ ap (λ items. items ++ block_items block) (held-flush p.blocks p.pending_tools)

empty_of_is_nil : (entries : List TimelineToolGroupEntry) → is_nil entries ≡ true → entries ≡ []
empty_of_is_nil [] h = refl
empty_of_is_nil (entry ∷ entries) h = cc

map-append :
    (xs ys : List TimelineToolGroupEntry)
    → map entry_item (xs ++ ys) ≡ map entry_item xs ++ map entry_item ys
map-append [] ys = refl
map-append (x ∷ xs) ys = ap (λ rest. entry_item x ∷ rest) (map-append xs ys)

held-place :
    (running failed : Bool) (entry : TimelineToolGroupEntry) (p : Progress)
    → held (place running failed entry p) ≡ held p ++ entry_item entry ∷ []
unfolding place tool_group_block
held-place true failed entry p = held-push-flush_tools (tool_group_block (entry ∷ [])) p
held-place false failed entry p = elim (Bool-cases (failed && is_nil p.pending_tools)) [
  | inl alone ↦
      rw alone (
        held-push (tool_group_block (entry ∷ [])) p
          (empty_of_is_nil p.pending_tools (ground arith)))
  | inr wait ↦
      rw (wait, map-append p.pending_tools (entry ∷ []))
        (sym (append_assoc (flat_map block_items p.blocks) (map entry_item p.pending_tools) _))
]

held-place_entry :
    (entry : TimelineToolGroupEntry) (p : Progress)
    → held (place_entry entry p) ≡ held p ++ entry_item entry ∷ []
unfolding place_entry
held-place_entry entry p =
    held-place (to_lower_case entry.item.status == "running")
      (to_lower_case entry.item.status == "failed") entry p

with_permission-id :
    (item : ToolCallItem) (permission : Option PermissionItem)
    → (with_permission item permission).id ≡ item.id
unfolding with_permission
with_permission-id item none = refl
with_permission-id item (some permission) = elim (Bool-cases (is_empty permission.title)) [
  | inl blank ↦ rw blank refl
  | inr titled ↦ rw titled refl
]

entry_of-item :
    (c : Context) (item : ToolCallItem)
    → entry_item (entry_of c (tool_call_with_permission_context item c.permissions_by_tool_call_id))
      ≡ ("tool_call", item.id)
unfolding entry_of with_linked_artifact_ids tool_call_with_permission_context
entry_of-item c item =
    ap (λ id. ("tool_call", id))
      (with_permission-id item (permission_of item.tool_call_id c.permissions_by_tool_call_id))

abbrev shown_item : Context → TimelineItem → List (String × String)
shown_item c item = if is_shown c item then kind_and_id item ∷ [] else []

held-show_item :
    (c : Context) (item : TimelineItem) (p : Progress)
    → held (show_item c item p) ≡ held p ++ shown_item c item
unfolding show_item
held-show_item c (TimelineItem.message item) p =
    held-push-flush_tools (TimelineDisplayBlock.message item) p
held-show_item c (TimelineItem.review_artifact item) p =
    elim (Bool-cases
      (should_fold_review_artifact item c.visible_tool_call_ids c.folded_artifact_ids)) [
        | inl folded ↦ rw folded (sym (append-nil (held p)))
        | inr shown ↦ rw shown (held-push-flush_tools (TimelineDisplayBlock.review_artifact item) p)
      ]
held-show_item c (TimelineItem.permission item) p =
    elim (Bool-cases (should_fold_permission item)) [
      | inl folded ↦ rw folded (sym (append-nil (held p)))
      | inr shown ↦ rw shown (held-push-flush_tools (TimelineDisplayBlock.permission item) p)
    ]
held-show_item c (TimelineItem.tool_call item) p =
    elim (Bool-cases (has_id? item.tool_call_id c.image_artifact_tool_call_ids)) [
      | inl image ↦ rw image (held-flush_tools p ∙ sym (append-nil (held p)))
      | inr plain ↦
          rw plain
            (elim (Bool-cases (
              should_fold_permission_tool_call
                (tool_call_with_permission_context item c.permissions_by_tool_call_id)
                c.permissions_by_tool_call_id)) [
                  | inl folded ↦ rw folded (sym (append-nil (held p)))
                  | inr shown ↦ rw shown (
                      held-place_entry
                        (entry_of c
                          (tool_call_with_permission_context item c.permissions_by_tool_call_id))
                        p
                      ∙ ap (λ kept. held p ++ kept ∷ []) (entry_of-item c item))
                ])
    ]

held-show_items :
    (c : Context) (timeline : List TimelineItem) (p : Progress)
    → held (show_items c timeline p) ≡ held p ++ map kind_and_id (filter (is_shown c) timeline)
unfolding show_items
held-show_items c [] p = sym (append-nil (held p))
held-show_items c (item ∷ timeline) p =
    held-show_items c timeline (show_item c item p)
    ∙ ap (λ items. items ++ map kind_and_id (filter (is_shown c) timeline))
        (held-show_item c item p)
    ∙ append_assoc (held p) (shown_item c item) (map kind_and_id (filter (is_shown c) timeline))
    ∙ ap (λ items. held p ++ items)
        (elim (Bool-cases (is_shown c item)) [
          | inl shown ↦ rw shown refl
          | inr folded ↦ rw folded refl
        ])

held_all : (p : Progress) → p.pending_tools ≡ [] → flat_map block_items p.blocks ≡ held p
held_all p h = rw h (sym (append-nil (flat_map block_items p.blocks)))

-- The blocks of a timeline hold the items that are shown, each once and in the order of the
-- timeline, with the kind and id that they have there: every message, the tool calls for which no
-- image stands and which do not only keep the books of a permission, and the permissions and
-- artifacts that are not folded into a tool call.
pub build_timeline_blocks-items :
    (timeline : List TimelineItem) (review_artifacts : List ReviewArtifactSummary)
    → flat_map block_items (build_timeline_blocks timeline review_artifacts)
      ≡ map kind_and_id (filter (is_shown (context_of timeline review_artifacts)) timeline)
unfolding build_timeline_blocks flush_tools
build_timeline_blocks-items timeline review_artifacts =
    let c = context_of timeline review_artifacts in
    let last = show_items c timeline (record { blocks = []; pending_tools = [] }) in
    held_all (flush last.blocks last.pending_tools) (flush-pending last.blocks last.pending_tools)
    ∙ held-flush last.blocks last.pending_tools
    ∙ held-show_items c timeline (record { blocks = []; pending_tools = [] })
