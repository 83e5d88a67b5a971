-- ===== src/Realtime/Timeline/Laws.antt =====
-- About upsertTimelineItem of frontend/src/realtime.ts: the keys and the order of the timeline
-- under upserts.
use text.Mathlib.TextLemmas.{append_cancel_left, cons-append, head-eq_of_cons-eq}
use Prim.Native.Char.{Char, code}
use Prim.Native.String.{String}
use acp_webui.Common.{
  ℕ, ◌≤◌, or_else, some, List, ◌==◌, ◌<>◌, ◌≡◌, refl, ◌∙◌, sym, ap, ap₂, arith, All, Bool-cases,
  inl, inr, true, false, if◌then◌else◌,
}
use acp_webui.Common.Host.{Host, date_order}
use acp_webui.Common.Host.Laws.{IsDate, date_order-asym, date_order_trans}
use acp_webui.Common.Sort.{sort}
use acp_webui.Common.Sort.Laws.{
  IsOrder, IsSorted, IsSorted-Pairwise, Pairwise, sort-All, sort-IsSorted, sort_of_IsSorted,
}
use acp_webui.Common.Keyed.{upsert}
use acp_webui.Common.Keyed.Laws.{
  HasDistinctKeys, at_key, at_key-upsert, has_key-upsert, upsert-All, upsert-HasDistinctKeys,
  upsert-Holds, upsert_of_Holds,
}
use acp_webui.Common.Keyed.Sorted.{at_key-sort, has_key-sort, sort-HasDistinctKeys}
use acp_webui.Types.{
  SessionDetail, TimelineItem, item_id, item_kind, item_session_id, item_timestamp,
}
use acp_webui.Realtime.Snapshot.{AppSnapshot}
use acp_webui.Realtime.Invariant.{on_current-some}
use acp_webui.Realtime.Timeline.{
  apply_timeline_item_upsert, should_clear_live_assistant_for_timeline_item, timeline_after,
  timeline_key, upsert_timeline_item,
}

first_char :
    (c e : Char) (s t x y : String) → String.◌∷◌ c s <> x ≡ String.◌∷◌ e t <> y → code c ≡ code e
first_char c e s t x y h =
    ap code (head-eq_of_cons-eq (sym (cons-append c s x) ∙ h ∙ cons-append e t y))

-- Items of the timeline with the same key have the same kind and the same id.
pub timeline_key_inj :
    (a b : TimelineItem)
    → timeline_key a ≡ timeline_key b
    → (item_kind a ≡ item_kind b) × (item_id a ≡ item_id b)
timeline_key_inj (TimelineItem.message m) (TimelineItem.message n) e =
    (refl, append_cancel_left "-" _ _ (append_cancel_left "message" _ _ e))
timeline_key_inj (TimelineItem.tool_call m) (TimelineItem.tool_call n) e =
    (refl, append_cancel_left "-" _ _ (append_cancel_left "tool_call" _ _ e))
timeline_key_inj (TimelineItem.permission m) (TimelineItem.permission n) e =
    (refl, append_cancel_left "-" _ _ (append_cancel_left "permission" _ _ e))
timeline_key_inj (TimelineItem.review_artifact m) (TimelineItem.review_artifact n) e =
    (refl, append_cancel_left "-" _ _ (append_cancel_left "review_artifact" _ _ e))
timeline_key_inj a b e = absurd (omega (arith, first_char _ _ _ _ _ _ e))

-- The host can read the time of the item.
abbrev pub HasTime : Host → TimelineItem → Type 0
HasTime h item = IsDate h (item_timestamp item)

-- The time of an item that has one.
abbrev pub time : Host → TimelineItem → ℕ
time h item = or_else (h.parse_date (item_timestamp item)) 0

-- What tells one item from another: its kind and its id.
abbrev pub kind_and_id : TimelineItem → String
kind_and_id item = item_kind item <> "-" <> item_id item

module _ (h : Host) where
  timeline_after-IsOrder : IsOrder (timeline_after h) (HasTime h)
  unfolding timeline_after
  timeline_after-IsOrder = record {
    asym = λ x y p q. date_order-asym h (item_timestamp x) (item_timestamp y) p q;
    trans = λ x y z p q r.
        date_order_trans h (item_timestamp x) (item_timestamp y) (item_timestamp z) p q r;
  }

  upsert_timeline_item-IsSorted :
      (items : List TimelineItem) (item : TimelineItem)
      → All (HasTime h) items
      → HasTime h item
      → IsSorted (timeline_after h) (upsert_timeline_item h items item)
  unfolding upsert_timeline_item
  upsert_timeline_item-IsSorted items item v p =
      sort-IsSorted timeline_after-IsOrder (upsert timeline_key item items)
        (upsert-All timeline_key (HasTime h) item items p v)

  timeline_after-not_later :
      (x y : TimelineItem)
      → HasTime h x
      → HasTime h y
      → timeline_after h x y ≡ false
      → time h x ≤ time h y
  unfolding timeline_after date_order
  timeline_after-not_later x y (s, p) (t, q) e = ground arith

  -- An upsert keeps one item for each kind and id.
  pub upsert_timeline_item-HasDistinctKeys :
      (items : List TimelineItem) (item : TimelineItem)
      → HasDistinctKeys timeline_key items
      → HasDistinctKeys timeline_key (upsert_timeline_item h items item)
  unfolding upsert_timeline_item
  upsert_timeline_item-HasDistinctKeys items item v =
      sort-HasDistinctKeys (timeline_after h) timeline_key _
        (upsert-HasDistinctKeys timeline_key item items v)

  -- After an upsert into a timeline with distinct keys, the key of the item has the item, and every
  -- other key what it had.
  pub at_key-upsert_timeline_item :
      (k : String) (items : List TimelineItem) (item : TimelineItem)
      → HasDistinctKeys timeline_key items
      → at_key timeline_key k (upsert_timeline_item h items item)
        ≡ (if timeline_key item == k then some item else at_key timeline_key k items)
  unfolding upsert_timeline_item
  at_key-upsert_timeline_item k items item v =
      at_key-sort (timeline_after h) timeline_key k _
        (upsert-HasDistinctKeys timeline_key item items v)
      ∙ at_key-upsert timeline_key k item items

  -- After an upsert no item of the timeline is earlier than one before it, and of each kind and id
  -- the timeline has the new item if that is its kind and id, and else what it had, if the keys of
  -- the timeline are distinct and the times of its items and of the new one can be read.
  pub upsert_timeline_item_lem :
      (k : String) (items : List TimelineItem) (item : TimelineItem)
      → HasDistinctKeys timeline_key items
      → All (HasTime h) items
      → HasTime h item
      → Pairwise (λ x y. time h x ≤ time h y) (upsert_timeline_item h items item)
        × (at_key kind_and_id k (upsert_timeline_item h items item)
            ≡ (if kind_and_id item == k then some item else at_key kind_and_id k items))
  unfolding upsert_timeline_item
  upsert_timeline_item_lem k items item distinct v p = (
    IsSorted-Pairwise (λ x y. time h x ≤ time h y) timeline_after-not_later
        (upsert_timeline_item h items item)
        (sort-All (timeline_after h) (HasTime h) _
          (upsert-All timeline_key (HasTime h) item items p v))
        (upsert_timeline_item-IsSorted items item v p),
    at_key-upsert_timeline_item k items item distinct,
  )

  -- An item that is upserted twice in a row changes nothing the second time.
  pub upsert_timeline_item-twice :
      (items : List TimelineItem) (item : TimelineItem)
      → All (HasTime h) items
      → HasTime h item
      → upsert_timeline_item h (upsert_timeline_item h items item) item
        ≡ upsert_timeline_item h items item
  unfolding upsert_timeline_item
  upsert_timeline_item-twice items item v p =
      let once = upsert timeline_key item items in
      ap (sort (timeline_after h)) (
        upsert_of_Holds timeline_key item (sort (timeline_after h) once)
          (has_key-sort (timeline_after h) timeline_key item once
            ∙ has_key-upsert timeline_key item items)
          (sort-All (timeline_after h) _ once (upsert-Holds timeline_key item items)))
      ∙ sort_of_IsSorted (timeline_after h) (sort (timeline_after h) once) (
          sort-IsSorted timeline_after-IsOrder once
            (upsert-All timeline_key (HasTime h) item items p v))

-- What is left of the streamed text after an upsert.
abbrev cleared : String → TimelineItem → String
cleared live item = if should_clear_live_assistant_for_timeline_item live item then "" else live

cleared-empty : (item : TimelineItem) → cleared "" item ≡ ""
unfolding should_clear_live_assistant_for_timeline_item
cleared-empty (TimelineItem.message m) = refl
cleared-empty _ = refl

cleared_twice :
    (live : String) (item : TimelineItem) → cleared (cleared live item) item ≡ cleared live item
cleared_twice live item =
    elim (Bool-cases (should_clear_live_assistant_for_timeline_item live item)) [
      | inl gone ↦ rw gone (cleared-empty item)
      | inr kept ↦ rw (kept, kept) refl
    ]

apply_timeline_item_upsert-same :
    (h : Host) (state : AppSnapshot) (item : TimelineItem) {d : SessionDetail}
    → state.current_session ≡ some d
    → (d.session.id == item_session_id item) ≡ true
    → apply_timeline_item_upsert h state item ≡ record state {
      current_session = some (record d { timeline = upsert_timeline_item h d.timeline item });
      live_assistant = cleared state.live_assistant item;
    }
unfolding apply_timeline_item_upsert
apply_timeline_item_upsert-same h state item {d} e same =
    on_current-some state (item_session_id item) _ e ∙ rw same

apply_timeline_item_upsert-other :
    (h : Host) (state : AppSnapshot) (item : TimelineItem) {d : SessionDetail}
    → state.current_session ≡ some d
    → (d.session.id == item_session_id item) ≡ false
    → apply_timeline_item_upsert h state item ≡ state
unfolding apply_timeline_item_upsert
apply_timeline_item_upsert-other h state item {d} e other =
    on_current-some state (item_session_id item) _ e ∙ rw other

-- The event of a timeline item given twice in a row has the effect of one, on the whole state, if
-- the times of the timeline and of the item can be read.
pub apply_timeline_item_upsert-twice :
    (h : Host) (state : AppSnapshot) (item : TimelineItem) {d : SessionDetail}
    → state.current_session ≡ some d
    → All (HasTime h) d.timeline
    → HasTime h item
    → apply_timeline_item_upsert h (apply_timeline_item_upsert h state item) item
      ≡ apply_timeline_item_upsert h state item
apply_timeline_item_upsert-twice h state item {d} e v p =
    elim (Bool-cases (d.session.id == item_session_id item)) [
      | inl same ↦ simp (apply_timeline_item_upsert-same h state item e same) (
          apply_timeline_item_upsert-same h _ item refl same
          ∙ ap₂
              (λ t live. record state {
                current_session = some (record d { timeline = t });
                live_assistant = live;
              })
              (upsert_timeline_item-twice h d.timeline item v p)
              (cleared_twice state.live_assistant item))
      | inr other ↦
          let same = apply_timeline_item_upsert-other h state item e other in
          ap (λ s. apply_timeline_item_upsert h s item) same
    ]
