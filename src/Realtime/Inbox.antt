-- ===== src/Realtime/Inbox.antt =====
-- About the inbox of frontend/src/realtime.ts under permission events.
pub mod Entries
use mathlib.Core.Path.{subst}
use acp_webui.Common.{
  Option, none, some, List, [], ◌∷◌, map, String, ◌==◌, ℕ, ◌-◌, ◌≡◌, ◌≢◌, refl, ◌∙◌, ap, false,
  arith, All, flat_map, is_some, or_else, eq_iff, Bool-cases, Option-cases, inl, inr, sym, ◌⊎◌,
  if◌then◌else◌,
}
use acp_webui.Common.Host.{Host, Clock}
use acp_webui.Common.Keyed.Laws.{HasDistinctKeys, at_key}
use acp_webui.Types.{
  InboxItem, PermissionRequest, PermissionRequested, PermissionResolved, RealtimeEvent,
  SessionDetail, item_session_id,
}
use acp_webui.Realtime.{apply_realtime_event, run}
use acp_webui.Realtime.Snapshot.{AppSnapshot, on_current}
use acp_webui.Realtime.Continuity.{apply_session_restore_event}
use acp_webui.Realtime.Queue.{with_approval_queue}
use acp_webui.Realtime.Permissions.{
  added_inbox, apply_permission_requested, apply_permission_resolved, change_current,
  requested_session, resolved_inbox_item, waiting_item,
}
use acp_webui.Realtime.Invariant.{on_current-none, on_current-some}
use acp_webui.Realtime.Timeline.{apply_review_artifact, apply_timeline_item_upsert}

abbrev pub inbox_key : InboxItem → String
inbox_key item = item.session.id

-- The entry of a session.
abbrev pub entry_of : String → List InboxItem → Option InboxItem
entry_of k inbox = at_key inbox_key k inbox

abbrev pub waiting? : PermissionRequest → ℕ → Option InboxItem → Option InboxItem
waiting? active count none = none
waiting? active count (some item) = some (waiting_item item active count)

module _ (id : String) (active : PermissionRequest) (count : ℕ) where
  abbrev pub mark : List InboxItem → List InboxItem
  mark inbox =
      map (λ item. if item.session.id == id then waiting_item item active count else item) inbox

  pub entry_of-mark :
      (k : String) (inbox : List InboxItem)
      → entry_of k (mark inbox)
        ≡ (if id == k then waiting? active count (entry_of id inbox) else entry_of k inbox)
  unfolding waiting_item
  entry_of-mark k [] = ground arith
  entry_of-mark k (item ∷ inbox) = ground (
    arith,
    entry_of-mark k inbox,
    eq_iff item.session.id id,
    eq_iff item.session.id k,
    eq_iff id k,
  )

  mark-distinct_from :
      (k : String) (inbox : List InboxItem)
      → All (λ y. inbox_key y ≢ k) inbox
      → All (λ y. inbox_key y ≢ k) (mark inbox)
  unfolding waiting_item
  mark-distinct_from k [] v = tt
  mark-distinct_from k (item ∷ inbox) (p, v) = elim (Bool-cases (item.session.id == id)) [
    | inl same ↦ rw same (p, mark-distinct_from k inbox v)
    | inr other ↦ rw other (p, mark-distinct_from k inbox v)
  ]

  mark-HasDistinctKeys :
      (inbox : List InboxItem)
      → HasDistinctKeys inbox_key inbox
      → HasDistinctKeys inbox_key (mark inbox)
  unfolding waiting_item
  mark-HasDistinctKeys [] v = tt
  mark-HasDistinctKeys (item ∷ inbox) (p, v) = elim (Bool-cases (item.session.id == id)) [
    | inl same ↦ rw same (mark-distinct_from item.session.id inbox p, mark-HasDistinctKeys inbox v)
    | inr other ↦
        rw other (mark-distinct_from item.session.id inbox p, mark-HasDistinctKeys inbox v)
  ]

  absent_of_find :
      (inbox : List InboxItem)
      → is_some (entry_of id inbox) ≡ false
      → All (λ y. inbox_key y ≢ id) inbox
  absent_of_find [] e = tt
  absent_of_find (item ∷ inbox) e =
      (ground (arith, eq_iff item.session.id id), absent_of_find inbox (ground arith))

  added-HasDistinctKeys :
      (current : Option SessionDetail) (inbox : List InboxItem)
      → is_some (entry_of id inbox) ≡ false
      → HasDistinctKeys inbox_key inbox
      → HasDistinctKeys inbox_key (added_inbox id active count current inbox)
  unfolding added_inbox
  added-HasDistinctKeys none inbox e v = v
  added-HasDistinctKeys (some d) inbox e v = elim (Bool-cases (d.session.id == id)) [
    | inl same ↦ rw (same, (eq_iff d.session.id id).0 same) (absent_of_find inbox e, v)
    | inr other ↦ rw other v
  ]

requested-HasDistinctKeys :
    (h : Host) (state : AppSnapshot) (e : PermissionRequested)
    → HasDistinctKeys inbox_key state.inbox
    → HasDistinctKeys inbox_key (apply_permission_requested h state e).inbox
unfolding apply_permission_requested
requested-HasDistinctKeys h state e v =
    elim (Bool-cases (is_some (entry_of e.permission.session_id state.inbox))) [
      | inl old ↦ rw old (mark-HasDistinctKeys _ _ _ state.inbox v)
      | inr new ↦ rw new (added-HasDistinctKeys _ _ _ _ state.inbox new v)
    ]

-- An entry goes, or stays with its session.
resolved_inbox_item-cases :
    (e : PermissionResolved) (item : InboxItem)
    → (resolved_inbox_item e item ≡ [])
      ⊎ ((x : InboxItem) × (resolved_inbox_item e item ≡ x ∷ []) × (inbox_key x ≡ inbox_key item))
unfolding resolved_inbox_item waiting_item
resolved_inbox_item-cases e item = elim (Bool-cases (item.session.id == e.session_id)) [
  | inl same ↦ elim (Option-cases e.next_permission) [
    | inl last ↦ inl (ground arith)
    | inr (p, more) ↦
        inr (waiting_item item p (or_else e.queued_approval_count 0), ground arith, refl)
  ]
  | inr other ↦ inr (item, rw other, refl)
]

resolved-distinct_from :
    (e : PermissionResolved) (k : String) (inbox : List InboxItem)
    → All (λ y. inbox_key y ≢ k) inbox
    → All (λ y. inbox_key y ≢ k) (flat_map (resolved_inbox_item e) inbox)
resolved-distinct_from e k [] v = tt
resolved-distinct_from e k (item ∷ inbox) (p, v) = elim (resolved_inbox_item-cases e item) [
  | inl gone ↦ rw gone (resolved-distinct_from e k inbox v)
  | inr (x, stays, same) ↦ rw stays (λ q. p (sym same ∙ q), resolved-distinct_from e k inbox v)
]

resolved-HasDistinctKeys :
    (e : PermissionResolved) (inbox : List InboxItem)
    → HasDistinctKeys inbox_key inbox
    → HasDistinctKeys inbox_key (flat_map (resolved_inbox_item e) inbox)
resolved-HasDistinctKeys e [] v = tt
resolved-HasDistinctKeys e (item ∷ inbox) (p, v) = elim (resolved_inbox_item-cases e item) [
  | inl gone ↦ rw gone (resolved-HasDistinctKeys e inbox v)
  | inr (x, stays, same) ↦ rw stays (
    rw same (resolved-distinct_from e item.session.id inbox p),
    resolved-HasDistinctKeys e inbox v,
  )
]

-- Every other event leaves the inbox alone.
on_current-inbox :
    (state : AppSnapshot) (id : String) (rest : SessionDetail → AppSnapshot)
    → ((d : SessionDetail) → (rest d).inbox ≡ state.inbox)
    → (on_current state id rest).inbox ≡ state.inbox
on_current-inbox state id rest same = elim (Option-cases state.current_session) [
  | inl e ↦ ap (λ (s : AppSnapshot). s.inbox) (on_current-none state id rest e)
  | inr (d, e) ↦
      ap (λ (s : AppSnapshot). s.inbox) (on_current-some state id rest e) ∙ ground (arith, same d)
]

on_current-HasDistinctKeys :
    (state : AppSnapshot) (id : String) (rest : SessionDetail → AppSnapshot)
    → ((d : SessionDetail) → (rest d).inbox ≡ state.inbox)
    → HasDistinctKeys inbox_key state.inbox
    → HasDistinctKeys inbox_key (on_current state id rest).inbox
on_current-HasDistinctKeys state id rest same v =
    subst (HasDistinctKeys inbox_key) (sym (on_current-inbox state id rest same)) v

pub apply-HasDistinctKeys :
    (h : Host) (c : Clock) (state : AppSnapshot) (event : RealtimeEvent)
    → HasDistinctKeys inbox_key state.inbox
    → HasDistinctKeys inbox_key (apply_realtime_event h c state event).inbox
unfolding apply_realtime_event apply_session_restore_event apply_review_artifact
    apply_timeline_item_upsert apply_permission_resolved
apply-HasDistinctKeys h c state (RealtimeEvent.permission_requested e) v =
    requested-HasDistinctKeys h state e v
apply-HasDistinctKeys h c state (RealtimeEvent.permission_resolved e) v =
    resolved-HasDistinctKeys e state.inbox v
apply-HasDistinctKeys h c state (RealtimeEvent.text_delta id _) v =
    on_current-HasDistinctKeys state id _ (λ d. refl) v
apply-HasDistinctKeys h c state (RealtimeEvent.assistant_message id _) v =
    on_current-HasDistinctKeys state id _ (λ d. refl) v
apply-HasDistinctKeys h c state (RealtimeEvent.session_status id _) v =
    on_current-HasDistinctKeys state id _ (λ d. refl) v
apply-HasDistinctKeys h c state (RealtimeEvent.review_artifact a) v =
    on_current-HasDistinctKeys state a.session_id _ (λ d. refl) v
apply-HasDistinctKeys h c state (RealtimeEvent.timeline_item_upsert item) v =
    on_current-HasDistinctKeys state (item_session_id item) _ (λ d. refl) v
apply-HasDistinctKeys h c state (RealtimeEvent.session_restore_started id) v =
    on_current-HasDistinctKeys state id _ (λ d. refl) v
apply-HasDistinctKeys h c state (RealtimeEvent.session_restore_succeeded id) v =
    on_current-HasDistinctKeys state id _ (λ d. refl) v
apply-HasDistinctKeys h c state (RealtimeEvent.session_restore_failed id _) v =
    on_current-HasDistinctKeys state id _ (λ d. refl) v
apply-HasDistinctKeys h c state (RealtimeEvent.session_config_updated id _ _) v =
    on_current-HasDistinctKeys state id _ (λ d. refl) v
apply-HasDistinctKeys h c state (RealtimeEvent.active_turn_updated id _ _) v =
    on_current-HasDistinctKeys state id _ (λ d. refl) v
apply-HasDistinctKeys h c state (RealtimeEvent.queued_prompts_updated id _) v =
    on_current-HasDistinctKeys state id _ (λ d. refl) v
apply-HasDistinctKeys h c state _ v = v

-- Through every run of events an inbox that starts with at most one entry for each session has at
-- most one.
pub run-HasDistinctKeys :
    (h : Host) (state : AppSnapshot) (events : List (Clock × RealtimeEvent))
    → HasDistinctKeys inbox_key state.inbox
    → HasDistinctKeys inbox_key (run h state events).inbox
unfolding run
run-HasDistinctKeys h state [] v = v
run-HasDistinctKeys h state ((c, event) ∷ events) v =
    run-HasDistinctKeys h (apply_realtime_event h c state event) events
      (apply-HasDistinctKeys h c state event v)
