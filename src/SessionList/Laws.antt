-- ===== src/SessionList/Laws.antt =====
-- About frontend/src/app/sessionList.ts: the items of the list under events.
use acp_webui.Common.{
  Option, none, some, List, [], ◌∷◌, String, ℕ, ◌==◌, ◌≡◌, ◌≢◌, refl, ◌∙◌, sym, true, false, arith,
  All, any, is_some, eq_iff, Bool-cases, Option-cases, inl, inr, if◌then◌else◌,
}
use acp_webui.Common.Host.{Host, Clock}
use acp_webui.Common.Keyed.Laws.{HasDistinctKeys, at_key}
use acp_webui.Types.{RealtimeEvent, SessionDetail, SessionListItem, SessionListPermission}
use acp_webui.Realtime.Identity.{event_session}
use acp_webui.SessionList.{
  added_item, apply_session_list_realtime, change_item, clear_session_list_permission,
  session_detail_to_list_item, set_session_list_permission, update_session_list_active_turn,
  update_session_list_continuity, update_session_list_model, update_session_list_queue,
  update_session_list_review_availability, update_session_list_status, waiting_list_item,
}

abbrev pub item_key : SessionListItem → String
item_key item = item.session.id

-- The item of a session.
abbrev pub item_of : String → List SessionListItem → Option SessionListItem
item_of k sessions = at_key item_key k sessions

abbrev pub changed? :
    (SessionListItem → SessionListItem) → Option SessionListItem → Option SessionListItem
changed? change none = none
changed? change (some item) = some (change item)

-- A change keeps the session's id.
abbrev pub KeepsId : (SessionListItem → SessionListItem) → Type 0
KeepsId change = (item : SessionListItem) → item_key (change item) ≡ item_key item

module _ (id : String) (change : SessionListItem → SessionListItem) (keeps : KeepsId change) where
  -- A change of one session's item shows at that session, and nowhere else.
  pub item_of-change_item :
      (k : String) (sessions : List SessionListItem)
      → item_of k (change_item id change sessions)
        ≡ (if id == k then changed? change (item_of k sessions) else item_of k sessions)
  unfolding change_item
  item_of-change_item k [] = ground arith
  item_of-change_item k (item ∷ sessions) = ground (
    arith,
    item_of-change_item k sessions,
    keeps item,
    eq_iff item.session.id id,
    eq_iff item.session.id k,
    eq_iff id k,
  )

  change_item-distinct_from :
      (k : String) (sessions : List SessionListItem)
      → All (λ y. item_key y ≢ k) sessions
      → All (λ y. item_key y ≢ k) (change_item id change sessions)
  unfolding change_item
  change_item-distinct_from k [] v = tt
  change_item-distinct_from k (item ∷ sessions) (p, v) = elim (Bool-cases (item.session.id == id)) [
    | inl same ↦ rw same (λ e. p (sym (keeps item) ∙ e), change_item-distinct_from k sessions v)
    | inr other ↦ rw other (p, change_item-distinct_from k sessions v)
  ]

  pub change_item-HasDistinctKeys :
      (sessions : List SessionListItem)
      → HasDistinctKeys item_key sessions
      → HasDistinctKeys item_key (change_item id change sessions)
  unfolding change_item
  change_item-HasDistinctKeys [] v = tt
  change_item-HasDistinctKeys (item ∷ sessions) (p, v) = elim (Bool-cases (item.session.id == id)) [
    | inl same ↦
        rw (same, keeps item)
          (
            change_item-distinct_from item.session.id sessions p,
            change_item-HasDistinctKeys sessions v,
          )
    | inr other ↦ rw other (
      change_item-distinct_from item.session.id sessions p,
      change_item-HasDistinctKeys sessions v,
    )
  ]

absent_of_any :
    (id : String) (sessions : List SessionListItem)
    → any (λ item. item.session.id == id) sessions ≡ false
    → All (λ y. item_key y ≢ id) sessions
absent_of_any id [] h = tt
absent_of_any id (item ∷ sessions) h =
    (ground (arith, eq_iff item.session.id id), absent_of_any id sessions (ground arith))

pub item_of-absent :
    (id : String) (sessions : List SessionListItem)
    → any (λ item. item.session.id == id) sessions ≡ false
    → item_of id sessions ≡ none
item_of-absent id [] h = refl
item_of-absent id (item ∷ sessions) h = ground (arith, item_of-absent id sessions)

pub item_of-present :
    (id : String) (sessions : List SessionListItem)
    → any (λ item. item.session.id == id) sessions ≡ true
    → is_some (item_of id sessions) ≡ true
item_of-present id [] h = cc
item_of-present id (item ∷ sessions) h = ground (arith, item_of-present id sessions)

module _ (h : Host) (id : String) (pending : SessionListPermission) (count : ℕ)
    (current : Option SessionDetail) where
  -- The item that `setSessionListPermission` makes or changes.
  abbrev pub set_item : Option SessionListItem → Option SessionDetail → Option SessionListItem
  set_item (some item) _ = some (waiting_list_item item pending count)
  set_item none none = none
  set_item none (some d) =
      if d.session.id == id
      then some (waiting_list_item (session_detail_to_list_item h d) pending count)
      else none

  abbrev mark : SessionListItem → SessionListItem
  mark item = waiting_list_item item pending count

  marked : List SessionListItem → List SessionListItem
  marked sessions = change_item id mark sessions

  item_of-added :
      (k : String) (now : Option SessionDetail) (sessions : List SessionListItem)
      → item_of k (added_item h id pending count now sessions) ≡ (
          if id == k
          then (if is_some (set_item none now) then set_item none now else item_of k sessions)
          else item_of k sessions)
  unfolding added_item
  item_of-added k none sessions = ground arith
  item_of-added k (some d) sessions =
      ground (arith, eq_iff d.session.id id, eq_iff d.session.id k, eq_iff id k)

  -- Setting a permission shows in the item of its session, which is made from the open session if
  -- the list has none and the open session is the one, and leaves every other session's item.
  pub item_of-set_session_list_permission :
      (k : String) (sessions : List SessionListItem)
      → item_of k (set_session_list_permission h sessions id pending count current)
        ≡ (if id == k then set_item (item_of id sessions) current else item_of k sessions)
  unfolding set_session_list_permission
  item_of-set_session_list_permission k sessions =
      let marks = item_of-change_item id mark (λ item. refl) k sessions in
      elim (Bool-cases (any (λ item. item.session.id == id) sessions)) [
        | inl old ↦
            rw old
              (marks ∙ ground (arith, eq_iff id k, item_of-present id sessions, item_of k sessions))
        | inr new ↦ rw new (
            item_of-added k current (change_item id mark sessions)
            ∙ ground (arith, marks, eq_iff id k, item_of-absent id sessions))
      ]

  added-HasDistinctKeys :
      (now : Option SessionDetail) (sessions : List SessionListItem)
      → All (λ y. item_key y ≢ id) sessions
      → HasDistinctKeys item_key sessions
      → HasDistinctKeys item_key (added_item h id pending count now sessions)
  unfolding added_item
  added-HasDistinctKeys none sessions p v = v
  added-HasDistinctKeys (some d) sessions p v = elim (Bool-cases (d.session.id == id)) [
    | inl same ↦ rw (same, (eq_iff d.session.id id).0 same) (p, v)
    | inr other ↦ rw other v
  ]

  pub set-HasDistinctKeys :
      (sessions : List SessionListItem)
      → HasDistinctKeys item_key sessions
      → HasDistinctKeys item_key (set_session_list_permission h sessions id pending count current)
  unfolding set_session_list_permission
  set-HasDistinctKeys sessions v =
      let marks = change_item-HasDistinctKeys id mark (λ item. refl) sessions v in
      elim (Bool-cases (any (λ item. item.session.id == id) sessions)) [
        | inl old ↦ rw old marks
        | inr new ↦ rw new (
            added-HasDistinctKeys current (change_item id mark sessions)
              (change_item-distinct_from id mark (λ item. refl) id sessions
                (absent_of_any id sessions new))
              marks)
      ]

module _ (h : Host) (c : Clock) (sessions : List SessionListItem)
    (current : Option SessionDetail) where
  -- An event keeps a list of sessions with at most one item for each session so.
  pub apply_list-HasDistinctKeys :
      (event : RealtimeEvent)
      → HasDistinctKeys item_key sessions
      → HasDistinctKeys item_key (apply_session_list_realtime h c sessions event current)
  unfolding apply_session_list_realtime update_session_list_status update_session_list_active_turn
      update_session_list_queue clear_session_list_permission
      update_session_list_review_availability update_session_list_continuity
      update_session_list_model
  apply_list-HasDistinctKeys (RealtimeEvent.session_status id _) v =
      change_item-HasDistinctKeys id _ (λ item. refl) sessions v
  apply_list-HasDistinctKeys (RealtimeEvent.active_turn_updated id _ _) v =
      change_item-HasDistinctKeys id _ (λ item. refl) sessions v
  apply_list-HasDistinctKeys (RealtimeEvent.queued_prompts_updated id _) v =
      change_item-HasDistinctKeys id _ (λ item. refl) sessions v
  apply_list-HasDistinctKeys (RealtimeEvent.permission_requested e) v =
      set-HasDistinctKeys h _ _ _ current sessions v
  apply_list-HasDistinctKeys (RealtimeEvent.permission_resolved e) v =
      elim (Option-cases e.next_permission) [
        | inl last ↦
            simp last (change_item-HasDistinctKeys e.session_id _ (λ item. refl) sessions v)
        | inr (p, more) ↦ simp more (set-HasDistinctKeys h _ _ _ current sessions v)
      ]
  apply_list-HasDistinctKeys (RealtimeEvent.review_artifact a) v =
      change_item-HasDistinctKeys a.session_id _ (λ item. refl) sessions v
  apply_list-HasDistinctKeys (RealtimeEvent.session_restore_started id) v =
      change_item-HasDistinctKeys id _ (λ item. refl) sessions v
  apply_list-HasDistinctKeys (RealtimeEvent.session_restore_succeeded id) v =
      change_item-HasDistinctKeys id _ (λ item. refl) sessions v
  apply_list-HasDistinctKeys (RealtimeEvent.session_restore_failed id _) v =
      change_item-HasDistinctKeys id _ (λ item. refl) sessions v
  apply_list-HasDistinctKeys (RealtimeEvent.session_config_updated id _ _) v =
      change_item-HasDistinctKeys id _ (λ item. refl) sessions v
  apply_list-HasDistinctKeys _ v = v

  unchanged_elsewhere :
      (id k : String) (change : SessionListItem → SessionListItem)
      → KeepsId change
      → some id ≢ some k
      → item_of k (change_item id change sessions) ≡ item_of k sessions
  unchanged_elsewhere id k change keeps other =
      item_of-change_item id change keeps k sessions ∙ ground (arith, other, eq_iff id k)

  unset_elsewhere :
      (id k : String) (pending : SessionListPermission) (count : ℕ)
      → some id ≢ some k
      → item_of k (set_session_list_permission h sessions id pending count current)
        ≡ item_of k sessions
  unset_elsewhere id k pending count other =
      item_of-set_session_list_permission h id pending count current k sessions
      ∙ ground (arith, other, eq_iff id k)

  -- An event that is not about a session leaves the session's item of the list as it is.
  pub apply_list-elsewhere :
      (event : RealtimeEvent) (k : String)
      → event_session event ≢ some k
      → item_of k (apply_session_list_realtime h c sessions event current) ≡ item_of k sessions
  unfolding apply_session_list_realtime update_session_list_status update_session_list_active_turn
      update_session_list_queue clear_session_list_permission
      update_session_list_review_availability update_session_list_continuity
      update_session_list_model
  apply_list-elsewhere (RealtimeEvent.session_status id _) k other =
      unchanged_elsewhere id k _ (λ item. refl) other
  apply_list-elsewhere (RealtimeEvent.active_turn_updated id _ _) k other =
      unchanged_elsewhere id k _ (λ item. refl) other
  apply_list-elsewhere (RealtimeEvent.queued_prompts_updated id _) k other =
      unchanged_elsewhere id k _ (λ item. refl) other
  apply_list-elsewhere (RealtimeEvent.permission_requested e) k other =
      unset_elsewhere e.permission.session_id k _ _ other
  apply_list-elsewhere (RealtimeEvent.permission_resolved e) k other =
      elim (Option-cases e.next_permission) [
        | inl last ↦ simp last (unchanged_elsewhere e.session_id k _ (λ item. refl) other)
        | inr (p, more) ↦ simp more (unset_elsewhere e.session_id k _ _ other)
      ]
  apply_list-elsewhere (RealtimeEvent.review_artifact a) k other =
      unchanged_elsewhere a.session_id k _ (λ item. refl) other
  apply_list-elsewhere (RealtimeEvent.session_restore_started id) k other =
      unchanged_elsewhere id k _ (λ item. refl) other
  apply_list-elsewhere (RealtimeEvent.session_restore_succeeded id) k other =
      unchanged_elsewhere id k _ (λ item. refl) other
  apply_list-elsewhere (RealtimeEvent.session_restore_failed id _) k other =
      unchanged_elsewhere id k _ (λ item. refl) other
  apply_list-elsewhere (RealtimeEvent.session_config_updated id _ _) k other =
      unchanged_elsewhere id k _ (λ item. refl) other
  apply_list-elsewhere _ k other = refl
