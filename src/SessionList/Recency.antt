-- ===== src/SessionList/Recency.antt =====
-- About frontend/src/app/sessionList.ts: the time of a session's latest activity under events.
use acp_webui.Common.{
  Option, none, some, List, [], ◌∷◌, String, ℕ, ◌==◌, ◌≡◌, refl, ◌∙◌, sym, ap, Bool, true, false,
  arith, is_empty, or_else, trim, truthy, eq_iff, Bool-cases, Option-cases, inl, inr, if◌then◌else◌,
}
use acp_webui.Common.Text.Laws.{trim_idem}
use acp_webui.Common.Host.{Host, Clock}
use acp_webui.Types.{RealtimeEvent, SessionDetail, SessionListItem, SessionListPermission}
use acp_webui.SessionList.{
  apply_session_list_realtime, change_item, clear_session_list_permission,
  set_session_list_permission, turn_activity_at, update_session_list_active_turn,
  update_session_list_continuity, update_session_list_model, update_session_list_queue,
  update_session_list_review_availability, update_session_list_status, waiting_list_item,
}
use acp_webui.SessionList.Activity.{latest_timestamp}
use acp_webui.SessionList.ActivityLaws.{
  IsAmong, ReachesTime, latest_timestamp-IsAmong, latest_timestamp_max, time_of,
}
use acp_webui.SessionList.Laws.{
  KeepsId, item_of, item_of-change_item, item_of-set_session_list_permission,
}

module _ (h : Host) where
  IsAmong-trimmed :
      (values : List (Option String)) (r : String)
      → IsAmong h r values
      → (trim r ≡ r) × (is_empty r ≡ false)
  IsAmong-trimmed [] r bad = absurd bad
  IsAmong-trimmed (none ∷ values) r among = IsAmong-trimmed values r among
  IsAmong-trimmed (some value ∷ values) r (inl (e, text)) =
      (ap trim e ∙ trim_idem value ∙ sym e, text)
  IsAmong-trimmed (some value ∷ values) r (inr among) = IsAmong-trimmed values r among

  -- The latest of a readable time and another value is not before it.
  latest_with :
      (old : String) (now : Option String) (t : ℕ)
      → time_of h (some old) ≡ some t
      → ReachesTime t (time_of h (some (or_else (latest_timestamp h (some old ∷ now ∷ [])) old)))
  latest_with old now t e =
      let (r, found, reached) = latest_timestamp_max h [] (now ∷ []) (some old) t e in
      let among = latest_timestamp-IsAmong h (some old ∷ now ∷ []) found in
      let (trimmed, text) = IsAmong-trimmed (some old ∷ now ∷ []) r among in
      rw (found, trimmed, text) reached

  -- The change does not move the item's latest activity back.
  abbrev NeverEarlier : (SessionListItem → SessionListItem) → Type 0
  NeverEarlier change =
      (item : SessionListItem) (t : ℕ)
      → time_of h (some item.last_activity_at) ≡ some t
      → ReachesTime t (time_of h (some (change item).last_activity_at))

  -- The session has an item, and its latest activity is not before `t`.
  abbrev pub IsActiveSince : ℕ → Option SessionListItem → Type 0
  IsActiveSince t o =
      (item : SessionListItem) × (o ≡ some item)
      × ReachesTime t (time_of h (some item.last_activity_at))

  latest_if :
      (b : Bool) (old : String) (now : Option String) (t : ℕ)
      → time_of h (some old) ≡ some t
      → ReachesTime t (
          time_of h
            (some (if b then or_else (latest_timestamp h (some old ∷ now ∷ [])) old else old)))
  latest_if true old now t e = latest_with old now t e
  latest_if false old now t e = (t, e, omega arith)

  module _ (sessions : List SessionListItem) (k : String) (item : SessionListItem) (t : ℕ)
      (held : item_of k sessions ≡ some item)
      (since : time_of h (some item.last_activity_at) ≡ some t) where
    changed-since :
        (id : String) (change : SessionListItem → SessionListItem)
        → KeepsId change
        → NeverEarlier change
        → IsActiveSince t (item_of k (change_item id change sessions))
    changed-since id change keeps never = elim (Bool-cases (id == k)) [
      | inl same ↦ (
        change item,
        item_of-change_item id change keeps k sessions ∙ ground (arith, held, same),
        never item t since,
      )
      | inr other ↦ (
        item,
        item_of-change_item id change keeps k sessions ∙ ground (arith, held, other),
        (t, since, omega arith),
      )
    ]

    set-since :
        (id : String) (pending : SessionListPermission) (count : ℕ) (current : Option SessionDetail)
        → IsActiveSince t
            (item_of k (set_session_list_permission h sessions id pending count current))
    set-since id pending count current = elim (Bool-cases (id == k)) [
      | inl same ↦
          let e : id ≡ k = (eq_iff id k).0 same in
          (
            waiting_list_item item pending count,
            item_of-set_session_list_permission h id pending count current k sessions
                ∙ ground (arith, held, same, e),
            (t, since, omega arith),
          )
      | inr other ↦ (
        item,
        item_of-set_session_list_permission h id pending count current k sessions
            ∙ ground (arith, held, other),
        (t, since, omega arith),
      )
    ]

    same_since :
        (id : String) (change : SessionListItem → SessionListItem)
        → KeepsId change
        → ((x : SessionListItem) → (change x).last_activity_at ≡ x.last_activity_at)
        → IsActiveSince t (item_of k (change_item id change sessions))
    same_since id change keeps same =
        changed-since id change keeps (λ x u e. rw (same x) (u, e, omega arith))

    -- An event keeps the item of a session in the list, and if the time of its latest activity can
    -- be read, it can be read afterwards and is not earlier.
    pub apply_list-IsActiveSince :
        (c : Clock) (event : RealtimeEvent) (current : Option SessionDetail)
        → IsActiveSince t (item_of k (apply_session_list_realtime h c sessions event current))
    unfolding apply_session_list_realtime update_session_list_status update_session_list_active_turn
        update_session_list_queue clear_session_list_permission
        update_session_list_review_availability update_session_list_continuity
        update_session_list_model
    apply_list-IsActiveSince c (RealtimeEvent.session_status id status) current =
        changed-since id _ (λ x. refl)
          (λ x u e. latest_if (status == "running") x.last_activity_at (some c.iso) u e)
    apply_list-IsActiveSince c (RealtimeEvent.active_turn_updated id status turn) current =
        changed-since id _ (λ x. refl)
          (λ x u e. latest_if (truthy (turn_activity_at c status turn)) x.last_activity_at _ u e)
    apply_list-IsActiveSince c (RealtimeEvent.queued_prompts_updated id _) current =
        same_since id _ (λ x. refl) (λ x. refl)
    apply_list-IsActiveSince c (RealtimeEvent.permission_requested e) current =
        set-since e.permission.session_id _ _ current
    apply_list-IsActiveSince c (RealtimeEvent.permission_resolved e) current =
        elim (Option-cases e.next_permission) [
          | inl last ↦ simp last (same_since e.session_id _ (λ x. refl) (λ x. refl))
          | inr (p, more) ↦ simp more (set-since e.session_id _ _ current)
        ]
    apply_list-IsActiveSince c (RealtimeEvent.review_artifact a) current =
        same_since a.session_id _ (λ x. refl) (λ x. refl)
    apply_list-IsActiveSince c (RealtimeEvent.session_restore_started id) current =
        same_since id _ (λ x. refl) (λ x. refl)
    apply_list-IsActiveSince c (RealtimeEvent.session_restore_succeeded id) current =
        same_since id _ (λ x. refl) (λ x. refl)
    apply_list-IsActiveSince c (RealtimeEvent.session_restore_failed id _) current =
        same_since id _ (λ x. refl) (λ x. refl)
    apply_list-IsActiveSince c (RealtimeEvent.session_config_updated id _ _) current =
        same_since id _ (λ x. refl) (λ x. refl)
    apply_list-IsActiveSince c _ current = (item, held, (t, since, omega arith))
