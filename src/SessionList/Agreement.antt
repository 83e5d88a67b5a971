-- ===== src/SessionList/Agreement.antt =====
-- About the list of frontend/src/app/sessionList.ts against the open session of
-- frontend/src/realtime.ts: App.tsx gives every event to both.
pub mod Requests
pub mod Events
pub mod Stale
use acp_webui.Common.{
  Option, none, some, List, [], ◌∷◌, ◌++◌, String, ℕ, ◌-◌, ◌<◌, ◌≤◌, ◌==◌, ◌≡◌, ◌≢◌, refl, ◌∙◌, sym,
  ap, Bool, true, false, arith, any, length, is_some, or_else, eq_iff, Bool-cases, Option-cases,
  inl, inr, if◌then◌else◌,
}
use acp_webui.Common.Host.{Host, Clock}
use acp_webui.Common.Sort.{insert, sort}
use acp_webui.Common.Keyed.{replace, upsert}
use acp_webui.Types.{
  PermissionRequest, PermissionRequested, PermissionResolved, RealtimeEvent, SessionContinuity,
  SessionDetail, SessionListItem, item_session_id,
}
use acp_webui.Realtime.{apply_realtime_event}
use acp_webui.Realtime.Snapshot.{AppSnapshot, normalize_session_status, on_current}
use acp_webui.Realtime.Continuity.{
  apply_session_restore_event, restored_continuity, restore_failed_continuity, restoring_continuity,
}
use acp_webui.Realtime.Queue.{
  approval_queue, merge_permission_queue, permission_after, permission_id, sort_permission_queue,
  with_approval_queue,
}
use acp_webui.Realtime.Queue.Laws.{with_approval_queue-shown}
use acp_webui.Realtime.Permissions.{change_current, requested_session}
use acp_webui.Realtime.Timeline.{apply_review_artifact, apply_timeline_item_upsert}
use acp_webui.Realtime.Identity.{current-requested}
use acp_webui.Realtime.Invariant.{on_current-some}
use acp_webui.SessionList
use acp_webui.SessionList.{
  apply_session_list_realtime, change_item, clear_session_list_permission, list_permission,
  list_permission?, normalize_session_list_status, session_detail_to_list_item,
  set_session_list_permission, update_session_list_active_turn, update_session_list_continuity,
  update_session_list_model, update_session_list_queue, update_session_list_review_availability,
  update_session_list_status, waiting_list_item,
}
use acp_webui.SessionList.Laws.{
  KeepsId, item_of, item_of-change_item, item_of-set_session_list_permission,
}

-- What the list shows of a session is what the open session shows. (The times of a restore are left
-- out: each of the two reads the clock for itself.)
pub record Agrees (d : SessionDetail) (item : SessionListItem) : Type 0 where
  pub status : d.session.status ≡ item.session.status
  pub waiting : is_some d.pending_permission ≡ is_some item.pending_permission
  pub turn : d.active_turn ≡ item.active_turn
  pub model : d.current_model ≡ item.current_model
  pub queued : some (length (or_else d.queued_prompts [])) ≡ item.queued_prompt_count
  pub continuity : d.continuity.state ≡ item.continuity.state
  pub continuable : d.continuable ≡ item.continuable
  pub reason : d.view_only_reason ≡ item.view_only_reason

-- The fields in turn.
pub agreed :
    {d : SessionDetail} {item : SessionListItem}
    → d.session.status ≡ item.session.status
    → is_some d.pending_permission ≡ is_some item.pending_permission
    → d.active_turn ≡ item.active_turn
    → d.current_model ≡ item.current_model
    → some (length (or_else d.queued_prompts [])) ≡ item.queued_prompt_count
    → d.continuity.state ≡ item.continuity.state
    → d.continuable ≡ item.continuable
    → d.view_only_reason ≡ item.view_only_reason
    → Agrees d item
agreed e f g h i j k l = record {
  status = e;
  waiting = f;
  turn = g;
  model = h;
  queued = i;
  continuity = j;
  continuable = k;
  reason = l;
}

-- The item that is made from a session agrees with it.
pub made-Agrees : (h : Host) (d : SessionDetail) → Agrees d (session_detail_to_list_item h d)
unfolding session_detail_to_list_item
made-Agrees h d = record {
  status = refl;
  waiting = waits d.pending_permission;
  turn = refl;
  model = refl;
  queued = refl;
  continuity = refl;
  continuable = refl;
  reason = refl;
}
  where
    waits : (p : Option PermissionRequest) → is_some p ≡ is_some (list_permission? p)
    waits none = refl
    waits (some p) = refl

-- The session `k` is open, the list holds it, and the two agree.
abbrev pub AgreeAt : String → AppSnapshot → List SessionListItem → Type 0
AgreeAt k state sessions =
    (d : SessionDetail) × (item : SessionListItem) × (state.current_session ≡ some d)
    × (d.session.id ≡ k)
    × (item_of k sessions ≡ some item)
    × Agrees d item

module _ (k : String) (state : AppSnapshot) (sessions : List SessionListItem) where
  -- Both make their change if the event is about the session, and none otherwise.
  pub both_change :
      (next : AppSnapshot) (id : String) (detail_change : SessionDetail → SessionDetail)
      (item_change : SessionListItem → SessionListItem)
      → next.current_session ≡ change_current id detail_change state.current_session
      → KeepsId item_change
      → ((d : SessionDetail) (item : SessionListItem)
          → Agrees d item
          → ((detail_change d).session.id ≡ d.session.id)
            × Agrees (detail_change d) (item_change item))
      → AgreeAt k state sessions
      → AgreeAt k next (change_item id item_change sessions)
  unfolding change_current
  both_change next id detail_change item_change changed keeps agree (d, item, shown, at, held, v) =
      let listed = item_of-change_item id item_change keeps k sessions in
      let (same_id, v') = agree d item v in
      elim (Bool-cases (d.session.id == id)) [
        | inl same ↦ (
          detail_change d,
          item_change item,
          changed ∙ ground (arith, shown, same),
          same_id ∙ at,
          listed ∙ ground (arith, held, eq_iff d.session.id id, eq_iff id k, same, at),
          v',
        )
        | inr other ↦ (
          d,
          item,
          changed ∙ ground (arith, shown, other),
          at,
          listed ∙ ground (arith, held, eq_iff d.session.id id, eq_iff id k, other, at),
          v,
        )
      ]

  on_current-changes :
      (id : String) (rest : SessionDetail → AppSnapshot) (change : SessionDetail → SessionDetail)
      → ((d : SessionDetail) → (rest d).current_session ≡ some (change d))
      → (on_current state id rest).current_session ≡ change_current id change state.current_session
  unfolding on_current change_current
  on_current-changes id rest change e = elim (Option-cases state.current_session) [
    | inl never ↦ ground arith
    | inr (d, shown) ↦ elim (Bool-cases (d.session.id == id)) [
      | inl same ↦ ground (arith, e d)
      | inr other ↦ ground arith
    ]
  ]

  pub both_change_current :
      (id : String) (rest : SessionDetail → AppSnapshot)
      (detail_change : SessionDetail → SessionDetail)
      (item_change : SessionListItem → SessionListItem)
      → ((d : SessionDetail) → (rest d).current_session ≡ some (detail_change d))
      → KeepsId item_change
      → ((d : SessionDetail) (item : SessionListItem)
          → Agrees d item
          → ((detail_change d).session.id ≡ d.session.id)
            × Agrees (detail_change d) (item_change item))
      → AgreeAt k state sessions
      → AgreeAt k (on_current state id rest) (change_item id item_change sessions)
  both_change_current id rest detail_change item_change e =
      both_change (on_current state id rest) id detail_change item_change
        (on_current-changes id rest detail_change e)

  -- A change that the list does not follow leaves alone what the list shows.
  pub detail_change_current :
      (id : String) (rest : SessionDetail → AppSnapshot)
      (detail_change : SessionDetail → SessionDetail)
      → ((d : SessionDetail) → (rest d).current_session ≡ some (detail_change d))
      → ((d : SessionDetail) (item : SessionListItem)
          → Agrees d item
          → ((detail_change d).session.id ≡ d.session.id) × Agrees (detail_change d) item)
      → AgreeAt k state sessions
      → AgreeAt k (on_current state id rest) sessions
  detail_change_current id rest change e agree (d, item, shown, at, held, v) =
      let (same_id, v') = agree d item v in
      elim (Bool-cases (d.session.id == id)) [
        | inl same ↦
            let changed : on_current state id rest ≡ rest d =
              on_current-some state id rest shown ∙ rw same refl in
            (change d, item, ap (λ s. s.current_session) changed ∙ e d, same_id ∙ at, held, v')
        | inr other ↦
            let unchanged : on_current state id rest ≡ state =
              on_current-some state id rest shown ∙ rw other refl in
            (d, item, ap (λ s. s.current_session) unchanged ∙ shown, at, held, v)
      ]

pub on_current-same :
    (state : AppSnapshot) (id : String) (rest : SessionDetail → AppSnapshot)
    → ((d : SessionDetail) → (rest d).current_session ≡ state.current_session)
    → (on_current state id rest).current_session ≡ state.current_session
unfolding on_current
on_current-same state id rest e = elim (Option-cases state.current_session) [
  | inl never ↦ ground arith
  | inr (d, shown) ↦ elim (Bool-cases (d.session.id == id)) [
    | inl same ↦ ground (arith, e d)
    | inr other ↦ ground arith
  ]
]
