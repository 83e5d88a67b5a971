-- ===== src/App/Tidy/Answers.antt =====
-- About frontend/src/App.tsx: the items of the list and the entries of the inbox when an approval
-- is answered.
use acp_webui.Common.{
  none, some, List, map, String, ℕ, ◌==◌, ◌≡◌, refl, not, arith, filter, Bool-cases, Option-cases,
  inl, inr, ◌⊎◌, or_else, if◌then◌else◌,
}
use acp_webui.Common.Host.{Host, Clock}
use acp_webui.Common.Keyed.Laws.{HasDistinctKeys, filter-HasDistinctKeys}
use acp_webui.Common.Keyed.Mapped.{map-HasDistinctKeys}
use acp_webui.Types.{PermissionRequest, SessionDetail, SessionListItem, InboxItem}
use acp_webui.Realtime.Permissions.{waiting_item}
use acp_webui.Realtime.Inbox.{inbox_key}
use acp_webui.SessionList.{
  clear_session_list_permission, list_permission, set_session_list_permission,
  update_session_list_status,
}
use acp_webui.SessionList.Laws.{change_item-HasDistinctKeys, item_key, set-HasDistinctKeys}
use acp_webui.App.State.{UiState}
use acp_webui.App.Details.{detail_after_resolved_permission}
use acp_webui.App.Actions.{permission_answered}
use acp_webui.App.Tidy.{IsTidy, status-HasDistinctKeys}

-- What an answered approval leaves in the list and in the inbox.
abbrev answered_sessions :
    Host → Clock → UiState → PermissionRequest → SessionDetail → List SessionListItem
answered_sessions h c s p next = elim next.pending_permission [
  | none ↦
      clear_session_list_permission
        (update_session_list_status h c s.sessions p.session_id "running") p.session_id
  | some pending ↦
      set_session_list_permission h s.sessions p.session_id (list_permission pending)
        (or_else next.queued_approval_count 0) (some next)
]

abbrev answered_inbox : UiState → PermissionRequest → SessionDetail → List InboxItem
answered_inbox s p next = elim next.pending_permission [
  | none ↦ filter (λ item. not (item.session.id == p.session_id)) s.inbox
  | some pending ↦
      map
        (λ item.
          if item.session.id == p.session_id
          then waiting_item item pending (or_else next.queued_approval_count 0)
          else item)
        s.inbox
]

permission_answered-cases :
    (h : Host) (c : Clock) (s : UiState) (p : PermissionRequest)
    → (permission_answered h c s p ≡ s)
      ⊎ ((next : SessionDetail) × ((permission_answered h c s p).sessions
            ≡ answered_sessions h c s p next)
          × ((permission_answered h c s p).inbox ≡ answered_inbox s p next))
unfolding permission_answered
permission_answered-cases h c s p = elim (Option-cases s.current_session) [
  | inl never ↦ inl (ground arith)
  | inr (d, shown) ↦ inr (detail_after_resolved_permission h d p.id, rw shown refl, rw shown refl)
]

module _ (h : Host) (s : UiState) (v : IsTidy s) where
  cleared-HasDistinctKeys :
      (c : Clock) (id : String)
      → HasDistinctKeys item_key (
          clear_session_list_permission (update_session_list_status h c s.sessions id "running") id)
  unfolding clear_session_list_permission
  cleared-HasDistinctKeys c id =
      change_item-HasDistinctKeys id _ (λ item. refl) _
        (status-HasDistinctKeys h s v c id "running")

  kept_entry :
      (p : PermissionRequest) (pending : PermissionRequest) (count : ℕ) (item : InboxItem)
      → inbox_key
          (if item.session.id == p.session_id then waiting_item item pending count else item)
        ≡ inbox_key item
  unfolding waiting_item
  kept_entry p pending count item = elim (Bool-cases (item.session.id == p.session_id)) [
    | inl same ↦ rw same refl
    | inr other ↦ rw other refl
  ]

  answered_sessions-HasDistinctKeys :
      (c : Clock) (p : PermissionRequest) (next : SessionDetail)
      → HasDistinctKeys item_key (answered_sessions h c s p next)
  answered_sessions-HasDistinctKeys c p next = elim (Option-cases next.pending_permission) [
    | inl last ↦ rw last (cleared-HasDistinctKeys c p.session_id)
    | inr (pending, more) ↦ rw more (set-HasDistinctKeys h p.session_id _ _ _ s.sessions v.sessions)
  ]

  answered_inbox-HasDistinctKeys :
      (p : PermissionRequest) (next : SessionDetail)
      → HasDistinctKeys inbox_key (answered_inbox s p next)
  answered_inbox-HasDistinctKeys p next = elim (Option-cases next.pending_permission) [
    | inl last ↦ rw last (filter-HasDistinctKeys inbox_key _ s.inbox v.inbox)
    | inr (pending, more) ↦
        rw more (map-HasDistinctKeys inbox_key _ (kept_entry p pending _) s.inbox v.inbox)
  ]

  pub permission-IsTidy : (c : Clock) (p : PermissionRequest) → IsTidy (permission_answered h c s p)
  permission-IsTidy c p = elim (permission_answered-cases h c s p) [
    | inl same ↦ simp same v
    | inr (next, listed, waiting) ↦ record {
      sessions = rw listed (answered_sessions-HasDistinctKeys c p next);
      inbox = rw waiting (answered_inbox-HasDistinctKeys p next);
    }
  ]
