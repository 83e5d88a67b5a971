-- ===== src/Summary/Laws.antt =====
-- About frontend/src/app/workspaceSummary.ts: the approvals that a workspace counts.
use acp_webui.Common.{
  List, [], ◌∷◌, String, ◌==◌, ◌≡◌, refl, ◌∙◌, ◌&&◌, ◌||◌, arith, any, filter, length, Bool-cases,
  inl, inr,
}
use acp_webui.Common.Host.{Host}
use acp_webui.Common.Sets.{add, has}
use acp_webui.Common.Sets.Laws.{HasNoRepeats, has-add, add_if-HasNoRepeats}
use acp_webui.Types.{InboxItem, SessionListItem, Workspace}
use acp_webui.Summary.{
  add, add_inbox, add_sessions, count_pending_approvals, pending_session_ids, summarize_workspace,
  waits,
}

has-add_sessions :
    (k : String) (sessions : List SessionListItem) (ids : List String)
    → has k (add_sessions sessions ids)
      ≡ (has k ids || any (λ item. waits item && item.session.id == k) sessions)
unfolding add_sessions
has-add_sessions k [] ids = ground arith
has-add_sessions k (item ∷ sessions) ids = elim (Bool-cases (waits item)) [
  | inl wait ↦ rw wait (
      has-add_sessions k sessions (add item.session.id ids)
      ∙ ground (arith, has-add k item.session.id ids))
  | inr calm ↦ rw calm (has-add_sessions k sessions ids)
]

has-add_inbox :
    (k workspace : String) (inbox : List InboxItem) (ids : List String)
    → has k (add_inbox workspace inbox ids)
      ≡ (has k ids || any (λ item. item.workspace.id == workspace && item.session.id == k) inbox)
unfolding add_inbox
has-add_inbox k workspace [] ids = ground arith
has-add_inbox k workspace (item ∷ inbox) ids = elim (Bool-cases (item.workspace.id == workspace)) [
  | inl own ↦ rw own (
      has-add_inbox k workspace inbox (add item.session.id ids)
      ∙ ground (arith, has-add k item.session.id ids))
  | inr other ↦ rw other (has-add_inbox k workspace inbox ids)
]

add_sessions-HasNoRepeats :
    (sessions : List SessionListItem) (ids : List String)
    → HasNoRepeats ids
    → HasNoRepeats (add_sessions sessions ids)
unfolding add_sessions
add_sessions-HasNoRepeats [] ids v = v
add_sessions-HasNoRepeats (item ∷ sessions) ids v =
    add_sessions-HasNoRepeats sessions _ (add_if-HasNoRepeats (waits item) item.session.id ids v)

add_inbox-HasNoRepeats :
    (workspace : String) (inbox : List InboxItem) (ids : List String)
    → HasNoRepeats ids
    → HasNoRepeats (add_inbox workspace inbox ids)
unfolding add_inbox
add_inbox-HasNoRepeats workspace [] ids v = v
add_inbox-HasNoRepeats workspace (item ∷ inbox) ids v =
    add_inbox-HasNoRepeats workspace inbox _
      (add_if-HasNoRepeats (item.workspace.id == workspace) item.session.id ids v)

-- A workspace counts the sessions with an approval, each once: the number is the length of a list
-- of ids without repetitions, and it has an id exactly if a session of the workspace in the list
-- waits for an approval, or an entry of the inbox is of the workspace, with that id.
pub pending_approvals_lem :
    (h : Host) (workspace : Workspace) (sessions : List SessionListItem) (inbox : List InboxItem)
    → (ids : List String) × ((summarize_workspace h workspace sessions inbox).pending_approvals
        ≡ length ids)
      × HasNoRepeats ids
      × ((k : String)
          → has k ids ≡ (
              any
                (λ item. waits item && item.session.id == k)
                (filter (λ item. item.workspace.id == workspace.id) sessions)
              || any (λ item. item.workspace.id == workspace.id && item.session.id == k) inbox))
unfolding summarize_workspace count_pending_approvals pending_session_ids
pending_approvals_lem h workspace sessions inbox =
    let own = filter (λ item. item.workspace.id == workspace.id) sessions in
    (
      pending_session_ids workspace.id own inbox,
      refl,
      add_inbox-HasNoRepeats workspace.id inbox _ (add_sessions-HasNoRepeats own [] tt),
      λ k.
          has-add_inbox k workspace.id inbox (add_sessions own [])
          ∙ ground (arith, has-add_sessions k own []),
    )
