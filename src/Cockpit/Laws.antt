-- ===== src/Cockpit/Laws.antt =====
-- About frontend/src/app/sessionCockpit.ts: the sessions that the cockpit shows, and their order.
use acp_webui.Common.{
  ℕ, ◌<◌, ◌⊎◌, is_gt, ltb, ltb→lt, or_else, Option, none, List, [], ◌∷◌, String, suc, ◌≡◌, refl,
  ◌∙◌, sym, ap, true, false, ◌&&◌, arith, All, All-filter, filter, length, Bool-cases, inl, inr,
}
use acp_webui.Common.Host.{Host, date_order}
use acp_webui.Common.Host.Laws.{IsDate}
use acp_webui.Common.Sort.{insert, sort}
use acp_webui.Common.Sort.Laws.{
  IsOrder, IsSorted-Pairwise, Pairwise, sort-All, sort-IsSorted, sort-perm,
}
use mathlib.Core.List.{Perm}
use acp_webui.Types.{SessionListItem}
use acp_webui.Realtime.Queue.Ordered.{IsCollation}
use acp_webui.Cockpit.{
  SessionStatusFilter, activity_after, filter_cockpit_sessions, pending_approval_session_count,
  session_matches_agent, session_matches_status, sort_sessions_by_latest_activity,
}

-- The host can read the time of the latest activity.
abbrev pub HasActivity : Host → SessionListItem → Type 0
HasActivity h item = IsDate h item.last_activity_at

-- The time of the latest activity of a session that has one.
abbrev pub activity : Host → SessionListItem → ℕ
activity h item = or_else (h.parse_date item.last_activity_at) 0

-- A session has a later activity, or one at the same time and an id that does not collate after.
abbrev pub ComesFirst : Host → SessionListItem → SessionListItem → Type 0
ComesFirst h x y =
    (activity h y < activity h x)
    ⊎ ((activity h x ≡ activity h y) × (is_gt (h.locale_compare x.session.id y.session.id) ≡ false))

module _ (h : Host) (collation : IsCollation h) where
  activity_after-asym :
      (x y : SessionListItem)
      → HasActivity h x
      → HasActivity h y
      → activity_after h x y ≡ true
      → activity_after h y x ≡ false
  unfolding activity_after date_order
  activity_after-asym x y (s, p) (t, q) later =
      ground (arith, collation.asym x.session.id y.session.id)

  activity_after_trans :
      (x y z : SessionListItem)
      → HasActivity h x
      → HasActivity h y
      → HasActivity h z
      → activity_after h x y ≡ false
      → activity_after h y z ≡ false
      → activity_after h x z ≡ false
  unfolding activity_after date_order
  activity_after_trans x y z (s, p) (t, q) (u, r) k l =
      ground (arith, collation.trans x.session.id y.session.id z.session.id)

  activity_after-IsOrder : IsOrder (activity_after h) (HasActivity h)
  activity_after-IsOrder = record { asym = activity_after-asym; trans = activity_after_trans }

  activity_after-first :
      (x y : SessionListItem)
      → HasActivity h x
      → HasActivity h y
      → activity_after h x y ≡ false
      → ComesFirst h x y
  unfolding activity_after date_order
  activity_after-first x y (s, p) (t, q) e = elim (Bool-cases (ltb (activity h y) (activity h x))) [
    | inl later ↦ inl (ltb→lt _ _ later)
    | inr other ↦ inr (ground arith, ground arith)
  ]

  -- What the cockpit shows is a permutation of the sessions that match the filters, and each has a
  -- later activity than every one after it, or one at the same time and an id that does not collate
  -- after the other's, if the times of the activities can be read and the comparison of ids is an
  -- order.
  pub filter_cockpit_sessions-Pairwise :
      (sessions : List SessionListItem) (status : SessionStatusFilter) (agent : Option String)
      → All (HasActivity h) sessions
      → Pairwise (ComesFirst h) (filter_cockpit_sessions h sessions status agent)
        × Perm (filter_cockpit_sessions h sessions status agent) (
            filter
              (λ item. session_matches_status item status && session_matches_agent item agent)
              sessions)
  unfolding filter_cockpit_sessions sort_sessions_by_latest_activity
  filter_cockpit_sessions-Pairwise sessions status agent dated = (
    (let shown = All-filter (HasActivity h) _ sessions dated in
        IsSorted-Pairwise (ComesFirst h) activity_after-first _
          (sort-All (activity_after h) (HasActivity h) _ shown)
          (sort-IsSorted activity_after-IsOrder _ shown)),
    sort-perm (activity_after h) _,
  )

length-insert :
    (h : Host) (x : SessionListItem) (xs : List SessionListItem)
    → length (insert (activity_after h) x xs) ≡ suc (length xs)
unfolding insert
length-insert h x [] = refl
length-insert h x (y ∷ ys) = ground (arith, length-insert h x ys)

length-sort :
    (h : Host) (xs : List SessionListItem) → length (sort (activity_after h) xs) ≡ length xs
unfolding sort
length-sort h [] = refl
length-sort h (x ∷ xs) = length-insert h x (sort (activity_after h) xs) ∙ ap suc (length-sort h xs)

length-matches :
    (sessions : List SessionListItem) (status : SessionStatusFilter)
    → length (
        filter
          (λ item. session_matches_status item status && session_matches_agent item none)
          sessions)
      ≡ length (filter (λ item. session_matches_status item status) sessions)
unfolding session_matches_agent
length-matches [] status = refl
length-matches (x ∷ xs) status = elim (Bool-cases (session_matches_status x status)) [
  | inl match ↦ rw match (ap suc (length-matches xs status))
  | inr other ↦ rw other (length-matches xs status)
]

-- The count of sessions with an approval pending is the number of sessions that the cockpit shows
-- with that filter and no filter of agents.
pub pending_approval_session_count_eq :
    (h : Host) (sessions : List SessionListItem)
    → pending_approval_session_count sessions
      ≡ length (filter_cockpit_sessions h sessions SessionStatusFilter.pending_approval none)
unfolding pending_approval_session_count filter_cockpit_sessions sort_sessions_by_latest_activity
pending_approval_session_count_eq h sessions =
    sym (length-sort h _ ∙ length-matches sessions SessionStatusFilter.pending_approval)
