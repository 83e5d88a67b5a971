-- ===== src/App/Opened.antt =====
-- About frontend/src/App.tsx: a session that the server sends, in the state and in the list.
use acp_webui.Common.{
  some, List, String, ℕ, ◌≡◌, refl, ◌∙◌, ap, true, false, eq_refl, Bool-cases, inl, inr,
}
use acp_webui.Common.Host.{Host, Clock}
use acp_webui.Types.{RealtimeEvent, SessionDetail, SessionListItem}
use acp_webui.SessionList.{session_detail_to_list_item}
use acp_webui.SessionList.Laws.{item_of}
use acp_webui.SessionList.Agreement.{AgreeAt, made-Agrees}
use acp_webui.SessionList.Agreement.Events.{IsShared, apply-AgreeAt}
use acp_webui.App.State.{UiState}
use acp_webui.App.Details.{put_first, replace_session_in_state, shows}
use acp_webui.App.Recovery.{
  ProjectionRecoveryToken, Recovered, can_apply_projection_recovery,
  can_apply_recovered_session_detail, can_apply_recovered_session_list, recover_projections,
  recovered_base, recovered_detail, recovered_list,
}
use acp_webui.App.Messages.{reduce, snapshot_of}
use acp_webui.App.Actions.{approval_cancelled, session_created, session_restored}

-- The session `k` is open, the list holds it, and the two agree.
abbrev pub IsAgreed : String → UiState → Type 0
IsAgreed k s = AgreeAt k (snapshot_of s) s.sessions

item_of-put_first :
    (h : Host) (d : SessionDetail) (sessions : List SessionListItem)
    → item_of d.session.id (put_first h d sessions) ≡ some (session_detail_to_list_item h d)
unfolding put_first session_detail_to_list_item
item_of-put_first h d sessions = rw (eq_refl d.session.id) refl

opened-IsAgreed :
    (h : Host) (s : UiState) (d : SessionDetail) (sessions : List SessionListItem)
    → s.current_session ≡ some d
    → s.sessions ≡ put_first h d sessions
    → IsAgreed d.session.id s
opened-IsAgreed h s d sessions shown listed = (
  d,
  session_detail_to_list_item h d,
  shown,
  refl,
  ap (item_of d.session.id) listed ∙ item_of-put_first h d sessions,
  made-Agrees h d,
)

-- After a session
pub opened_agree :
    (h : Host) (current : UiState) (id : String) (d : SessionDetail)
    → IsAgreed d.session.id (session_created h current d)
      × IsAgreed d.session.id (session_restored h current d)
      × IsAgreed d.session.id (approval_cancelled h current id d)
unfolding session_created session_restored approval_cancelled
opened_agree h current id d = (
  opened-IsAgreed h (session_created h current d) d current.sessions refl refl,
  opened-IsAgreed h (session_restored h current d) d current.sessions refl refl,
  opened-IsAgreed h (approval_cancelled h current id d) d current.sessions refl refl,
)

-- When the open session is replaced by what the server sent, it is open, in the list and in
-- agreement with its item.
pub replace_session_in_state-IsAgreed :
    (h : Host) (current : UiState) (d : SessionDetail)
    → shows current.current_session d.session.id ≡ true
    → IsAgreed d.session.id (replace_session_in_state h current d)
unfolding replace_session_in_state
replace_session_in_state-IsAgreed h current d shown =
    opened-IsAgreed h (replace_session_in_state h current d) d current.sessions (rw shown refl) refl

recovered_list-current :
    (token : ProjectionRecoveryToken) (generation : ℕ) (current : UiState) (r : Recovered)
    → (recovered_list token generation (recovered_base current r) r).current_session
      ≡ current.current_session
unfolding recovered_list recovered_base
recovered_list-current token generation current r =
    elim (Bool-cases
      (can_apply_recovered_session_list token generation (recovered_base current r))) [
        | inl same ↦ rw same refl
        | inr left ↦ rw left refl
      ]

allowed_detail :
    (token : ProjectionRecoveryToken) (generation : ℕ) (next : UiState) (id : String)
    → can_apply_projection_recovery token generation ≡ true
    → token.session_id ≡ some id
    → shows next.current_session id ≡ true
    → can_apply_recovered_session_detail token generation next ≡ true
unfolding can_apply_recovered_session_detail
allowed_detail token generation next id latest asked shown = rw (latest, asked) shown

recovered_detail-IsAgreed :
    (h : Host) (token : ProjectionRecoveryToken) (generation : ℕ) (next : UiState)
    (d : SessionDetail)
    → can_apply_recovered_session_detail token generation next ≡ true
    → IsAgreed d.session.id (recovered_detail h token generation next (some d))
unfolding recovered_detail
recovered_detail-IsAgreed h token generation next d allowed =
    opened-IsAgreed h (recovered_detail h token generation next (some d)) d next.sessions
      (rw allowed refl) (rw allowed refl)

-- A recovery
pub recover_projections_stale :
    (h : Host) (token : ProjectionRecoveryToken) (generation : ℕ) (current : UiState)
    (r : Recovered)
    → can_apply_projection_recovery token generation ≡ false
    → recover_projections h token generation current r ≡ current
unfolding recover_projections
recover_projections_stale h token generation current r stale = rw stale refl

-- The latest recovery, if it brings the session that it asked for and that session is still open,
-- leaves it open, in the list and in agreement with its item.
pub recover_projections-IsAgreed :
    (h : Host) (token : ProjectionRecoveryToken) (generation : ℕ) (current : UiState)
    (r : Recovered) (d : SessionDetail)
    → can_apply_projection_recovery token generation ≡ true
    → r.detail ≡ some d
    → token.session_id ≡ some d.session.id
    → shows current.current_session d.session.id ≡ true
    → IsAgreed d.session.id (recover_projections h token generation current r)
unfolding recover_projections
recover_projections-IsAgreed h token generation current r d latest brought asked shown =
    let next = recovered_list token generation (recovered_base current r) r in
    let open_still : shows next.current_session d.session.id ≡ true =
      ap (λ o. shows o d.session.id) (recovered_list-current token generation current r) ∙ shown in
    simp (latest, brought)
      (recovered_detail-IsAgreed h token generation next d
        (allowed_detail token generation next d.session.id latest asked open_still))

-- A message that both reducers are given, other than a resolution and a request for which the server
-- counts none pending, keeps the agreement.
pub reduce-IsAgreed :
    (h : Host) (c c' : Clock) (k : String) (s : UiState) (message : RealtimeEvent)
    → IsShared message
    → IsAgreed k s
    → IsAgreed k (reduce h c c' s message)
unfolding reduce
reduce-IsAgreed h c c' k s message shared v =
    apply-AgreeAt h c c' k (snapshot_of s) s.sessions s.current_session message shared v
