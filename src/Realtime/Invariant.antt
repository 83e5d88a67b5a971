-- ===== src/Realtime/Invariant.antt =====
-- Invariants of the open session: one rule for each way that a handler changes it, and for runs.
use acp_webui.Common.{
  Option, none, some, String, ◌==◌, ◌≡◌, sym, inl, inr, arith, Option-cases, Bool-cases,
  if◌then◌else◌,
}
use mathlib.Core.Path.{subst}
use acp_webui.Types.{SessionDetail}
use acp_webui.Realtime.Snapshot.{AppSnapshot, on_current}
use acp_webui.Realtime.Permissions.{change_current}

-- The guard on the session's id, at a session that is open.
pub on_current-some :
    (state : AppSnapshot) (id : String) (rest : SessionDetail → AppSnapshot) {d : SessionDetail}
    → state.current_session ≡ some d
    → on_current state id rest ≡ (if d.session.id == id then rest d else state)
unfolding on_current
on_current-some state id rest {d} e = ground arith

-- The guard, where no session is open.
pub on_current-none :
    (state : AppSnapshot) (id : String) (rest : SessionDetail → AppSnapshot)
    → state.current_session ≡ none
    → on_current state id rest ≡ state
unfolding on_current
on_current-none state id rest e = ground arith

module _ (P : SessionDetail → Type 0) where
  -- The open session, if there is one, has `P`.
  abbrev pub CurrentHas : Option SessionDetail → Type 0
  CurrentHas none = Unit
  CurrentHas (some d) = P d

  pub CurrentHas-change_current :
      (id : String) (change : SessionDetail → SessionDetail) (current : Option SessionDetail)
      → ((d : SessionDetail) → P d → P (change d))
      → CurrentHas current
      → CurrentHas (change_current id change current)
  unfolding change_current
  CurrentHas-change_current id change none keeps v = tt
  CurrentHas-change_current id change (some d) keeps v = elim (Bool-cases (d.session.id == id)) [
    | inl same ↦ rw same (keeps d v)
    | inr other ↦ rw other v
  ]

  pub CurrentHas-on_current :
      (state : AppSnapshot) (id : String) (rest : SessionDetail → AppSnapshot)
      → ((d : SessionDetail)
          → state.current_session ≡ some d
          → P d
          → CurrentHas (rest d).current_session)
      → CurrentHas state.current_session
      → CurrentHas (on_current state id rest).current_session
  CurrentHas-on_current state id rest keeps v = elim (Option-cases state.current_session) [
    | inl e ↦ simp (on_current-none state id rest e) v
    | inr (d, e) ↦ simp (on_current-some state id rest e) (elim (Bool-cases (d.session.id == id)) [
      | inl same ↦ rw same (keeps d e (subst CurrentHas e v))
      | inr other ↦ rw other v
    ])
  ]

  -- What an event leaves alone is kept by it.
  pub CurrentHas-same :
      (state : AppSnapshot) {d : SessionDetail}
      → state.current_session ≡ some d
      → P d
      → CurrentHas state.current_session
  CurrentHas-same state e p = subst CurrentHas (sym e) p
