-- ===== src/Refresh/Laws.antt =====
-- About frontend/src/app/scopedSessionListRefresh.ts: when the response to a refresh is applied.
use acp_webui.Common.{
  Option, none, some, String, ◌+◌, ◌<◌, ◌≤◌, ◌≡◌, ◌⊎◌, inl, inr, refl, ap, true, false, arith,
  eq_iff, eq_refl, Bool-cases,
}
use acp_webui.Refresh.{
  ScopedSessionListRefreshState, ScopedSessionListRefreshToken, SessionListChanged,
  WorkspaceAgentScope, begin_scoped_session_list_refresh, can_apply_scoped_session_list_refresh,
  same_scope, same_text, should_refresh_scoped_session_list, sync_scoped_session_list_refresh_scope,
  event_of,
}

pub same_text_iff_eq : (a b : Option String) → same_text a b ≡ true → a ≡ b
same_text_iff_eq none none h = refl
same_text_iff_eq none (some b) h = cc
same_text_iff_eq (some a) none h = cc
same_text_iff_eq (some a) (some b) h = ap some ((eq_iff a b).0 h)

same_text_refl : (a : Option String) → same_text a a ≡ true
same_text_refl none = refl
same_text_refl (some a) = eq_refl a

same_scope_refl : (s : WorkspaceAgentScope) → same_scope s s ≡ true
unfolding same_scope
same_scope_refl s =
    ground (arith, same_text_refl s.current_workspace_id, same_text_refl s.current_agent_id)

same_scope-eq : (s t : WorkspaceAgentScope) → same_scope s t ≡ true → s ≡ t
unfolding same_scope
same_scope-eq s t h = ground (
  arith,
  same_text_iff_eq s.current_workspace_id t.current_workspace_id,
  same_text_iff_eq s.current_agent_id t.current_agent_id,
)

-- What may happen to the state between a request and its response.
pub data Step (s : ScopedSessionListRefreshState) : ScopedSessionListRefreshState → Type 0 where
  sync : (scope : WorkspaceAgentScope) → Step s (sync_scoped_session_list_refresh_scope s scope)
  begin : (event : SessionListChanged) → Step s (begin_scoped_session_list_refresh s event).0

pub data Reach (s : ScopedSessionListRefreshState) : ScopedSessionListRefreshState → Type 0 where
  here : Reach s s
  next : {t u : ScopedSessionListRefreshState} → Reach s t → Step t u → Reach s u

-- A step that requests no refresh and does not change the scope.
abbrev pub IsStill : {s t : ScopedSessionListRefreshState} → Step s t → Type 0
IsStill {s} (sync scope) = s.scope ≡ scope
IsStill {s} (begin event) = (begin_scoped_session_list_refresh s event).1 ≡ none

abbrev pub IsQuiet : {s t : ScopedSessionListRefreshState} → Reach s t → Type 0
IsQuiet here = Unit
IsQuiet (next r st) = IsQuiet r × IsStill st

-- The state is the same, or one of its two counters has grown and none has shrunk.
abbrev pub Grown : ScopedSessionListRefreshState → ScopedSessionListRefreshState → Type 0
Grown s t =
    (t ≡ s)
    ⊎ ((s.scope_version ≤ t.scope_version)
        × (s.request_generation ≤ t.request_generation)
        × (s.scope_version + s.request_generation < t.scope_version + t.request_generation))

Step-Grown : {s t : ScopedSessionListRefreshState} → Step s t → Grown s t
unfolding sync_scoped_session_list_refresh_scope begin_scoped_session_list_refresh
Step-Grown {s} (sync scope) = elim (Bool-cases (same_scope s.scope scope)) [
  | inl same ↦ inl (rw same)
  | inr changed ↦ rw changed (inr (omega arith, omega arith, omega arith))
]
Step-Grown {s} (begin event) =
    elim (Bool-cases (should_refresh_scoped_session_list (event_of event) s.scope)) [
      | inl wanted ↦ rw wanted (inr (omega arith, omega arith, omega arith))
      | inr other ↦ inl (rw other)
    ]

-- One of the two counters has grown and none has shrunk.
abbrev Rises : ScopedSessionListRefreshState → ScopedSessionListRefreshState → Type 0
Rises s t =
    (s.scope_version ≤ t.scope_version)
    × (s.request_generation ≤ t.request_generation)
    × (s.scope_version + s.request_generation < t.scope_version + t.request_generation)

Step-IsStill : {s t : ScopedSessionListRefreshState} (st : Step s t) → IsStill st ⊎ Rises s t
unfolding sync_scoped_session_list_refresh_scope begin_scoped_session_list_refresh
Step-IsStill {s} (sync scope) = elim (Bool-cases (same_scope s.scope scope)) [
  | inl same ↦ inl (same_scope-eq s.scope scope same)
  | inr changed ↦ inr (rw changed (omega arith, omega arith, omega arith))
]
Step-IsStill {s} (begin event) =
    elim (Bool-cases (should_refresh_scoped_session_list (event_of event) s.scope)) [
      | inl wanted ↦ inr (rw wanted (omega arith, omega arith, omega arith))
      | inr other ↦ inl (rw other)
    ]

Grown-trans : {s t u : ScopedSessionListRefreshState} → Grown s t → Grown t u → Grown s u
Grown-trans (inl p) (inl q) = inl (ground arith)
Grown-trans {s} {t} {u} (inl p) (inr q) = inr (ground arith)
Grown-trans {s} {t} {u} (inr p) (inl q) = inr (ground arith)
Grown-trans (inr p) (inr q) = inr (omega arith, omega arith, omega arith)

Reach-Grown : {s t : ScopedSessionListRefreshState} → Reach s t → Grown s t
Reach-Grown here = inl refl
Reach-Grown (next r st) = Grown-trans (Reach-Grown r) (Step-Grown st)

-- A step that is not still leaves counters that no step takes back.
Grown-Rises : (s t u : ScopedSessionListRefreshState) → Grown s t → Rises t u → Rises s u
Grown-Rises s t u (inl p) q = ground arith
Grown-Rises s t u (inr p) q = (omega arith, omega arith, omega arith)

Rises-Grown : (s t u : ScopedSessionListRefreshState) → Rises s t → Grown t u → Rises s u
Rises-Grown s t u p (inl q) = ground arith
Rises-Grown s t u p (inr q) = (omega arith, omega arith, omega arith)

Reach-IsQuiet : {s t : ScopedSessionListRefreshState} (r : Reach s t) → IsQuiet r ⊎ Rises s t
Reach-IsQuiet here = inl tt
Reach-IsQuiet {s = s} {t = u} (next {t = m} r st) = elim (Reach-IsQuiet r) [
  | inr risen ↦ inr (Rises-Grown s m u risen (Step-Grown st))
  | inl quiet ↦ elim (Step-IsStill st) [
    | inl still ↦ inl (quiet, still)
    | inr risen ↦ inr (Grown-Rises s m u (Reach-Grown r) risen)
  ]
]

module _ (s t : ScopedSessionListRefreshState) (event : SessionListChanged)
    (token : ScopedSessionListRefreshToken)
    (begun : begin_scoped_session_list_refresh s event ≡ (t, some token)) where
  token_versions :
      (token.scope_version ≡ t.scope_version) × (token.request_generation ≡ t.request_generation)
  unfolding begin_scoped_session_list_refresh
  token_versions = ground arith

  token_scope :
      (some token.workspace_id ≡ t.scope.current_workspace_id)
      × (token.agent_id ≡ t.scope.current_agent_id)
  unfolding begin_scoped_session_list_refresh should_refresh_scoped_session_list
  token_scope =
      ground (arith, same_text_iff_eq (some event.workspace_id) s.scope.current_workspace_id)

  -- If a response to a refresh is applied in a state that its request leads to, then no refresh was
  -- requested and the scope did not change on the way there, the state is the one that the request
  -- left, and the scope on screen is its scope.
  pub apply_only_current :
      {u : ScopedSessionListRefreshState} {scope : WorkspaceAgentScope} (r : Reach t u)
      → can_apply_scoped_session_list_refresh token u scope ≡ true
      → IsQuiet r × (u ≡ t) × (scope ≡ t.scope)
  unfolding can_apply_scoped_session_list_refresh
  apply_only_current {u} {scope} r h = elim (Reach-IsQuiet r) [
    | inr risen ↦ absurd (ground (arith, token_versions))
    | inl quiet ↦ elim (Reach-Grown r) [
      | inl same ↦ (quiet, same, ground (arith, same_scope-eq u.scope scope))
      | inr grown ↦ absurd (ground (arith, token_versions))
    ]
  ]

  -- The response to a refresh is applied if the state and the scope on screen are those that the
  -- request left.
  pub apply_current : can_apply_scoped_session_list_refresh token t t.scope ≡ true
  unfolding can_apply_scoped_session_list_refresh
  apply_current = ground (
    arith,
    token_versions,
    token_scope,
    same_scope_refl t.scope,
    same_text_refl (some token.workspace_id),
    same_text_refl token.agent_id,
  )

  -- The response to a refresh is not applied after a later refresh was requested, whatever happens
  -- before and after that.
  pub superseded :
      (u v w : ScopedSessionListRefreshState) (later : SessionListChanged)
      (token' : ScopedSessionListRefreshToken) (scope : WorkspaceAgentScope)
      → Reach t u
      → begin_scoped_session_list_refresh u later ≡ (v, some token')
      → Reach v w
      → can_apply_scoped_session_list_refresh token w scope ≡ false
  unfolding begin_scoped_session_list_refresh can_apply_scoped_session_list_refresh
  superseded u v w later token' scope r again r' =
      ground (arith, token_versions, Reach-Grown r, Reach-Grown r')

  -- The response to a refresh is not applied after the scope has changed, also if the scope on
  -- screen is the old one again.
  pub left_scope :
      (u w : ScopedSessionListRefreshState) (away scope : WorkspaceAgentScope)
      → Reach t u
      → same_scope u.scope away ≡ false
      → Reach (sync_scoped_session_list_refresh_scope u away) w
      → can_apply_scoped_session_list_refresh token w scope ≡ false
  unfolding sync_scoped_session_list_refresh_scope can_apply_scoped_session_list_refresh
  left_scope u w away scope r changed r' =
      ground (arith, token_versions, Reach-Grown r, Reach-Grown r')
