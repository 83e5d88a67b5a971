-- ===== src/Realtime/Restore.antt =====
-- About the continuity of the open session in frontend/src/realtime.ts, and what its detail says
-- about prompts.
use acp_webui.Realtime.Preserve.{Keeps, run-keeps}
use acp_webui.Common.{[], ◌∷◌, All, none, List, ◌≡◌, refl, true, false, arith}
use acp_webui.Common.Host.{Host, Clock}
use acp_webui.Types.{PermissionRequested, PermissionResolved, RealtimeEvent, SessionDetail}
use acp_webui.Realtime.{run}
use acp_webui.Realtime.Snapshot.{AppSnapshot}
use acp_webui.Realtime.Queue.{with_approval_queue}
use acp_webui.Realtime.Permissions.{requested_session, resolved_session}
use acp_webui.Realtime.Invariant.{CurrentHas}

-- A session takes prompts exactly when its continuity says so, then shows no reason against it, and
-- does not take prompts while it is being restored.
pub record IsCoherent (d : SessionDetail) : Type 0 where
  pub agrees : d.continuable ≡ d.continuity.continuable
  pub no_reason : d.continuable ≡ true → d.view_only_reason ≡ none
  pub not_both : d.continuity.restoring ≡ true → d.continuable ≡ false

-- Coherence reads these fields alone.
IsCoherent-of_same :
    (d e : SessionDetail)
    → d.continuable ≡ e.continuable
    → d.continuity ≡ e.continuity
    → d.view_only_reason ≡ e.view_only_reason
    → IsCoherent d
    → IsCoherent e
IsCoherent-of_same d e p q r v = record {
  agrees = ground (arith, v.agrees);
  no_reason = λ h. ground (arith, v.no_reason);
  not_both = λ h. ground (arith, v.not_both);
}

every_allowed : (events : List (Clock × RealtimeEvent)) → All (λ _. Unit {0}) events
every_allowed [] = tt
every_allowed (_ ∷ events) = (tt, every_allowed events)

requested-IsCoherent :
    (h : Host) (e : PermissionRequested) (d : SessionDetail)
    → IsCoherent d
    → IsCoherent (requested_session h e d)
unfolding requested_session with_approval_queue
requested-IsCoherent h e d = IsCoherent-of_same d _ refl refl refl

resolved-IsCoherent :
    (h : Host) (e : PermissionResolved) (d : SessionDetail)
    → IsCoherent d
    → IsCoherent (resolved_session h e d)
unfolding resolved_session with_approval_queue
resolved-IsCoherent h e d = IsCoherent-of_same d _ refl refl refl

IsCoherent-keeps : (h : Host) → Keeps h (λ _. Unit) IsCoherent
IsCoherent-keeps h = record {
  messages = λ d _. IsCoherent-of_same d _ refl refl refl;
  status = λ d _. IsCoherent-of_same d _ refl refl refl;
  turn = λ d _. IsCoherent-of_same d _ refl refl refl;
  config = λ d _ _. IsCoherent-of_same d _ refl refl refl;
  prompts = λ d _. IsCoherent-of_same d _ refl refl refl;
  artifacts = λ d _. IsCoherent-of_same d _ refl refl refl;
  timeline = λ d _. IsCoherent-of_same d _ refl refl refl;
  restore = λ d next apart w. record { agrees = refl; no_reason = λ p. rw p; not_both = apart };
  requested = λ d e _. requested-IsCoherent h e d;
  resolved = λ d e _. resolved-IsCoherent h e d;
}

-- Through every run of events an open session stays coherent, if it starts so: it takes prompts
-- exactly if its continuity says so, shows no reason against it if it does, and does not take
-- prompts while it is being restored.
pub run-IsCoherent :
    (h : Host) (state : AppSnapshot) (events : List (Clock × RealtimeEvent))
    → CurrentHas IsCoherent state.current_session
    → CurrentHas IsCoherent (run h state events).current_session
run-IsCoherent h state events v =
    run-keeps h (λ _. Unit) IsCoherent (IsCoherent-keeps h) state events (every_allowed events) v
