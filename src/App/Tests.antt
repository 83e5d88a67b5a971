-- ===== src/App/Tests.antt =====
-- The state of the page at concrete inputs.
use acp_webui.Common.{
  none, some, List, [], ◌∷◌, String, ◌==◌, ◌≡◌, ◌≢◌, refl, true, false, arith, eq_iff,
}
use acp_webui.Samples.{
  request_at, sample_clock, sample_detail, sample_entry, sample_host, sample_workspace,
  session_named,
}
use acp_webui.Types.{AuthStatus, RealtimeEvent, SessionDetail}
use acp_webui.Realtime.Queue.Ordered.{IsCollation}
use acp_webui.Realtime.Permissions.{resolved_session}
use acp_webui.SessionList.{session_detail_to_list_item}
use acp_webui.App.State.{UiState, initial_codex, initial_state}
use acp_webui.App.Details.{detail_after_resolved_permission}
use acp_webui.App.Recovery.{
  ProjectionRecoveryToken, Recovered, can_apply_projection_recovery, recover_projections,
}
use acp_webui.App.Actions.{permission_answered}
use acp_webui.App.Busy.{Outcome, run_busy_ended}
use acp_webui.Composer.Files.{Thrown}
use acp_webui.App.Initial.{Initial}
use acp_webui.App.Steps.{
  initially_loaded, workspace_updated, Action, message, permitted, perform_all, created, recovered,
}
use acp_webui.App.Tidy.{IsTidy}
use acp_webui.App.Tidy.Steps.{perform_all-IsTidy}
use acp_webui.App.Resolve.{
  at_status, detail_after_resolved_permission_eq, permission_answered_elsewhere, resolution_of,
}
use acp_webui.App.Opened.{IsAgreed, recover_projections-IsAgreed}

abbrev start : UiState
start = initial_state (some "w1") []

abbrev quiet_detail : SessionDetail
quiet_detail = record sample_detail {
  session = session_named "s2" "idle";
  pending_permission = none;
  pending_permissions = none;
}

abbrev opened : UiState
opened = record start {
  current_session = some sample_detail;
  sessions = session_detail_to_list_item sample_host sample_detail ∷ [];
  inbox = sample_entry ∷ [];
}

abbrev recovery : Recovered
recovery = record {
  codex = initial_codex;
  agents = [];
  inbox = sample_entry ∷ [];
  transcription = none;
  access = none;
  workspaces = sample_workspace ∷ [];
  sessions = session_detail_to_list_item sample_host quiet_detail ∷ [];
  detail = some sample_detail;
}

abbrev token : ProjectionRecoveryToken
token = record { generation = 2; workspace_id = some "w1"; agent_id = none; session_id = some "s1" }

abbrev responses : Initial
responses = record {
  codex = initial_codex;
  agents = [];
  inbox = sample_entry ∷ [];
  transcription = none;
  access = none;
  workspaces = sample_workspace ∷ [];
  sessions = session_detail_to_list_item sample_host quiet_detail ∷ [];
  stored_workspace_id = none;
  remembered_agents = [];
}

abbrev paired : AuthStatus
paired = record { access = "approved_device"; pairing_required = false; client_ip = none }

abbrev actions : List Action
actions =
    initially_loaded paired responses
    ∷ workspace_updated sample_workspace
    ∷ created sample_detail
    ∷ message sample_clock sample_clock (RealtimeEvent.session_status "s1" "running")
    ∷ recovered token 2 recovery
    ∷ permitted sample_clock (request_at "p1" "d")
    ∷ []

perform_all-IsTidy_example : IsTidy (perform_all sample_host start actions)
perform_all-IsTidy_example =
    perform_all-IsTidy sample_host start actions
      (((tt, tt), (tt, tt)), (tt, (tt, (tt, (((tt, tt), (tt, tt)), (tt, tt))))))
      (record { sessions = tt; inbox = tt })

-- The comparison of lengths is an order.
sample-IsCollation : IsCollation sample_host
sample-IsCollation = record { asym = λ a b h. ground arith; trans = λ a b c h k. ground arith }

texts_differ : (a b : String) → (a == b) ≡ false → a ≢ b
texts_differ a b h = λ e. ground (arith, eq_iff a b)

detail_after_resolved_permission_eq_example :
    (resolved_session sample_host (resolution_of sample_host sample_detail "p1" true) sample_detail
      ≡ detail_after_resolved_permission sample_host sample_detail "p1")
    × (resolved_session sample_host
          (resolution_of sample_host sample_detail "p1" false)
          sample_detail
        ≡ at_status sample_host sample_detail "p1" false)
detail_after_resolved_permission_eq_example =
    detail_after_resolved_permission_eq sample_host sample_detail "p1" sample-IsCollation
      ((texts_differ "p2" "p1" refl, tt), (tt, tt)) ((1, refl), ((2, refl), tt))

permission_answered_elsewhere_example :
    (e : SessionDetail) × ((permission_answered sample_host sample_clock
        (record start { current_session = some quiet_detail })
        (request_at "p1" "d")).current_session
      ≡ some e)
    × (e.session.id ≡ "s2")
    × (e.session.status ≡ "running")
permission_answered_elsewhere_example =
    permission_answered_elsewhere sample_host sample_clock
      (record start { current_session = some quiet_detail }) (request_at "p1" "d") quiet_detail refl
      refl

recover_projections-IsAgreed_example :
    IsAgreed "s1" (recover_projections sample_host token 2 opened recovery)
unfolding can_apply_projection_recovery
recover_projections-IsAgreed_example =
    recover_projections-IsAgreed sample_host token 2 opened recovery sample_detail refl refl refl
      refl

told :
    (run_busy_ended (λ e. false) paired opened (Outcome.rejected (Thrown.error "offline"))).error
    ≡ some "offline"
unfolding run_busy_ended
told = refl

signed_out_of :
    (run_busy_ended (λ e. true) paired opened (Outcome.rejected (Thrown.error "401"))).sessions ≡ []
unfolding run_busy_ended
signed_out_of = refl
