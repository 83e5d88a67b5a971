-- ===== src/App/Tidy/Actions.antt =====
-- About frontend/src/App.tsx: the items of the list and the entries of the inbox under actions.
use acp_webui.Common.{
  Option, List, String, ◌==◌, ◌≡◌, refl, arith, Bool-cases, Option-cases, inl, inr, ◌⊎◌,
}
use acp_webui.Common.Host.{Host, Clock}
use acp_webui.Common.Keyed.Laws.{filter-HasDistinctKeys}
use acp_webui.Types.{SessionConfigOption, SessionCurrentModel, SessionDetail}
use acp_webui.Realtime.Inbox.{inbox_key}
use acp_webui.SessionList.{update_session_list_model}
use acp_webui.SessionList.Laws.{change_item-HasDistinctKeys}
use acp_webui.App.State.{UiState}
use acp_webui.App.Details.{is_active_status, replace_session_in_state}
use acp_webui.App.Actions.{
  PromptResponse, approval_cancelled, if_shown, prompt_answered, prompt_failed, prompt_reconciled,
  prompt_submitted, session_config_option_set, session_restored,
}
use acp_webui.App.Tidy.{IsTidy, put_first-HasDistinctKeys, status-HasDistinctKeys}

if_shown-cases :
    (s : UiState) (id : String) (change : SessionDetail → UiState)
    → (if_shown s id change ≡ s) ⊎ ((d : SessionDetail) × (if_shown s id change ≡ change d))
unfolding if_shown
if_shown-cases s id change = elim (Option-cases s.current_session) [
  | inl never ↦ inl (ground arith)
  | inr (d, shown) ↦ elim (Bool-cases (d.session.id == id)) [
    | inl same ↦ inr (d, ground arith)
    | inr other ↦ inl (ground arith)
  ]
]

module _ (h : Host) (s : UiState) (v : IsTidy s) where
  if_shown-IsTidy :
      (id : String) (change : SessionDetail → UiState)
      → ((d : SessionDetail) → IsTidy (change d))
      → IsTidy (if_shown s id change)
  if_shown-IsTidy id change w = elim (if_shown-cases s id change) [
    | inl same ↦ simp same v
    | inr (d, changed) ↦ simp changed (w d)
  ]

  pub restored-IsTidy : (d : SessionDetail) → IsTidy (session_restored h s d)
  unfolding session_restored
  restored-IsTidy d = record {
    sessions = put_first-HasDistinctKeys h s v d s.sessions v.sessions;
    inbox = v.inbox;
  }

  pub submitted-IsTidy :
      (c : Clock) (id previous : String) → IsTidy (prompt_submitted h c s id previous)
  unfolding prompt_submitted
  submitted-IsTidy c id previous = if_shown-IsTidy id _ (λ d. record {
    sessions = elim (Bool-cases (is_active_status previous)) [
      | inl active ↦ rw active v.sessions
      | inr fresh ↦ rw fresh (status-HasDistinctKeys h s v c id "running")
    ];
    inbox = v.inbox;
  })

  pub failed-IsTidy : (c : Clock) (id previous : String) → IsTidy (prompt_failed h c s id previous)
  unfolding prompt_failed
  failed-IsTidy c id previous = if_shown-IsTidy id _ (λ d.
      elim (Bool-cases (d.session.status == "running")) [
        | inl running ↦
            rw running
              (record { sessions = status-HasDistinctKeys h s v c id previous; inbox = v.inbox })
        | inr other ↦ rw other v
      ])

  pub reconciled-IsTidy : (id : String) (d : SessionDetail) → IsTidy (prompt_reconciled h s id d)
  unfolding prompt_reconciled
  reconciled-IsTidy id d = if_shown-IsTidy id _ (λ _. record {
    sessions = put_first-HasDistinctKeys h s v d s.sessions v.sessions;
    inbox = v.inbox;
  })

  pub answered-IsTidy : (id : String) (r : PromptResponse) → IsTidy (prompt_answered h s id r)
  unfolding prompt_answered
  answered-IsTidy id r = if_shown-IsTidy id _ (λ d. record {
    sessions = elim (Option-cases r.queued_prompts) [
      | inl none_sent ↦ simp none_sent v.sessions
      | inr (prompts, sent) ↦
          simp sent (change_item-HasDistinctKeys id _ (λ item. refl) s.sessions v.sessions)
    ];
    inbox = v.inbox;
  })

  pub option-IsTidy :
      (id : String) (options : Option (List SessionConfigOption))
      (model : Option SessionCurrentModel)
      → IsTidy (session_config_option_set s id options model)
  unfolding session_config_option_set update_session_list_model
  option-IsTidy id options model = if_shown-IsTidy id _ (λ d. record {
    sessions = change_item-HasDistinctKeys id _ (λ item. refl) s.sessions v.sessions;
    inbox = v.inbox;
  })

  pub cancelled-IsTidy : (id : String) (d : SessionDetail) → IsTidy (approval_cancelled h s id d)
  unfolding approval_cancelled
  cancelled-IsTidy id d = record {
    sessions = put_first-HasDistinctKeys h s v d s.sessions v.sessions;
    inbox = filter-HasDistinctKeys inbox_key _ s.inbox v.inbox;
  }

  pub replaced-IsTidy : (d : SessionDetail) → IsTidy (replace_session_in_state h s d)
  unfolding replace_session_in_state
  replaced-IsTidy d = record {
    sessions = put_first-HasDistinctKeys h s v d s.sessions v.sessions;
    inbox = v.inbox;
  }
