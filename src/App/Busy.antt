-- ===== src/App/Busy.antt =====
-- `runBusy`, and `sendPrompt` which runs in it, of frontend/src/App.tsx: the state of the page, and how the
-- promise of the action ends for its caller.
use acp_webui.Common.{Option, none, some, Bool, true, false, if◌then◌else◌}
use acp_webui.Types.{AuthStatus}
use acp_webui.App.State.{UiState, clear_sensitive_state}
use acp_webui.Composer.Files.{Thrown, message_of}

-- How a promise ends.
pub data Outcome : Type 0 where
  resolved : Outcome
  rejected : Thrown → Outcome

-- The state before the action.
unfoldable pub run_busy : UiState → UiState
run_busy current = record current { busy = true; error = none }

-- The state after the action. The first argument is `isUnauthorized`, the second what `markUnauthorized`
-- then learns.
unfoldable pub run_busy_ended : (Thrown → Bool) → AuthStatus → UiState → Outcome → UiState
unfolding clear_sensitive_state
run_busy_ended is_unauthorized auth current Outcome.resolved = record current { busy = false }
run_busy_ended is_unauthorized auth current (Outcome.rejected thrown) =
    if is_unauthorized thrown
    then record (clear_sensitive_state current (some auth)) { busy = false }
    else record current { error = some (message_of thrown); busy = false }

-- What the caller awaits: the `catch` keeps every error.
unfoldable pub run_busy_outcome : Outcome → Outcome
run_busy_outcome Outcome.resolved = Outcome.resolved
run_busy_outcome (Outcome.rejected thrown) = Outcome.resolved

-- `sendPrompt`, from what `submitPromptToSession` comes to; `none` where no session is open.
unfoldable pub send_prompt : Option Outcome → Outcome
unfolding run_busy_outcome
send_prompt none = Outcome.resolved
send_prompt (some outcome) = run_busy_outcome outcome
