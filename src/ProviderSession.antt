-- ===== src/ProviderSession.antt =====
-- provider_session.py: the state of one provider-backed session, as far as decisions about it are
-- concerned, and what the provider may be seen to send. ProviderSession/Decisions.antt has the
-- decisions and ProviderSession/Operations.antt the operations. The tasks that clean up the provider's
-- operation are not modelled.
pub mod Decisions
pub mod Operations
pub mod Streamed
pub mod Soundness
pub mod SoundRuns
pub mod Shown
pub mod ShownObservations
pub mod ShownRuns
pub mod Emission
pub mod Selection
pub mod Stays
pub mod Deadline
mod Examples
use code_assist_harness.Prelude.{
  ℕ, ◌+◌, String, Option, none, some, Bool, false, List, [], ◌∷◌, ◌++◌, Text, codes, PyValue,
  Checked, ◌>>=◌, ◌>>◌, require, ok,
}
use code_assist_harness.Protocol.{SessionEvent}
use code_assist_harness.Limits.{LoopLimits, require_counter}
use code_assist_harness.Limits.Tracker.{LoopLimitTracker, fresh_tracker}
use code_assist_harness.Session.{SessionState, initial_session_state, SessionUpdate, task_submitted}
use code_assist_harness.Session.Reducer.{reduce_session_state}

abbrev pub max_provider_turn_output_bytes : ℕ
max_provider_turn_output_bytes = 8192

abbrev pub max_model_usage_tokens : ℕ
max_model_usage_tokens = 9007199254740991

-- `ProviderFailureCode`, and the session's code for it, `f"provider_{code}"`.
pub data ProviderFailureCode : Type 0 where
  authentication_failed rate_limited request_rejected : ProviderFailureCode
  unavailable invalid_response unknown : ProviderFailureCode

abbrev pub provider_failure_code : ProviderFailureCode → String
provider_failure_code authentication_failed = "provider_authentication_failed"
provider_failure_code rate_limited = "provider_rate_limited"
provider_failure_code request_rejected = "provider_request_rejected"
provider_failure_code unavailable = "provider_unavailable"
provider_failure_code invalid_response = "provider_invalid_response"
provider_failure_code unknown = "provider_unknown"

-- `ProviderStreamEvent`, with what the session reads of each event; `unsupported` is any other value.
pub data Observation : Type 0 where
  text_delta : Text → Observation
  text_completed : Text → Observation
  usage_reported : PyValue → PyValue → Observation
  provider_completed : Observation
  provider_failed : ProviderFailureCode → Text → Observation
  tool_call_requested : Observation
  unsupported : Observation

pub data OutcomeKind : Type 0 where
  completed_outcome failed_outcome cancelled_outcome teardown_outcome : OutcomeKind

pub data CleanupMode : Type 0 where
  wait_closed cancel : CleanupMode

-- `_SelectedOutcome`.
pub record SelectedOutcome : Type 0 where
  pub kind : OutcomeKind
  pub cleanup_mode : CleanupMode
  pub failure_code : Option String
  pub failure_message : Option Text
  pub correlation_id : Option String

-- The attributes of `ProviderSession` that decisions read or change. `calls` counts the readings of
-- the clock and the calls of the writer and of the observers, which tell by the number of a
-- call whether they return; `published` is what the writer has written for the session.
pub record ProviderSession : Type 0 where
  pub command_id : String
  pub session_id : String
  pub run_started : Bool
  pub session_started_successfully : Bool
  pub lifecycle_state : SessionState
  pub lifecycle_observer : Option (ℕ → Bool)
  pub usage_observer : Option (ℕ → Bool)
  pub limits_observer : Option (ℕ → Bool)
  pub limits_observed : Bool
  pub deferred_cancellation : Option String
  pub events_claimed : Bool
  pub selection : Option SelectedOutcome
  pub deadline_latched : Bool
  pub terminal_emitted : Bool
  pub limit_tracker : LoopLimitTracker
  pub accepted_text : List Text
  pub accepted_text_bytes : ℕ
  pub completed_text : Option Text
  pub usage_observed : Bool
  pub published : List SessionEvent
  pub calls : ℕ

-- `__init__`, for a command with its task. The first update is accepted in the initial state.
abbrev pub new_session : String → String → Text → LoopLimits → ProviderSession
new_session command_id session_id task limits = record {
  command_id = command_id;
  session_id = session_id;
  run_started = false;
  session_started_successfully = false;
  lifecycle_state =
      (reduce_session_state initial_session_state (task_submitted command_id task)).state;
  lifecycle_observer = none;
  usage_observer = none;
  limits_observer = none;
  limits_observed = false;
  deferred_cancellation = none;
  events_claimed = false;
  selection = none;
  deadline_latched = false;
  terminal_emitted = false;
  limit_tracker = fresh_tracker limits;
  accepted_text = [];
  accepted_text_bytes = 0;
  completed_text = none;
  usage_observed = false;
  published = [];
  calls = 0;
}

-- `"".join(texts)`.
unfoldable pub join_texts : List Text → Text
join_texts [] = []
join_texts (t ∷ ts) = t ++ join_texts ts

-- The two token counts of `ModelUsageObserved.__post_init__`; the session's own identity is valid.
unfoldable pub model_usage : PyValue → PyValue → Checked (ℕ × ℕ)
unfolding require_counter
model_usage input output = do
  i ← require_counter input max_model_usage_tokens
  o ← require_counter output max_model_usage_tokens
  ok (i, o)

-- A failure that the session selects itself.
abbrev pub failure_outcome : ProviderSession → CleanupMode → String → Text → SelectedOutcome
failure_outcome s mode code message = record {
  kind = failed_outcome;
  cleanup_mode = mode;
  failure_code = some code;
  failure_message = some message;
  correlation_id = some s.command_id;
}

abbrev pub invalid_response_outcome : ProviderSession → SelectedOutcome
invalid_response_outcome s =
    failure_outcome s cancel "provider_invalid_response"
      (codes "The provider returned an invalid response.")

abbrev pub provider_deadline_outcome : ProviderSession → SelectedOutcome
provider_deadline_outcome s =
    failure_outcome s cancel "provider_work_deadline_exceeded"
      (codes "Provider work exceeded its time limit.")

abbrev pub output_limit_outcome : ProviderSession → SelectedOutcome
output_limit_outcome s =
    failure_outcome s cancel "assistant_output_limit_exceeded"
      (codes "Assistant output exceeded its byte limit.")

abbrev pub model_turn_limit_outcome : ProviderSession → SelectedOutcome
model_turn_limit_outcome s =
    failure_outcome s cancel "model_turn_limit_exceeded" (codes "The model-turn limit was reached.")

abbrev pub tool_call_limit_outcome : ProviderSession → SelectedOutcome
tool_call_limit_outcome s =
    failure_outcome s cancel "tool_call_limit_exceeded"
      (codes "The provider tool-call limit was reached.")

abbrev pub tool_unavailable_outcome : ProviderSession → SelectedOutcome
tool_unavailable_outcome s =
    failure_outcome s cancel "tool_unavailable"
      (codes "Provider-requested tools are not available.")

abbrev pub completed_selection : ProviderSession → SelectedOutcome
completed_selection s = record {
  kind = completed_outcome;
  cleanup_mode = wait_closed;
  failure_code = none;
  failure_message = none;
  correlation_id = some s.command_id;
}
