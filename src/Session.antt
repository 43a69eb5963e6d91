-- ===== src/Session.antt =====
-- session_state.py: the lifecycle of one session. This file has the states, the updates and the
-- results; Session/Reducer.antt has the reducer and replay, and the other children what is proved.
-- Identifiers and failure codes are native strings; texts are lists of code points.
pub mod Reducer
pub mod Step
pub mod Invariant
pub mod Replay
pub mod Tape
mod Examples
use code_assist_harness.Prelude.{ℕ, String, Option, none, Bool, false, [], Text}
use code_assist_harness.Protocol.{
  SessionEvent, session_started, assistant_delta, assistant_completed, session_completed,
  session_cancelled, session_failed,
}

pub data SessionStatus : Type 0 where
  idle starting running awaiting_approval cancelling completed cancelled failed : SessionStatus

pub data InvariantFailureCode : Type 0 where
  illegal_transition terminal_state_absorbing correlation_mismatch : InvariantFailureCode
  session_mismatch sequence_gap sequence_regression : InvariantFailureCode
  assistant_after_completion assistant_already_completed : InvariantFailureCode
  assistant_completion_mismatch session_completion_before_assistant : InvariantFailureCode

pub record SessionFailure : Type 0 where
  pub code : String
  pub message : Text

pub record SessionState : Type 0 where
  pub status : SessionStatus
  pub start_command_id : Option String
  pub task : Option Text
  pub session_id : Option String
  pub cancel_command_id : Option String
  pub last_sequence : ℕ
  pub assistant_text : Text
  pub assistant_completed : Bool
  pub session_failure : Option SessionFailure

abbrev pub initial_session_state : SessionState
initial_session_state = record {
  status = idle;
  start_command_id = none;
  task = none;
  session_id = none;
  cancel_command_id = none;
  last_sequence = 0;
  assistant_text = [];
  assistant_completed = false;
  session_failure = none;
}

-- The union `SessionUpdate`: the four trusted facts, and the validated events.
pub data SessionUpdate : Type 0 where
  task_submitted : String → Text → SessionUpdate
  cancel_requested : String → String → SessionUpdate
  approval_requested : String → SessionUpdate
  approval_resolved : String → SessionUpdate
  event : SessionEvent → SessionUpdate

-- The strings that `_event_type` returns.
pub data EventType : Type 0 where
  task_submitted_type cancel_requested_type approval_requested_type : EventType
  approval_resolved_type started_type delta_type text_completed_type : EventType
  completed_type cancelled_type failed_type : EventType

unfoldable pub session_event_type : SessionEvent → EventType
session_event_type (session_started e) = started_type
session_event_type (assistant_delta e text) = delta_type
session_event_type (assistant_completed e text) = text_completed_type
session_event_type (session_completed e) = completed_type
session_event_type (session_cancelled e) = cancelled_type
session_event_type (session_failed e code message) = failed_type

unfoldable pub event_type : SessionUpdate → EventType
unfolding session_event_type
event_type (task_submitted c t) = task_submitted_type
event_type (cancel_requested c s) = cancel_requested_type
event_type (approval_requested s) = approval_requested_type
event_type (approval_resolved s) = approval_resolved_type
event_type (event e) = session_event_type e

pub record SessionInvariantFailure : Type 0 where
  pub code : InvariantFailureCode
  pub prior_status : SessionStatus
  pub event_type : EventType

pub record SessionReduction : Type 0 where
  pub state : SessionState
  pub failure : Option SessionInvariantFailure
