-- ===== src/Transcript.antt =====
-- persistence/transcript.py: the records of a session transcript, and the tests on updates that the
-- writer and the reader of a transcript share.
pub mod Replay
pub mod Lines
pub mod Sanitizer
pub mod Writer
pub mod RoundTrip
pub mod Written
pub mod Bounds
pub mod Summary
pub mod Sanitized
mod Examples
use code_assist_harness.Prelude.{
  ℕ, String, str_eq, Option, none, some, Bool, true, false, not, List, Text, PyValue, nat, Checked,
}
use code_assist_harness.Protocol.{
  SessionEvent, assistant_delta, session_completed, session_cancelled, session_failed, envelope,
}
use code_assist_harness.Limits.{
  LoopLimits, LoopLimitExhaustion, loop_limit_failure_code, is_loop_limit_failure_code,
}
use code_assist_harness.Limits.Tracker.{LoopLimitsObserved, make_observation, exhaustion_value}
use code_assist_harness.Session.{
  SessionUpdate, task_submitted, cancel_requested, approval_requested, approval_resolved, event,
}

abbrev pub transcript_version : ℕ
transcript_version = 3

abbrev pub max_transcript_line_bytes : ℕ
max_transcript_line_bytes = 131072

abbrev pub max_transcript_bytes : ℕ
max_transcript_bytes = 16777216

abbrev pub max_transcript_records : ℕ
max_transcript_records = 10000

abbrev pub max_replay_assistant_bytes : ℕ
max_replay_assistant_bytes = 141072

-- `DomainFactInput`.
pub data DomainFactInput : Type 0 where
  task_submitted_input : String → Text → DomainFactInput
  cancel_requested_input : String → String → DomainFactInput
  approval_requested_input : String → DomainFactInput
  approval_resolved_input : String → DomainFactInput

-- The fields of `LoopLimitsObservedRecord` beside those of every record.
pub record LimitsFields : Type 0 where
  pub limits : LoopLimits
  pub model_turns_started : ℕ
  pub assistant_output_bytes : ℕ
  pub tool_calls_observed : ℕ
  pub exhausted_limit : Option LoopLimitExhaustion

-- What tells the four records of the union `TranscriptRecord` apart.
pub data RecordBody : Type 0 where
  domain_fact : DomainFactInput → RecordBody
  session_event : SessionEvent → RecordBody
  model_usage_observed : ℕ → ℕ → RecordBody
  loop_limits_observed : LimitsFields → RecordBody

pub record TranscriptRecord : Type 0 where
  pub version : ℕ
  pub record_order : ℕ
  pub recorded_at : String
  pub workspace_id : String
  pub session_id : String
  pub body : RecordBody

-- `ModelUsageObserved`, which a session makes and a transcript keeps.
pub record ModelUsageObserved : Type 0 where
  pub session_id : String
  pub input_tokens : ℕ
  pub output_tokens : ℕ

pub record TranscriptEvidence : Type 0 where
  pub model_usage : Option ModelUsageObserved
  pub loop_limits : Option LoopLimitsObserved

abbrev pub no_evidence : TranscriptEvidence
no_evidence = record { model_usage = none; loop_limits = none }

-- `_build_record`, without the fields that every record has.
unfoldable pub build_body : SessionUpdate → RecordBody
build_body (task_submitted command_id task) = domain_fact (task_submitted_input command_id task)
build_body (cancel_requested command_id session_id) =
    domain_fact (cancel_requested_input command_id session_id)
build_body (approval_requested session_id) = domain_fact (approval_requested_input session_id)
build_body (approval_resolved session_id) = domain_fact (approval_resolved_input session_id)
build_body (event e) = session_event e

-- `_record_update`; `none` for a record of evidence, which the callers do not hand over.
unfoldable pub record_update : RecordBody → Option SessionUpdate
record_update (session_event e) = some (event e)
record_update (domain_fact (task_submitted_input command_id task)) =
    some (task_submitted command_id task)
record_update (domain_fact (cancel_requested_input command_id session_id)) =
    some (cancel_requested command_id session_id)
record_update (domain_fact (approval_requested_input session_id)) =
    some (approval_requested session_id)
record_update (domain_fact (approval_resolved_input session_id)) =
    some (approval_resolved session_id)
record_update (model_usage_observed i o) = none
record_update (loop_limits_observed l) = none

-- `_record_matches_session`.
unfoldable pub record_matches_session : String → RecordBody → Bool
record_matches_session s (session_event e) = str_eq (envelope e).session_id s
record_matches_session s (domain_fact (task_submitted_input command_id task)) = true
record_matches_session s (domain_fact (cancel_requested_input command_id session_id)) =
    str_eq session_id s
record_matches_session s (domain_fact (approval_requested_input session_id)) = str_eq session_id s
record_matches_session s (domain_fact (approval_resolved_input session_id)) = str_eq session_id s
record_matches_session s (model_usage_observed i o) = true
record_matches_session s (loop_limits_observed l) = true

-- `_is_terminal_update`.
unfoldable pub is_terminal_update : SessionUpdate → Bool
is_terminal_update (event (session_completed e)) = true
is_terminal_update (event (session_cancelled e)) = true
is_terminal_update (event (session_failed e code message)) = true
is_terminal_update _ = false

-- `_loop_limits_match_terminal`, of the classification of an observation.
unfoldable pub loop_limits_match_terminal : Option LoopLimitExhaustion → SessionUpdate → Bool
loop_limits_match_terminal none (event (session_failed e code message)) =
    not (is_loop_limit_failure_code code)
loop_limits_match_terminal none u = true
loop_limits_match_terminal (some x) (event (session_failed e code message)) =
    str_eq code (loop_limit_failure_code x)
loop_limits_match_terminal (some x) u = false

-- `_uses_loop_limit_failure_code`.
unfoldable pub uses_loop_limit_failure_code : SessionUpdate → Bool
uses_loop_limit_failure_code (event (session_failed e code message)) =
    is_loop_limit_failure_code code
uses_loop_limit_failure_code _ = false

abbrev pub is_delta : SessionUpdate → Bool
is_delta (event (assistant_delta e text)) = true
is_delta _ = false

-- `_loop_limits_observation`. Whether an identifier is valid is pydantic's test.
module _ (is_session_id : String → Bool) where
  unfoldable pub loop_limits_observation : String → LimitsFields → Checked LoopLimitsObserved
  loop_limits_observation session_id r =
      make_observation is_session_id session_id (nat r.limits.max_model_turns)
        (nat r.limits.provider_work_timeout_seconds) (nat r.limits.max_assistant_output_bytes)
        (nat r.limits.max_observed_tool_calls) (nat r.model_turns_started)
        (nat r.assistant_output_bytes) (nat r.tool_calls_observed)
        (exhaustion_value r.exhausted_limit)
