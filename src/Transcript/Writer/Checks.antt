-- ===== src/Transcript/Writer/Checks.antt =====
-- The tests of `SessionTranscript.record` on an update and on the states before and after it.
use code_assist_harness.Prelude.{
  String, Option, none, some, Bool, true, not, ◌&&◌, ◌||◌, ltb, ◌==◌, length, opt_eq, is_some, Text,
  if◌then◌else◌,
}
use code_assist_harness.Utf8.{encode}
use code_assist_harness.Session.{SessionState, SessionFailure, SessionUpdate}
use code_assist_harness.Session.Reducer.{is_status}
use code_assist_harness.Limits.Tracker.{LoopLimitsObserved}
use code_assist_harness.Transcript.{
  LimitsFields, TranscriptEvidence, is_terminal_update, loop_limits_match_terminal,
  uses_loop_limit_failure_code, is_delta, max_replay_assistant_bytes,
}

abbrev pub failure_code : Option SessionFailure → Option String
failure_code none = none
failure_code (some f) = some f.code

unfoldable pub same_lifecycle_invariants : SessionState → SessionState → Bool
same_lifecycle_invariants s a =
    is_status s.status a.status
    && opt_eq s.start_command_id a.start_command_id
    && opt_eq s.session_id a.session_id
    && opt_eq s.cancel_command_id a.cancel_command_id
    && s.last_sequence == a.last_sequence
    && (if s.assistant_completed then a.assistant_completed else not a.assistant_completed)
    && opt_eq (failure_code s.session_failure) (failure_code a.session_failure)

-- The tests of `record` on the evidence so far.
unfoldable pub contradicts_evidence : TranscriptEvidence → SessionUpdate → Bool
contradicts_evidence evidence u =
    (elim evidence.loop_limits [
      | none ↦ uses_loop_limit_failure_code u
      | some l ↦ not (is_terminal_update u && loop_limits_match_terminal l.exhausted u)
    ])
    || is_some evidence.model_usage && is_delta u

-- Whether the text is too long to replay, or cannot be encoded.
unfoldable pub exceeds_replay : Text → Bool
exceeds_replay text = elim (encode text) [
  | none ↦ true
  | some bytes ↦ ltb max_replay_assistant_bytes (length bytes)
]

-- The arguments of `LoopLimitsObservedRecord` that an observation gives.
abbrev pub limits_fields : LoopLimitsObserved → LimitsFields
limits_fields l = record {
  limits = l.limits;
  model_turns_started = l.model_turns_started;
  assistant_output_bytes = l.assistant_output_bytes;
  tool_calls_observed = l.tool_calls_observed;
  exhausted_limit = l.exhausted;
}
