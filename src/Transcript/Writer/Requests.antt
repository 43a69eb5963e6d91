-- ===== src/Transcript/Writer/Requests.antt =====
-- The methods of `SessionTranscript`: what each of them checks, records and reports.
use code_assist_harness.Prelude.{
  ℕ, String, str_eq, Option, none, some, Bool, true, not, ◌||◌, List, [], ◌∷◌, opt_eq, is_some,
  Text, if◌then◌else◌,
}
use code_assist_harness.Session.{SessionState, SessionUpdate, running}
use code_assist_harness.Session.Reducer.{reduce_session_state, is_terminal, is_status}
use code_assist_harness.Limits.Tracker.{LoopLimitsObserved}
use code_assist_harness.Transcript.{
  TranscriptRecord, model_usage_observed, loop_limits_observed, ModelUsageObserved,
  TranscriptEvidence, build_body,
}
use code_assist_harness.Transcript.Replay.{no_text}
use code_assist_harness.Transcript.Sanitizer.{sanitize_update}
use code_assist_harness.Transcript.Writer.{
  PersistenceFailureCode, transcript_write_failed, TranscriptFileOperations, SessionTranscript,
  make_record, append_record,
}
use code_assist_harness.Transcript.Writer.Checks.{
  contradicts_evidence, same_lifecycle_invariants, exceeds_replay, limits_fields,
}

module _ {R : Type 0} where
  unfoldable pub close : SessionTranscript R → SessionTranscript R
  close w = record w { closed = true }

  unfoldable pub latch_failure : PersistenceFailureCode → SessionTranscript R → SessionTranscript R
  unfolding close
  latch_failure code w = elim w.failure [
    | none ↦ close (record w { failure = some code })
    | some f ↦ close w
  ]

  unfoldable pub take_failure :
      SessionTranscript R → SessionTranscript R × Option PersistenceFailureCode
  take_failure w =
      if not (is_some w.failure) || w.failure_reported
      then (w, none)
      else (record w { failure_reported = true }, w.failure)

  -- The end of a method: an exception is latched, and a failure is returned the first time.
  unfoldable pub report :
      SessionTranscript R × Option PersistenceFailureCode
      → SessionTranscript R × Option PersistenceFailureCode
  unfolding latch_failure take_failure
  report (w, none) = take_failure w
  report (w, some code) = take_failure (latch_failure code w)

-- What may be asked of a transcript.
pub data Request : Type 0 where
  record_update : SessionUpdate → SessionState → Request
  record_model_usage : ModelUsageObserved → Request
  record_loop_limits : LoopLimitsObserved → Request
  close_transcript : Request

-- How the summary of a state fails to be written after so many calls, if it does.
module _ {R : Type 0}
    (write_summary : ℕ → SessionState → TranscriptEvidence → Option PersistenceFailureCode) where
  -- The end of `record`: a terminal state gets its summary, and the file is closed.
  unfoldable pub settle : SessionTranscript R → SessionTranscript R × Option PersistenceFailureCode
  settle w =
      if is_terminal w.state.status
      then (close w, write_summary w.file.calls w.state w.evidence)
      else (w, none)

-- The parts of the platform: the clock, validation and encoding of records, the file operations.
module _ {R : Type 0} (clock : ℕ → String) (is_valid_record : TranscriptRecord → Bool)
    (dump : TranscriptRecord → Option (List ℕ)) (operations : TranscriptFileOperations) where
  abbrev append_to :
      TranscriptRecord → SessionTranscript R → SessionTranscript R × Option PersistenceFailureCode
  append_to = append_record is_valid_record dump operations

  unfoldable pub attempt_usage :
      ModelUsageObserved → SessionTranscript R → SessionTranscript R × Option PersistenceFailureCode
  attempt_usage observation w =
      if not (str_eq observation.session_id w.session_id)
        || is_some w.evidence.model_usage
        || is_some w.evidence.loop_limits
        || not (is_status w.state.status running)
        || no_text w.state.assistant_text
        || w.state.assistant_completed
      then (w, some transcript_write_failed)
      else let body = model_usage_observed observation.input_tokens observation.output_tokens in
        let (next, result) = append_to (make_record clock w body) w in
        elim result [
          | some code ↦ (next, some code)
          | none ↦ (
            record next {
              evidence = record {
                model_usage = some observation;
                loop_limits = w.evidence.loop_limits;
              };
            },
            none,
          )
        ]

  unfoldable pub attempt_limits :
      LoopLimitsObserved → SessionTranscript R → SessionTranscript R × Option PersistenceFailureCode
  attempt_limits observation w =
      if not (str_eq observation.session_id w.session_id)
        || is_some w.evidence.loop_limits
        || not (opt_eq w.state.session_id (some w.session_id))
        || is_terminal w.state.status
      then (w, some transcript_write_failed)
      else let body = loop_limits_observed (limits_fields observation) in
        let (next, result) = append_to (make_record clock w body) w in
        elim result [
          | some code ↦ (next, some code)
          | none ↦ (
            record next {
              evidence = record {
                model_usage = w.evidence.model_usage;
                loop_limits = some observation;
              };
            },
            none,
          )
        ]

  module _
      (write_summary : ℕ → SessionState → TranscriptEvidence → Option PersistenceFailureCode) where
    -- The body of the `try` in `record`, below the sanitizer.
    unfoldable pub attempt_safe :
        SessionUpdate
        → SessionState
        → SessionTranscript R
        → SessionTranscript R × Option PersistenceFailureCode
    attempt_safe safe accepted_state w =
        let reduction = reduce_session_state w.state safe in
        if contradicts_evidence w.evidence safe
          || is_some reduction.failure
          || not (same_lifecycle_invariants reduction.state accepted_state)
          || exceeds_replay reduction.state.assistant_text
        then (w, some transcript_write_failed)
        else let (next, result) = append_to (make_record clock w (build_body safe)) w in
          elim result [
            | some code ↦ (next, some code)
            | none ↦ settle write_summary (record next { state = reduction.state })
          ]

-- With the session's redaction.
module _ {R : Type 0} (redact : Text → Text) (redact_stream : R → Text → R × Text)
    (clock : ℕ → String) (is_valid_record : TranscriptRecord → Bool)
    (dump : TranscriptRecord → Option (List ℕ)) (operations : TranscriptFileOperations)
    (write_summary : ℕ → SessionState → TranscriptEvidence → Option PersistenceFailureCode) where
  unfoldable pub attempt_update :
      SessionUpdate
      → SessionState
      → SessionTranscript R
      → SessionTranscript R × Option PersistenceFailureCode
  attempt_update u accepted_state w = elim (sanitize_update redact redact_stream w.sanitizer u) [
    | none ↦ (w, some transcript_write_failed)
    | some (s, safe) ↦
        attempt_safe clock is_valid_record dump operations write_summary safe accepted_state
          (record w { sanitizer = s })
  ]

  unfoldable pub attempt :
      Request → SessionTranscript R → SessionTranscript R × Option PersistenceFailureCode
  unfolding attempt_update attempt_usage attempt_limits
  attempt (record_update u accepted_state) w = attempt_update u accepted_state w
  attempt (record_model_usage observation) w =
      attempt_usage clock is_valid_record dump operations observation w
  attempt (record_loop_limits observation) w =
      attempt_limits clock is_valid_record dump operations observation w
  attempt close_transcript w = (close w, none)

  -- A method as a whole: after the first failure, and once closed, nothing is attempted.
  unfoldable pub perform :
      Request → SessionTranscript R → SessionTranscript R × Option PersistenceFailureCode
  unfolding close
  perform close_transcript w = (close w, none)
  perform request w =
      if is_some w.failure
      then take_failure w
      else if w.closed
      then (w, none)
      else report (attempt request w)

  -- Requests one after the other, and the failures that are returned.
  unfoldable pub perform_all :
      List Request → SessionTranscript R → SessionTranscript R × List PersistenceFailureCode
  perform_all [] w = (w, [])
  perform_all (q ∷ qs) w =
      let (next, result) = perform q w in
      let (last, results) = perform_all qs next in
      (last, elim result [ none ↦ results | some code ↦ code ∷ results ])
