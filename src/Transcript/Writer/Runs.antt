-- ===== src/Transcript/Writer/Runs.antt =====
-- Any sequence of requests to a transcript: what its records replay to, and what it reports.
use code_assist_harness.Prelude.{
  ℕ, String, Option, some, ok, Bool, true, false, List, [], Text, append-nil, ◌≡◌, refl, sym, ◌∙◌,
  inl, inr, arith, Option-cases,
}
use code_assist_harness.Protocol.{assistant_delta, session_failed}
use code_assist_harness.Session.{SessionState, SessionUpdate, task_submitted, event}
use code_assist_harness.Transcript.{
  TranscriptRecord, TranscriptEvidence, build_body, record_matches_session, loop_limits_observation,
}
use code_assist_harness.Transcript.Sanitizer.{
  TranscriptSanitizer, sanitize_update, bounded, bounded_assistant_fragment,
}
use code_assist_harness.Transcript.Writer.{
  PersistenceFailureCode, transcript_write_failed, TranscriptFileOperations, SessionTranscript,
}
use code_assist_harness.Transcript.Writer.Checks.{limits_fields}
use code_assist_harness.Transcript.Writer.Requests.{
  Request, record_update, record_model_usage, record_loop_limits, close_transcript, close,
  attempt_safe, attempt_update, attempt,
}
use code_assist_harness.Transcript.Writer.Records.{Agrees, lines}
use code_assist_harness.Transcript.Writer.Leaves.{Leaves, Leaves-equal, unchanged}
use code_assist_harness.Transcript.Writer.Agreement.{attempt_safe-Leaves}
use code_assist_harness.Transcript.Writer.Evidence.{attempt_usage-Leaves, attempt_limits-Leaves}

-- A request made for a session: its update names the session, and its observation is a valid one.
abbrev pub Belongs : (String → Bool) → String → Request → Type 0
Belongs is_session_id s (record_update u accepted_state) =
    record_matches_session s (build_body u) ≡ true
Belongs is_session_id s (record_loop_limits l) =
    loop_limits_observation is_session_id l.session_id (limits_fields l) ≡ ok l
Belongs is_session_id s _ = Unit

module _ {R : Type 0} (redact : Text → Text) (redact_stream : R → Text → R × Text) where
  -- The sanitizer keeps the session of an update.
  sanitized_session :
      (s t : TranscriptSanitizer R) (u v : SessionUpdate) (session_id : String)
      → sanitize_update redact redact_stream s u ≡ some (t, v)
      → record_matches_session session_id (build_body v)
        ≡ record_matches_session session_id (build_body u)
  unfolding sanitize_update record_matches_session build_body
  sanitized_session s t (task_submitted c task) v session_id h =
      elim (Option-cases (bounded redact redact_stream s task)) [
        | inl e ↦ absurd (ground (arith, e, h))
        | inr (x, e) ↦ ground (arith, e, h)
      ]
  sanitized_session s t (event (assistant_delta e text)) v session_id h =
      elim (Option-cases (
        bounded_assistant_fragment redact redact_stream
          (record s { tail = (redact_stream s.tail text).0 }) (redact_stream s.tail text).1)) [
            | inl f ↦ absurd (ground (arith, f, h))
            | inr (x, f) ↦ ground (arith, f, h)
          ]
  sanitized_session s t (event (session_failed e code message)) v session_id h =
      elim (Option-cases (bounded redact redact_stream s message)) [
        | inl f ↦ absurd (ground (arith, f, h))
        | inr (x, f) ↦ ground (arith, f, h)
      ]
  sanitized_session s t (event _) v session_id h = ground (arith, h)
  sanitized_session s t u v session_id h = ground (arith, h)

module _ {R : Type 0} (redact : Text → Text) (redact_stream : R → Text → R × Text)
    (is_session_id : String → Bool) (clock : ℕ → String) (is_valid_record : TranscriptRecord → Bool)
    (dump : TranscriptRecord → Option (List ℕ)) (operations : TranscriptFileOperations)
    (write_summary : ℕ → SessionState → TranscriptEvidence → Option PersistenceFailureCode) where
  abbrev attempt_of :
      Request → SessionTranscript R → SessionTranscript R × Option PersistenceFailureCode
  attempt_of = attempt redact redact_stream clock is_valid_record dump operations write_summary

  pub attempt-Leaves :
      (rs : List TranscriptRecord) (w : SessionTranscript R) (q : Request)
      → Agrees is_session_id is_valid_record dump rs w
      → w.closed ≡ false
      → w.file.bytes ≡ lines dump rs
      → Belongs is_session_id w.session_id q
      → Leaves is_session_id is_valid_record dump (attempt_of q w)
  unfolding attempt attempt_update close
  attempt-Leaves rs w (record_update u accepted_state) a c f h =
      elim (Option-cases (sanitize_update redact redact_stream w.sanitizer u)) [
        | inl e ↦
            Leaves-equal is_session_id is_valid_record dump
              (attempt_of (record_update u accepted_state) w) (w, some transcript_write_failed)
              (ground (arith, e))
              (unchanged is_session_id is_valid_record dump rs w transcript_write_failed a f)
        | inr ((s, v), e) ↦
            let next : SessionTranscript R = record w { sanitizer = s } in
            Leaves-equal is_session_id is_valid_record dump
              (attempt_of (record_update u accepted_state) w)
              (attempt_safe clock is_valid_record dump operations write_summary v accepted_state
                next)
              (ground (arith, e))
              (attempt_safe-Leaves is_session_id clock is_valid_record dump operations write_summary
                rs next v accepted_state a c f
                (sanitized_session redact redact_stream w.sanitizer s u v w.session_id e ∙ h))
      ]
  attempt-Leaves rs w (record_model_usage observation) a c f h =
      attempt_usage-Leaves is_session_id clock is_valid_record dump operations rs w a c f
        observation
  attempt-Leaves rs w (record_loop_limits observation) a c f h =
      attempt_limits-Leaves is_session_id clock is_valid_record dump operations rs w a c f
        observation h
  attempt-Leaves rs w close_transcript (p, e, i, s, y, sc, t, l, v, x) c f h = (
    rs,
    [],
    (p, e, i, s, y, sc, t, (λ c. absurd (ground (arith, c))), v, x),
    f ∙ sym (append-nil (lines dump rs)),
    λ _. refl,
  )
