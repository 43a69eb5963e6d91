-- ===== src/Transcript/Writer/Identity.antt =====
-- What no attempt to record changes: whose transcript it is, and what it has reported.
use code_assist_harness.Prelude.{
  ℕ, String, Option, Bool, List, Text, ◌≡◌, refl, sym, subst, inl, inr, arith, Option-cases,
}
use code_assist_harness.Session.{SessionState, SessionUpdate}
use code_assist_harness.Transcript.{
  TranscriptRecord, TranscriptEvidence, build_body, model_usage_observed, loop_limits_observed,
}
use code_assist_harness.Transcript.Sanitizer.{sanitize_update}
use code_assist_harness.Transcript.Writer.{
  PersistenceFailureCode, TranscriptFileOperations, SessionTranscript, make_record, append_record,
}
use code_assist_harness.Transcript.Writer.Checks.{limits_fields}
use code_assist_harness.Transcript.Writer.Requests.{
  Request, record_update, record_model_usage, record_loop_limits, close_transcript, close, settle,
  attempt_safe, attempt_update, attempt_usage, attempt_limits, attempt,
}
use code_assist_harness.Transcript.Writer.Records.{append_record-cases}

abbrev pub Keeps :
    {R : Type 0}
    → SessionTranscript R
    → SessionTranscript R × Option PersistenceFailureCode
    → Type 0
Keeps w r =
    (r.0.session_id ≡ w.session_id)
    × (r.0.failure ≡ w.failure)
    × (r.0.failure_reported ≡ w.failure_reported)

module _ {R : Type 0} (redact : Text → Text) (redact_stream : R → Text → R × Text)
    (clock : ℕ → String) (is_valid_record : TranscriptRecord → Bool)
    (dump : TranscriptRecord → Option (List ℕ)) (operations : TranscriptFileOperations)
    (write_summary : ℕ → SessionState → TranscriptEvidence → Option PersistenceFailureCode) where
  appends :
      (r : TranscriptRecord) (w : SessionTranscript R)
      → Keeps w (append_record is_valid_record dump operations r w)
  appends r w = elim (append_record-cases is_valid_record dump operations r w) [
    | inl (line, file, e, _, _, _, _, _) ↦ subst (Keeps w) (sym e) (refl, refl, refl)
    | inr (code, file, left, e, _) ↦ subst (Keeps w) (sym e) (refl, refl, refl)
  ]

  attempt_safe-Keeps :
      (u : SessionUpdate) (s : SessionState) (w : SessionTranscript R)
      → Keeps w (attempt_safe clock is_valid_record dump operations write_summary u s w)
  unfolding attempt_safe settle close
  attempt_safe-Keeps u s w = ground (arith, appends (make_record clock w (build_body u)) w)

  pub attempt-Keeps :
      (q : Request) (w : SessionTranscript R)
      → Keeps w
          (attempt redact redact_stream clock is_valid_record dump operations write_summary q w)
  unfolding attempt attempt_update attempt_usage attempt_limits close
  attempt-Keeps (record_update u s) w =
      elim (Option-cases (sanitize_update redact redact_stream w.sanitizer u)) [
        | inl e ↦ ground (arith, e)
        | inr ((t, v), e) ↦ ground (arith, e, attempt_safe-Keeps v s (record w { sanitizer = t }))
      ]
  attempt-Keeps (record_model_usage o) w =
      ground (
        arith,
        appends (make_record clock w (model_usage_observed o.input_tokens o.output_tokens)) w,
      )
  attempt-Keeps (record_loop_limits o) w =
      ground (arith, appends (make_record clock w (loop_limits_observed (limits_fields o))) w)
  attempt-Keeps close_transcript w = (refl, refl, refl)
