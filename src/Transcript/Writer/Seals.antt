-- ===== src/Transcript/Writer/Seals.antt =====
-- When a transcript stops writing for good.
use code_assist_harness.Prelude.{
  ℕ, String, Option, none, some, Bool, true, List, [], ◌∷◌, Text, is_some, ◌≡◌, refl, sym, ◌∙◌,
  subst, ◌⊎◌, inl, inr, arith,
}
use code_assist_harness.Session.{SessionState}
use code_assist_harness.Transcript.{TranscriptRecord, TranscriptEvidence}
use code_assist_harness.Transcript.Writer.{
  PersistenceFailureCode, TranscriptFileOperations, SessionTranscript,
}
use code_assist_harness.Transcript.Writer.Requests.{
  Request, close_transcript, close, latch_failure, take_failure, report, attempt, perform,
  perform_all,
}
use code_assist_harness.Transcript.Writer.Recorded.{perform-cases}

module _ {R : Type 0} (redact : Text → Text) (redact_stream : R → Text → R × Text)
    (is_session_id : String → Bool) (clock : ℕ → String) (is_valid_record : TranscriptRecord → Bool)
    (dump : TranscriptRecord → Option (List ℕ)) (operations : TranscriptFileOperations)
    (write_summary : ℕ → SessionState → TranscriptEvidence → Option PersistenceFailureCode) where
  abbrev perform_of :
      Request → SessionTranscript R → SessionTranscript R × Option PersistenceFailureCode
  perform_of = perform redact redact_stream clock is_valid_record dump operations write_summary

  abbrev attempt_of :
      Request → SessionTranscript R → SessionTranscript R × Option PersistenceFailureCode
  attempt_of = attempt redact redact_stream clock is_valid_record dump operations write_summary

  abbrev run_of :
      List Request → SessionTranscript R → SessionTranscript R × List PersistenceFailureCode
  run_of = perform_all redact redact_stream clock is_valid_record dump operations write_summary

  -- A transcript that has failed or has been closed.
  abbrev IsSealed : SessionTranscript R → Type 0
  IsSealed w = (is_some w.failure ≡ true) ⊎ (w.closed ≡ true)

  -- The same stored data, sealed before and after.
  record IsKept (v w : SessionTranscript R) : Type 0 where
    pub same_file : w.file ≡ v.file
    pub same_state : w.state ≡ v.state
    pub same_evidence : w.evidence ≡ v.evidence
    pub still_sealed : IsSealed w

  perform-IsKept :
      (w : SessionTranscript R) (q : Request) → IsSealed w → IsKept w (perform_of q w).0
  unfolding close take_failure
  perform-IsKept w q h =
      elim (perform-cases redact redact_stream is_session_id clock is_valid_record dump operations
        write_summary w q) [
          | inl e ↦ ground (arith, e)
          | inr (inl (k, e)) ↦ ground (arith, e, k)
          | inr (inr (inl e)) ↦ ground (arith, e, h)
          | inr (inr (inr (n, c, e))) ↦ absurd (ground (arith, n, c, h))
        ]

  run-IsKept : (qs : List Request) (w : SessionTranscript R) → IsSealed w → IsKept w (run_of qs w).0
  unfolding perform_all
  run-IsKept [] w h = record {
    same_file = refl;
    same_state = refl;
    same_evidence = refl;
    still_sealed = h;
  }
  run-IsKept (q ∷ qs) w h =
      let a = perform-IsKept w q h in
      let b = run-IsKept qs (perform_of q w).0 a.still_sealed in
      record {
        same_file = b.same_file ∙ a.same_file;
        same_state = b.same_state ∙ a.same_state;
        same_evidence = b.same_evidence ∙ a.same_evidence;
        still_sealed = b.still_sealed;
      }

  report-IsSealed :
      (r : SessionTranscript R × Option PersistenceFailureCode)
      → is_some (report r).1 ≡ true
      → IsSealed (report r).0
  unfolding report latch_failure take_failure close
  report-IsSealed (v, none) h = ground (arith, h)
  report-IsSealed (v, some code) h = ground arith

  -- What seals a transcript: a request that returns a failure, and the request to close it.
  perform-IsSealed :
      (w : SessionTranscript R) (q : Request)
      → (is_some (perform_of q w).1 ≡ true) ⊎ (q ≡ close_transcript)
      → IsSealed (perform_of q w).0
  unfolding close take_failure
  perform-IsSealed w q (inr c) =
      subst (λ r. IsSealed (perform_of r w).0) (sym c) (unfold perform in inr refl)
  perform-IsSealed w q (inl h) =
      elim (perform-cases redact redact_stream is_session_id clock is_valid_record dump operations
        write_summary w q) [
          | inl e ↦ ground (arith, e)
          | inr (inl (k, e)) ↦ ground (arith, e, k)
          | inr (inr (inl e)) ↦ absurd (ground (arith, e, h))
          | inr (inr (inr (n, c, e))) ↦
              subst (λ r. IsSealed r.0) (sym e)
                (report-IsSealed (attempt_of q w) (subst (λ r. is_some r.1 ≡ true) e h))
        ]

  -- After a request that returns a failure, or one to close, a transcript writes no more: its file,
  -- its safe state and its evidence stay as that request left them, whatever requests follow.
  pub sealed_unchanged :
      (w : SessionTranscript R) (q : Request) (qs : List Request)
      → (is_some (perform_of q w).1 ≡ true) ⊎ (q ≡ close_transcript)
      → ((run_of qs (perform_of q w).0).0.file ≡ (perform_of q w).0.file)
        × ((run_of qs (perform_of q w).0).0.state ≡ (perform_of q w).0.state)
        × ((run_of qs (perform_of q w).0).0.evidence ≡ (perform_of q w).0.evidence)
  sealed_unchanged w q qs h =
      let a = run-IsKept qs (perform_of q w).0 (perform-IsSealed w q h) in
      (a.same_file, a.same_state, a.same_evidence)
