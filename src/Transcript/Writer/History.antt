-- ===== src/Transcript/Writer/History.antt =====
-- The whole life of a transcript, from its creation on.
use code_assist_harness.Prelude.{
  ℕ, ◌≤◌, String, Option, none, some, Bool, true, false, List, [], ◌∷◌, ◌++◌, Text, length, is_some,
  All, ◌≡◌, refl, sym, ap, ◌∙◌, subst, inl, inr, arith,
}
use code_assist_harness.Utf8.{encode}
use code_assist_harness.Session.{SessionState}
use code_assist_harness.Session.Invariant.{initial-IsValid}
use code_assist_harness.Transcript.{TranscriptRecord, TranscriptEvidence}
use code_assist_harness.Transcript.Replay.{Progress, no_progress, replay_records, replayed}
use code_assist_harness.Transcript.Sanitizer.{TranscriptSanitizer}
use code_assist_harness.Transcript.Writer.{
  PersistenceFailureCode, TranscriptFileOperations, SessionTranscript, new_transcript,
}
use code_assist_harness.Transcript.Writer.Requests.{
  Request, close, latch_failure, take_failure, report, attempt, perform, perform_all,
}
use code_assist_harness.Transcript.Writer.Records.{lines}
use code_assist_harness.Transcript.Writer.Runs.{Belongs}
use code_assist_harness.Transcript.Writer.Identity.{attempt-Keeps}
use code_assist_harness.Transcript.Writer.Recorded.{
  IsRecorded, perform-IsRecorded, perform-cases, report-once,
}

module _ {R : Type 0} (redact : Text → Text) (redact_stream : R → Text → R × Text)
    (is_session_id : String → Bool) (clock : ℕ → String) (is_valid_record : TranscriptRecord → Bool)
    (dump : TranscriptRecord → Option (List ℕ)) (operations : TranscriptFileOperations)
    (write_summary : ℕ → SessionState → TranscriptEvidence → Option PersistenceFailureCode) where
  abbrev perform_of :
      Request → SessionTranscript R → SessionTranscript R × Option PersistenceFailureCode
  perform_of = perform redact redact_stream clock is_valid_record dump operations write_summary

  abbrev attempt_of :
      Request → SessionTranscript R → SessionTranscript R × Option PersistenceFailureCode
  attempt_of = attempt redact redact_stream clock is_valid_record dump operations write_summary

  abbrev run_of :
      List Request → SessionTranscript R → SessionTranscript R × List PersistenceFailureCode
  run_of = perform_all redact redact_stream clock is_valid_record dump operations write_summary

  abbrev Recorded : List TranscriptRecord → SessionTranscript R → Type 0
  Recorded =
      IsRecorded redact redact_stream is_session_id clock is_valid_record dump operations
        write_summary

  report_session :
      (w : SessionTranscript R) (r : SessionTranscript R × Option PersistenceFailureCode)
      → r.0.session_id ≡ w.session_id
      → (report r).0.session_id ≡ w.session_id
  unfolding report latch_failure take_failure close
  report_session w (v, none) e = ground (arith, e)
  report_session w (v, some code) e = ground (arith, e)

  perform_session :
      (w : SessionTranscript R) (q : Request) → (perform_of q w).0.session_id ≡ w.session_id
  unfolding close take_failure
  perform_session w q =
      elim (perform-cases redact redact_stream is_session_id clock is_valid_record dump operations
        write_summary w q) [
          | inl e ↦ ap (λ r. r.0.session_id) e
          | inr (inl (k, e)) ↦ ground (arith, e)
          | inr (inr (inl e)) ↦ ap (λ r. r.0.session_id) e
          | inr (inr (inr (n, c, e))) ↦
              ap (λ r. r.0.session_id) e
              ∙ report_session w (attempt_of q w)
                  (attempt-Keeps redact redact_stream clock is_valid_record dump operations
                    write_summary q w).0
        ]

  pub requests-IsRecorded :
      (qs : List Request) (rs : List TranscriptRecord) (w : SessionTranscript R)
      → Recorded rs w
      → All (Belongs is_session_id w.session_id) qs
      → (ss : List TranscriptRecord) × Recorded ss (run_of qs w).0
  unfolding perform_all
  requests-IsRecorded [] rs w a h = (rs, a)
  requests-IsRecorded (q ∷ qs) rs w a h =
      let (ss, b) =
        perform-IsRecorded redact redact_stream is_session_id clock is_valid_record dump operations
          write_summary rs w q a h.0 in
      requests-IsRecorded qs ss (perform_of q w).0 b
        (subst (λ s. All (Belongs is_session_id s) qs) (sym (perform_session w q)) h.1)

  pub new-IsRecorded :
      (ws sid : String) (z : TranscriptSanitizer R) → Recorded [] (new_transcript ws sid z)
  unfolding replay_records encode
  new-IsRecorded ws sid z = (
    (
      no_progress,
      refl,
      refl,
      refl,
      refl,
      inl (refl, refl),
      ([], refl, refl),
      (λ _. refl),
      initial-IsValid,
      (omega arith, refl, omega arith, omega arith, tt),
    ),
    ([], refl, λ _. refl),
  )

  -- From its creation on, whatever is asked of a transcript by its session and whichever calls fail:
  -- there are records that replay to its safe state and its evidence, its file begins with their
  -- lines, and the file holds nothing else unless a failure has been latched.
  pub history_replays :
      (ws sid : String) (z : TranscriptSanitizer R) (qs : List Request)
      → All (Belongs is_session_id sid) qs
      → (rs : List TranscriptRecord) × (p : Progress) × (left : List ℕ) × (replay_records
            is_session_id none 1 rs no_progress
          ≡ replayed p)
        × (p.records ≡ rs)
        × (p.state ≡ (run_of qs (new_transcript ws sid z)).0.state)
        × (p.evidence ≡ (run_of qs (new_transcript ws sid z)).0.evidence)
        × ((run_of qs (new_transcript ws sid z)).0.file.bytes ≡ lines dump rs ++ left)
        × ((run_of qs (new_transcript ws sid z)).0.failure ≡ none → left ≡ [])
  history_replays ws sid z qs h =
      let (rs, ((p, e, i, s, y, _, _, _, _, _), (left, f, l))) =
        requests-IsRecorded qs [] (new_transcript ws sid z) (new-IsRecorded ws sid z) h in
      (rs, p, left, e, i, s, y, f, l)

  -- Once a failure has been returned, no more are.
  silent :
      (qs : List Request) (w : SessionTranscript R)
      → w.failure_reported ≡ true
      → is_some w.failure ≡ true
      → (run_of qs w).1 ≡ []
  unfolding perform_all take_failure close
  silent [] w f k = refl
  silent (q ∷ qs) w f k =
      elim (perform-cases redact redact_stream is_session_id clock is_valid_record dump operations
        write_summary w q) [
          | inl e ↦ ground (arith, e, silent qs (close w) f k)
          | inr (inl (_, e)) ↦ ground (arith, e, f, k, silent qs w f k)
          | inr (inr (inl e)) ↦ ground (arith, e, silent qs w f k)
          | inr (inr (inr (n, c, e))) ↦ absurd (ground (arith, n, k))
        ]

  reported_once :
      (qs : List Request) (w : SessionTranscript R)
      → w.failure_reported ≡ false
      → w.failure ≡ none
      → length (run_of qs w).1 ≤ 1
  unfolding perform_all close
  reported_once [] w f n = omega arith
  reported_once (q ∷ qs) w f n =
      elim (perform-cases redact redact_stream is_session_id clock is_valid_record dump operations
        write_summary w q) [
          | inl e ↦ ground (arith, e, reported_once qs (close w) f n)
          | inr (inl (k, e)) ↦ absurd (ground (arith, n, k))
          | inr (inr (inl e)) ↦ ground (arith, e, reported_once qs w f n)
          | inr (inr (inr (_, c, e))) ↦ ground (
            arith,
            e,
            report-once redact redact_stream is_session_id clock is_valid_record dump operations
                write_summary w (attempt_of q w)
                (attempt-Keeps redact redact_stream clock is_valid_record dump operations
                  write_summary q w)
                n f,
            reported_once qs (report (attempt_of q w)).0,
            silent qs (report (attempt_of q w)).0,
          )
        ]

  -- A transcript returns at most one failure, however many requests fail.
  pub failure_once :
      (ws sid : String) (z : TranscriptSanitizer R) (qs : List Request)
      → length (run_of qs (new_transcript ws sid z)).1 ≤ 1
  failure_once ws sid z qs = reported_once qs (new_transcript ws sid z) refl refl
