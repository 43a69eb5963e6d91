-- ===== src/Transcript/Writer/Recorded.antt =====
-- Sequences of requests: the records agree with the safe state and the file, and a failure is
-- reported once.
use code_assist_harness.Prelude.{
  ℕ, String, Option, none, some, Bool, true, false, not, ◌||◌, List, [], ◌++◌, Text, is_some,
  append-nil, ◌≡◌, refl, sym, ap, ◌∙◌, subst, ◌⊎◌, inl, inr, arith, Bool-cases, Option-cases,
}
use code_assist_harness.Session.{SessionState}
use code_assist_harness.Transcript.{TranscriptRecord, TranscriptEvidence}
use code_assist_harness.Transcript.Writer.{
  PersistenceFailureCode, TranscriptFileOperations, SessionTranscript,
}
use code_assist_harness.Transcript.Writer.Requests.{
  Request, close_transcript, close, latch_failure, take_failure, report, attempt, perform,
  perform_all,
}
use code_assist_harness.Transcript.Writer.Records.{Agrees, lines}
use code_assist_harness.Transcript.Writer.Leaves.{Leaves}
use code_assist_harness.Transcript.Writer.Runs.{Belongs, attempt-Leaves}
use code_assist_harness.Transcript.Writer.Identity.{Keeps}

module _ {R : Type 0} (redact : Text → Text) (redact_stream : R → Text → R × Text)
    (is_session_id : String → Bool) (clock : ℕ → String) (is_valid_record : TranscriptRecord → Bool)
    (dump : TranscriptRecord → Option (List ℕ)) (operations : TranscriptFileOperations)
    (write_summary : ℕ → SessionState → TranscriptEvidence → Option PersistenceFailureCode) where
  abbrev perform_of :
      Request → SessionTranscript R → SessionTranscript R × Option PersistenceFailureCode
  perform_of = perform redact redact_stream clock is_valid_record dump operations write_summary

  abbrev attempt_of :
      Request → SessionTranscript R → SessionTranscript R × Option PersistenceFailureCode
  attempt_of = attempt redact redact_stream clock is_valid_record dump operations write_summary

  abbrev run_of :
      List Request → SessionTranscript R → SessionTranscript R × List PersistenceFailureCode
  run_of = perform_all redact redact_stream clock is_valid_record dump operations write_summary

  -- The records agree with the transcript, and are all that its file holds unless there is a failure.
  abbrev pub IsRecorded : List TranscriptRecord → SessionTranscript R → Type 0
  IsRecorded rs w =
      Agrees is_session_id is_valid_record dump rs w
      × ((left : List ℕ) × (w.file.bytes ≡ lines dump rs ++ left) × (w.failure ≡ none → left ≡ []))

  IsRecorded-close :
      (rs : List TranscriptRecord) (w : SessionTranscript R)
      → IsRecorded rs w
      → IsRecorded rs (close w)
  unfolding close
  IsRecorded-close rs w ((p, e, i, s, y, sc, t, l, v, x), f) =
      ((p, e, i, s, y, sc, t, (λ c. absurd (ground (arith, c))), v, x), f)

  take_failure-IsRecorded :
      (rs : List TranscriptRecord) (w : SessionTranscript R)
      → IsRecorded rs w
      → IsRecorded rs (take_failure w).0
  unfolding take_failure
  take_failure-IsRecorded rs w a =
      elim (Bool-cases (not (is_some w.failure) || w.failure_reported)) [
        | inl g ↦ rw g a
        | inr g ↦ rw g a
      ]

  latch_failure-IsRecorded :
      (rs : List TranscriptRecord) (w : SessionTranscript R) (code : PersistenceFailureCode)
      (left : List ℕ)
      → Agrees is_session_id is_valid_record dump rs w
      → w.file.bytes ≡ lines dump rs ++ left
      → IsRecorded rs (latch_failure code w)
  unfolding latch_failure close
  latch_failure-IsRecorded rs w code left (p, e, i, s, y, sc, t, pe, v, x) f =
      elim (Option-cases w.failure) [
        | inl n ↦ rw n (
          (p, e, i, s, y, sc, t, (λ c. absurd (ground (arith, c))), v, x),
          (left, f, λ m. absurd (ground (arith, m))),
        )
        | inr (k, n) ↦ rw n (
          (p, e, i, s, y, sc, t, (λ c. absurd (ground (arith, c))), v, x),
          (left, f, λ m. absurd (ground (arith, n, m))),
        )
      ]

  report-IsRecorded :
      (r : SessionTranscript R × Option PersistenceFailureCode)
      → Leaves is_session_id is_valid_record dump r
      → (rs : List TranscriptRecord) × IsRecorded rs (report r).0
  unfolding report
  report-IsRecorded (w, none) (rs, left, a, f, l) =
      (rs, take_failure-IsRecorded rs w (a, (left, f, λ _. l refl)))
  report-IsRecorded (w, some code) (rs, left, a, f, l) = (
    rs,
    take_failure-IsRecorded rs (latch_failure code w) (latch_failure-IsRecorded rs w code left a f),
  )

  -- What a request comes down to, by the state of the transcript.
  pub perform-cases :
      (w : SessionTranscript R) (q : Request)
      → (perform_of q w ≡ (close w, none))
        ⊎ (is_some w.failure ≡ true) × (perform_of q w ≡ take_failure w)
        ⊎ (perform_of q w ≡ (w, none))
        ⊎ (w.failure ≡ none) × (w.closed ≡ false) × (perform_of q w ≡ report (attempt_of q w))
  unfolding perform
  perform-cases w close_transcript = inl refl
  perform-cases w q = elim (Option-cases w.failure) [
    | inr (k, n) ↦ ground (arith, n)
    | inl n ↦ elim (Bool-cases w.closed) [
      | inl c ↦ ground (arith, n, c)
      | inr c ↦ ground (arith, n, c)
    ]
  ]

  -- One request, of whatever kind, to an open transcript, to a closed one and to a failed one.
  pub perform-IsRecorded :
      (rs : List TranscriptRecord) (w : SessionTranscript R) (q : Request)
      → IsRecorded rs w
      → Belongs is_session_id w.session_id q
      → (ss : List TranscriptRecord) × IsRecorded ss (perform_of q w).0
  perform-IsRecorded rs w q a h = elim (perform-cases w q) [
    | inl e ↦ (rs, subst (λ r. IsRecorded rs r.0) (sym e) (IsRecorded-close rs w a))
    | inr (inl (k, e)) ↦
        (rs, subst (λ r. IsRecorded rs r.0) (sym e) (take_failure-IsRecorded rs w a))
    | inr (inr (inl e)) ↦ (rs, subst (λ r. IsRecorded rs r.0) (sym e) a)
    | inr (inr (inr (n, c, e))) ↦
        let (left, f, l) = a.1 in
        let made =
          attempt-Leaves redact redact_stream is_session_id clock is_valid_record dump operations
            write_summary rs w q a.0 c
            (f ∙ ap (λ bs. lines dump rs ++ bs) (l n) ∙ append-nil (lines dump rs)) h in
        let (ss, b) = report-IsRecorded (attempt_of q w) made in
        (ss, subst (λ r. IsRecorded ss r.0) (sym e) b)
  ]

  -- The reports: none before a failure, and none after the first.
  abbrev pub IsSilent : SessionTranscript R → Type 0
  IsSilent w = (w.failure_reported ≡ true) × (is_some w.failure ≡ true)

  pub report-once :
      (w : SessionTranscript R) (r : SessionTranscript R × Option PersistenceFailureCode)
      → Keeps w r
      → w.failure ≡ none
      → w.failure_reported ≡ false
      → ((report r).1 ≡ none)
          × ((report r).0.failure ≡ none)
          × ((report r).0.failure_reported ≡ false)
        ⊎ IsSilent (report r).0 × (is_some (report r).1 ≡ true) × ((report r).0.closed ≡ true)
  unfolding report latch_failure take_failure close
  report-once w (v, none) k n f = ground (arith, k, n, f)
  report-once w (v, some code) k n f = ground (arith, k, n, f)
