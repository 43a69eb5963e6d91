-- ===== src/Transcript/Writer/Leaves.antt =====
-- What an attempt to record leaves behind: records in agreement with the transcript and its file.
use code_assist_harness.Prelude.{
  ℕ, ◌+◌, ◌≤◌, String, Option, none, some, Bool, true, false, List, [], ◌∷◌, ◌++◌, length,
  append-nil, ◌≡◌, sym, ap, ◌∙◌, subst, inr, arith,
}
use code_assist_harness.Utf8.{encode}
use code_assist_harness.Limits.Tracker.{LoopLimitsObserved}
use code_assist_harness.Session.{SessionState}
use code_assist_harness.Session.Invariant.{IsValid}
use code_assist_harness.Transcript.{
  TranscriptRecord, TranscriptEvidence, RecordBody, max_transcript_records, max_transcript_bytes,
}
use code_assist_harness.Transcript.Replay.{
  Progress, replayed, replay_records, replay_record, no_progress,
}
use code_assist_harness.Transcript.Writer.{
  PersistenceFailureCode, OpenFile, SessionTranscript, encode_record, make_record,
}
use code_assist_harness.Transcript.Writer.Steps.{Advances}
use code_assist_harness.Transcript.Writer.Records.{
  Agrees, Fits, Fits-append, lines, replay_records-snoc,
}

-- The transcript once a record has been appended, with a new state and new evidence.
abbrev pub committed :
    {R : Type 0}
    → SessionTranscript R
    → OpenFile
    → List ℕ
    → SessionState
    → TranscriptEvidence
    → SessionTranscript R
committed w file line state evidence = record w {
  file = file;
  next_record_order = w.next_record_order + 1;
  committed_bytes = w.committed_bytes + length line;
  state = state;
  evidence = evidence;
}

module _ {R : Type 0} (is_session_id : String → Bool) (is_valid_record : TranscriptRecord → Bool)
    (dump : TranscriptRecord → Option (List ℕ)) where
  abbrev IsAgreed : List TranscriptRecord → SessionTranscript R → Type 0
  IsAgreed = Agrees is_session_id is_valid_record dump

  -- What an attempt leaves: agreement, and a file with the lines of the records, behind which there
  -- is something only after a failure.
  abbrev pub Leaves : SessionTranscript R × Option PersistenceFailureCode → Type 0
  Leaves (w, result) =
      (rs : List TranscriptRecord) × (left : List ℕ) × Agrees is_session_id is_valid_record dump rs
        w
      × (w.file.bytes ≡ lines dump rs ++ left)
      × (result ≡ none → left ≡ [])

  pub Leaves-equal :
      (a b : SessionTranscript R × Option PersistenceFailureCode) → a ≡ b → Leaves b → Leaves a
  Leaves-equal a b e l = subst Leaves (sym e) l

  pub unchanged :
      (rs : List TranscriptRecord) (w : SessionTranscript R) (code : PersistenceFailureCode)
      → IsAgreed rs w
      → w.file.bytes ≡ lines dump rs
      → Leaves (w, some code)
  unchanged rs w code a f =
      (rs, [], a, f ∙ sym (append-nil (lines dump rs)), λ e. absurd (ground (arith, e)))

  -- A failed append changes the file only.
  pub not_appended :
      (rs : List TranscriptRecord) (w : SessionTranscript R) (code : PersistenceFailureCode)
      (file : OpenFile) (left : List ℕ)
      → IsAgreed rs w
      → w.file.bytes ≡ lines dump rs
      → file.bytes ≡ w.file.bytes ++ left
      → Leaves (record w { file = file }, some code)
  not_appended rs w code file left a f g =
      (rs, left, a, g ∙ ap (λ bs. bs ++ left) f, λ e. absurd (ground (arith, e)))

module _ {R : Type 0} (is_session_id : String → Bool) (clock : ℕ → String)
    (is_valid_record : TranscriptRecord → Bool) (dump : TranscriptRecord → Option (List ℕ)) where
  pub appended :
      (rs : List TranscriptRecord) (w : SessionTranscript R) (file : OpenFile) (line text : List ℕ)
      (state : SessionState) (evidence : TranscriptEvidence) (pending : Option LoopLimitsObserved)
      (body : RecordBody) (p q : Progress)
      → replay_records is_session_id none 1 rs no_progress ≡ replayed p
      → p.records ≡ rs
      → Fits is_valid_record dump rs w
      → is_valid_record (make_record clock w body) ≡ true
      → encode_record dump (make_record clock w body) ≡ some line
      → w.next_record_order ≤ max_transcript_records
      → w.committed_bytes + length line ≤ max_transcript_bytes
      → replay_record is_session_id none w.next_record_order (make_record clock w body) p
        ≡ replayed q
      → Advances p (make_record clock w body) state evidence (length text) pending q
      → encode state.assistant_text ≡ some text
      → (w.closed ≡ false → pending ≡ evidence.loop_limits)
      → IsValid state
      → Agrees is_session_id is_valid_record dump
          (rs ++ make_record clock w body ∷ [])
          (committed w file line state evidence)
  appended rs w file line text state evidence pending body p q e i x v d h k s
        (sc, ar, st, ae, ab, pe) t l y =
      (
        q,
        replay_records-snoc is_session_id none 1 rs (make_record clock w body) no_progress p q e (
            subst
              (λ n. replay_record is_session_id none n (make_record clock w body) p ≡ replayed q)
              x.0 s),
        ar ∙ ap (λ v. v ++ make_record clock w body ∷ []) i,
        st,
        ae,
        inr sc,
        (text, t, sym ab),
        (λ c. pe ∙ l c),
        y,
        Fits-append is_valid_record dump rs w (make_record clock w body) line file x v d h k,
      )
