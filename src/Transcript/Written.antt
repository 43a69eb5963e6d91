-- ===== src/Transcript/Written.antt =====
-- The reader applied to the file that the writer leaves.
use code_assist_harness.Prelude.{
  ℕ, String, Option, none, some, Bool, true, List, [], ◌++◌, Text, length, All, append-nil, ◌≡◌, ap,
  ◌∙◌, arith,
}
use code_assist_harness.Utf8.{encode}
use code_assist_harness.Session.{SessionState}
use code_assist_harness.Session.Reducer.{is_terminal}
use code_assist_harness.Transcript.{TranscriptRecord, TranscriptEvidence}
use code_assist_harness.Transcript.Replay.{Progress, replayed, no_progress}
use code_assist_harness.Transcript.Lines.{
  unscoped, regular, TranscriptReplay, replay_lines, replay_file, replay_transcript,
}
use code_assist_harness.Transcript.RoundTrip.{IsOneLine, replay_lines-lines}
use code_assist_harness.Transcript.Sanitizer.{TranscriptSanitizer}
use code_assist_harness.Transcript.Writer.{
  PersistenceFailureCode, TranscriptFileOperations, SessionTranscript, new_transcript,
}
use code_assist_harness.Transcript.Writer.Requests.{Request, perform_all}
use code_assist_harness.Transcript.Writer.Records.{lines, IsAppendable}
use code_assist_harness.Transcript.Writer.Runs.{Belongs}
use code_assist_harness.Transcript.Writer.History.{requests-IsRecorded, new-IsRecorded}

module _ {R : Type 0} (redact : Text → Text) (redact_stream : R → Text → R × Text)
    (is_session_id : String → Bool) (clock : ℕ → String) (is_valid_record : TranscriptRecord → Bool)
    (dump : TranscriptRecord → Option (List ℕ)) (operations : TranscriptFileOperations)
    (write_summary : ℕ → SessionState → TranscriptEvidence → Option PersistenceFailureCode)
    (parse : List ℕ → Option TranscriptRecord)
    (parse-dump : (r : TranscriptRecord) (l : List ℕ)
      → is_valid_record r ≡ true
      → dump r ≡ some l
      → parse l ≡ some r)
    (dump-IsOneLine : (r : TranscriptRecord) (l : List ℕ)
      → dump r ≡ some l
      → IsOneLine l × ((t : Text) × (encode t ≡ some l))) where
  abbrev run_of : List Request → SessionTranscript R → SessionTranscript R
  run_of qs w =
      (perform_all redact redact_stream clock is_valid_record dump operations write_summary qs w).0

  abbrev result_of : SessionTranscript R → List TranscriptRecord → TranscriptReplay
  result_of w rs = record {
    records = rs;
    state = w.state;
    evidence = w.evidence;
    complete = is_terminal w.state.status;
  }

  same_result :
      (w : SessionTranscript R) (rs : List TranscriptRecord) (p : Progress)
      → p.records ≡ rs
      → p.state ≡ w.state
      → p.evidence ≡ w.evidence
      → (record {
        records = p.records;
        state = p.state;
        evidence = p.evidence;
        complete = is_terminal p.state.status;
      })
        ≡ result_of w rs
  same_result w rs p i s e = λ j. record {
    records = i j;
    state = s j;
    evidence = e j;
    complete = is_terminal (s j).status;
  }

  -- Whatever a session asks of its transcript, if no failure has been latched then its file is the
  -- encoded lines of valid records, one after the other and nothing else, and reading the file back
  -- succeeds: it gives those very records, the transcript's safe state and its evidence, and counts as
  -- complete exactly when that state is terminal. Relied on is that the encoding of a
  -- record is one line of UTF-8, and that a valid record's encoding parses to the record.
  pub written_file_replays :
      (ws sid : String) (z : TranscriptSanitizer R) (qs : List Request)
      → All (Belongs is_session_id sid) qs
      → (run_of qs (new_transcript ws sid z)).failure ≡ none
      → (rs : List TranscriptRecord) × ((run_of qs (new_transcript ws sid z)).file.bytes
          ≡ lines dump rs)
        × All (IsAppendable is_valid_record dump) rs
        × (replay_transcript parse is_session_id unscoped
              (regular (run_of qs (new_transcript ws sid z)).file.bytes)
            ≡ replayed (result_of (run_of qs (new_transcript ws sid z)) rs))
  unfolding replay_transcript replay_file
  written_file_replays ws sid z qs h n =
      let w = run_of qs (new_transcript ws sid z) in
      let (rs, ((p, e, i, s, y, _, _, _, _, (_, _, c, b, a)), (left, f, l))) =
        requests-IsRecorded redact redact_stream is_session_id clock is_valid_record dump operations
          write_summary qs [] (new_transcript ws sid z)
          (new-IsRecorded redact redact_stream is_session_id clock is_valid_record dump operations
            write_summary ws sid z)
          h in
      let stored : w.file.bytes ≡ lines dump rs =
        f ∙ ap (λ v. lines dump rs ++ v) (l n) ∙ append-nil (lines dump rs) in
      let read : replay_lines parse is_session_id (length (lines dump rs)) none 0 0 (lines dump rs)
            no_progress
          ≡ replayed p =
        replay_lines-lines parse is_session_id is_valid_record dump parse-dump dump-IsOneLine rs
          (length (lines dump rs)) 0 0 no_progress a (omega arith) (omega (arith, c))
          (omega (arith, b))
        ∙ e in
      (rs, stored, a, ground (arith, stored, read, b, same_result w rs p i s y))
