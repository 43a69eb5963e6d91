-- ===== src/Transcript/Writer.antt =====
-- `SessionTranscript` of persistence/transcript.py: appending records to the file of a session. A
-- method returns the new transcript beside its result; the lock makes the methods run one by one.
pub mod Checks
pub mod Requests
pub mod Appends
pub mod Steps
pub mod Rounds
pub mod Records
pub mod Leaves
pub mod Agreement
pub mod Evidence
pub mod Runs
pub mod Identity
pub mod Recorded
pub mod History
pub mod Seals
use code_assist_harness.Prelude.{
  ℕ, zero, suc, ◌+◌, String, str_eq, Option, none, some, Bool, true, false, not, ◌&&◌, ◌||◌, List,
  [], ◌∷◌, ◌++◌, ltb, ◌==◌, length, take, drop, opt_eq, is_some, Text, if◌then◌else◌,
}
use code_assist_harness.Utf8.{encode}
use code_assist_harness.Session.{
  SessionState, SessionFailure, SessionUpdate, running, initial_session_state,
}
use code_assist_harness.Session.Reducer.{reduce_session_state, is_terminal, is_status}
use code_assist_harness.Limits.Tracker.{LoopLimitsObserved}
use code_assist_harness.Transcript.{
  TranscriptRecord, RecordBody, model_usage_observed, loop_limits_observed, LimitsFields,
  ModelUsageObserved, TranscriptEvidence, no_evidence, build_body, is_terminal_update,
  loop_limits_match_terminal, uses_loop_limit_failure_code, is_delta, transcript_version,
  max_transcript_line_bytes, max_transcript_bytes, max_transcript_records,
  max_replay_assistant_bytes,
}
use code_assist_harness.Transcript.Replay.{no_text}
use code_assist_harness.Transcript.Sanitizer.{TranscriptSanitizer, sanitize_update}

pub data PersistenceFailureCode : Type 0 where
  transcript_open_failed transcript_write_failed : PersistenceFailureCode
  transcript_flush_failed transcript_summary_failed : PersistenceFailureCode

-- The calls on the open file, told apart by how many there were before; `write` returns a count or
-- raises, and the others succeed or raise.
pub record TranscriptFileOperations : Type 0 where
  pub write : ℕ → List ℕ → Option ℕ
  pub flush : ℕ → Bool
  pub truncate : ℕ → Bool
  pub seek : ℕ → Bool

pub record OpenFile : Type 0 where
  pub bytes : List ℕ
  pub calls : ℕ

abbrev pub called : OpenFile → OpenFile
called d = record d { calls = d.calls + 1 }

pub record SessionTranscript (R : Type 0) : Type 0 where
  pub workspace_id : String
  pub session_id : String
  pub sanitizer : TranscriptSanitizer R
  pub file : OpenFile
  pub state : SessionState
  pub evidence : TranscriptEvidence
  pub next_record_order : ℕ
  pub committed_bytes : ℕ
  pub failure : Option PersistenceFailureCode
  pub failure_reported : Bool
  pub closed : Bool

-- What `create` returns once the file is open.
abbrev pub new_transcript :
    {R : Type 0} → String → String → TranscriptSanitizer R → SessionTranscript R
new_transcript workspace_id session_id sanitizer = record {
  workspace_id = workspace_id;
  session_id = session_id;
  sanitizer = sanitizer;
  file = record { bytes = []; calls = 0 };
  state = initial_session_state;
  evidence = no_evidence;
  next_record_order = 1;
  committed_bytes = 0;
  failure = none;
  failure_reported = false;
  closed = false;
}

module _ (operations : TranscriptFileOperations) where
  -- The loop of `_write_all`, and whether it ends without an exception. A round that goes on has
  -- written a byte at least.
  unfoldable pub write_all : ℕ → List ℕ → OpenFile → OpenFile × Bool
  write_all fuel [] d = (d, true)
  write_all zero (b ∷ bs) d = (d, false)
  write_all (suc fuel) (b ∷ bs) d = elim (operations.write d.calls (b ∷ bs)) [
    | none ↦ (called d, false)
    | some zero ↦ (called d, false)
    | some (suc k) ↦
        write_all fuel (drop k bs)
          (record { bytes = d.bytes ++ b ∷ take k bs; calls = d.calls + 1 })
  ]

  unfoldable pub rollback_partial_append : ℕ → OpenFile → OpenFile
  rollback_partial_append start d =
      if operations.truncate d.calls
      then record { bytes = take start d.bytes; calls = d.calls + 2 }
      else called d

  -- `none` is the normal end.
  unfoldable pub append_and_flush : List ℕ → OpenFile → Option PersistenceFailureCode × OpenFile
  append_and_flush line d =
      let (written, complete) = write_all (length line) line (called d) in
      if not (operations.seek d.calls)
      then (some transcript_write_failed, called d)
      else if not complete
      then (some transcript_write_failed, rollback_partial_append (length d.bytes) written)
      else if operations.flush written.calls
      then (none, called written)
      else (some transcript_flush_failed, rollback_partial_append (length d.bytes) (called written))

-- `model_dump_json` with its encoding; `none` is the exception of a text that cannot be encoded.
module _ (dump : TranscriptRecord → Option (List ℕ)) where
  unfoldable pub encode_record : TranscriptRecord → Option (List ℕ)
  encode_record r = elim (dump r) [
    | none ↦ none
    | some line ↦
        if ltb max_transcript_line_bytes (length line) then none else some (line ++ 10 ∷ [])
  ]

-- `_build_record` and the constructors of the records of evidence; the clock gives the timestamp of
-- a record order.
module _ {R : Type 0} (clock : ℕ → String) where
  abbrev pub make_record : SessionTranscript R → RecordBody → TranscriptRecord
  make_record w body = record {
    version = transcript_version;
    record_order = w.next_record_order;
    recorded_at = clock w.next_record_order;
    workspace_id = w.workspace_id;
    session_id = w.session_id;
    body = body;
  }

-- Pydantic's validation and encoding of records, and the file operations.
module _ {R : Type 0} (is_valid_record : TranscriptRecord → Bool)
    (dump : TranscriptRecord → Option (List ℕ)) (operations : TranscriptFileOperations) where
  -- `_append_record`, after the record has been made: an invalid one raises as well.
  unfoldable pub append_record :
      TranscriptRecord → SessionTranscript R → SessionTranscript R × Option PersistenceFailureCode
  append_record r w =
      if not (is_valid_record r)
      then (w, some transcript_write_failed)
      else elim (encode_record dump r) [
        | none ↦ (w, some transcript_write_failed)
        | some line ↦
            if ltb max_transcript_records w.next_record_order
              || ltb max_transcript_bytes (w.committed_bytes + length line)
            then (w, some transcript_write_failed)
            else let (result, file) = append_and_flush operations line w.file in
              elim result [
                | some code ↦ (record w { file = file }, some code)
                | none ↦ (
                  record w {
                    file = file;
                    next_record_order = w.next_record_order + 1;
                    committed_bytes = w.committed_bytes + length line;
                  },
                  none,
                )
              ]
      ]
