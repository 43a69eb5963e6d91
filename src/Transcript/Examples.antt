-- ===== src/Transcript/Examples.antt =====
-- A short session that is recorded and read back, with files that write two bytes at a time or fail.
use code_assist_harness.Prelude.{
  ℕ, ◌+◌, ◌≤◌, String, str_eq, str_eq_iff, All, Option, none, some, Bool, true, false, ◌&&◌, List,
  [], ◌∷◌, ◌++◌, Text, codes, length, ltb, text_eq, text_eq_iff, ◌==◌, if◌then◌else◌, opt_eq, ◌≡◌,
  refl, sym, ap, subst, ◌⊎◌, inl, inr, arith, Bool-cases,
}
use code_assist_harness.Utf8.{encode, encode_char, decode_char, decode_two}
use code_assist_harness.Session.{
  SessionState, task_submitted, initial_session_state, starting, failed,
}
use code_assist_harness.Session.Reducer.{reduce_session_state, reduce_active, is_terminal, accept}
use code_assist_harness.Session.Invariant.{IsValid, initial-IsValid}
use code_assist_harness.Transcript.{
  TranscriptRecord, TranscriptEvidence, RecordBody, domain_fact, task_submitted_input, build_body,
  record_matches_session, uses_loop_limit_failure_code, no_evidence,
}
use code_assist_harness.Transcript.Summary.{summary_lines, end_lines, text_of}
use code_assist_harness.Transcript.Summary.Layout.{summary_layout, read_lines, IsLine}
use code_assist_harness.Transcript.RoundTrip.{IsOneLine}
use code_assist_harness.Transcript.Sanitizer.{
  TranscriptSanitizer, bound_utf8, decode_ignore, sanitize_update, bounded, truncation_marker,
}
use code_assist_harness.Transcript.Writer.{
  PersistenceFailureCode, OpenFile, TranscriptFileOperations, SessionTranscript, new_transcript,
  write_all, append_record, append_and_flush, encode_record,
}
use code_assist_harness.Transcript.Writer.Checks.{
  contradicts_evidence, same_lifecycle_invariants, exceeds_replay,
}
use code_assist_harness.Transcript.Writer.Requests.{
  Request, record_update, close_transcript, perform_all, perform, report, attempt, attempt_update,
  attempt_safe, settle, close, take_failure,
}
use code_assist_harness.Transcript.Writer.Appends.{
  Appends, Writes, append_and_flush-Appends, write_all-Writes,
}
use code_assist_harness.Transcript.Writer.Records.{lines, IsAppendable}
use code_assist_harness.Transcript.Writer.History.{history_replays, failure_once}
use code_assist_harness.Transcript.Writer.Seals.{sealed_unchanged}
use code_assist_harness.Transcript.Written.{written_file_replays}
use code_assist_harness.Transcript.Lines.{replay_transcript, unscoped, regular}
use code_assist_harness.Transcript.Replay.{replayed, Progress, no_progress, replay_records}
use code_assist_harness.Transcript.Bounds.{bound_utf8-bounded, IsBounded}
use code_assist_harness.Transcript.Sanitized.{sanitized_accepted, Mirrors}

abbrev greeting : TranscriptRecord
greeting = record {
  version = 3;
  record_order = 1;
  recorded_at = "t";
  workspace_id = "w";
  session_id = "s";
  body = domain_fact (task_submitted_input "c" (120 ∷ []));
}

abbrev is_greeting_body : RecordBody → Bool
is_greeting_body (domain_fact (task_submitted_input c t)) = str_eq c "c" && text_eq t (120 ∷ [])
is_greeting_body _ = false

-- A codec that knows one record.
abbrev is_greeting : TranscriptRecord → Bool
is_greeting r =
    r.version == 3
    && r.record_order == 1
    && str_eq r.recorded_at "t"
    && str_eq r.workspace_id "w"
    && str_eq r.session_id "s"
    && is_greeting_body r.body

abbrev dump_greeting : TranscriptRecord → Option (List ℕ)
dump_greeting r = if is_greeting r then some (codes "{}") else none

abbrev parse_greeting : List ℕ → Option TranscriptRecord
parse_greeting l = some greeting

greeting_body : (b : RecordBody) → is_greeting_body b ≡ true → b ≡ greeting.body
greeting_body (domain_fact (task_submitted_input c t)) h =
    ground (arith, str_eq_iff c "c", text_eq_iff t (120 ∷ []), h)
greeting_body (domain_fact _) h = absurd (ground (arith, h))
greeting_body _ h = absurd (ground (arith, h))

greeting_only : (r : TranscriptRecord) → is_greeting r ≡ true → r ≡ greeting
greeting_only r h = ground (
  arith,
  h,
  str_eq_iff r.recorded_at "t",
  str_eq_iff r.workspace_id "w",
  str_eq_iff r.session_id "s",
  greeting_body r.body,
)

greeting_parses :
    (r : TranscriptRecord) (l : List ℕ)
    → true ≡ true
    → dump_greeting r ≡ some l
    → parse_greeting l ≡ some r
greeting_parses r l v d = elim (Bool-cases (is_greeting r)) [
  | inl h ↦ ap some (sym (greeting_only r h))
  | inr h ↦ absurd (ground (arith, h, d))
]

greeting_line :
    (r : TranscriptRecord) (l : List ℕ)
    → dump_greeting r ≡ some l
    → IsOneLine l × ((t : Text) × (encode t ≡ some l))
unfolding encode encode_char
greeting_line r l d = elim (Bool-cases (is_greeting r)) [
  | inr h ↦ absurd (ground (arith, h, d))
  | inl h ↦
      let same : codes "{}" ≡ l = ground (arith, h, d) in
      (subst IsOneLine same (ground arith), (codes "{}", ap some same))
]

abbrev operations : (ℕ → List ℕ → Option ℕ) → TranscriptFileOperations
operations write = record {
  write = write;
  flush = λ n. true;
  truncate = λ n. true;
  seek = λ n. true;
}

abbrev two_by_two : TranscriptFileOperations
two_by_two = operations (λ n bs. some 2)

abbrev disk_full : TranscriptFileOperations
disk_full = operations (λ n bs. none)

abbrev same_text : Text → Text
same_text t = t

abbrev same_stream : Unit {0} → Text → Unit {0} × Text
same_stream u t = (u, t)

abbrev any_id : String → Bool
any_id s = true

abbrev any_record : TranscriptRecord → Bool
any_record r = true

abbrev clock : ℕ → String
clock n = "t"

abbrev summary_written : ℕ → SessionState → TranscriptEvidence → Option PersistenceFailureCode
summary_written n s e = none

abbrev sanitizer : TranscriptSanitizer (Unit {0})
sanitizer = record {
  text_limit_bytes = 16384;
  tail = tt;
  safe_assistant_text = [];
  assistant_content_bytes = 0;
  assistant_content_exhausted = false;
}

abbrev submitted : SessionState
submitted = record initial_session_state {
  status = starting;
  start_command_id = some "c";
  task = some (codes "x");
}

abbrev requests : List Request
requests = record_update (task_submitted "c" (codes "x")) submitted ∷ close_transcript ∷ []

abbrev run_with :
    TranscriptFileOperations → SessionTranscript (Unit {0}) × List PersistenceFailureCode
run_with ops =
    perform_all same_text same_stream clock any_record dump_greeting ops summary_written requests
      (new_transcript "w" "s" sanitizer)

belong : record_matches_session "s" (build_body (task_submitted "c" (codes "x"))) ≡ true
unfolding record_matches_session build_body
belong = refl

no_failure : (run_with two_by_two).0.failure ≡ none
unfolding perform_all perform report attempt attempt_update attempt_safe sanitize_update bounded
    bound_utf8 encode encode_char contradicts_evidence uses_loop_limit_failure_code
    reduce_session_state reduce_active same_lifecycle_invariants opt_eq exceeds_replay append_record
    encode_record append_and_flush write_all settle close take_failure is_terminal build_body
    text_eq
no_failure = refl

written_file_replays_example :
    (rs : List TranscriptRecord) × ((run_with two_by_two).0.file.bytes ≡ lines dump_greeting rs)
    × All (IsAppendable any_record dump_greeting) rs
    × (replay_transcript parse_greeting any_id unscoped (regular (run_with two_by_two).0.file.bytes)
        ≡ replayed (record {
          records = rs;
          state = (run_with two_by_two).0.state;
          evidence = (run_with two_by_two).0.evidence;
          complete = is_terminal (run_with two_by_two).0.state.status;
        }))
written_file_replays_example =
    written_file_replays same_text same_stream any_id clock any_record dump_greeting two_by_two
      summary_written parse_greeting greeting_parses greeting_line "w" "s" sanitizer requests
      (belong, (tt, tt)) no_failure

history_replays_example :
    (rs : List TranscriptRecord) × (p : Progress) × (left : List ℕ) × (replay_records any_id none 1
        rs no_progress
      ≡ replayed p)
    × (p.records ≡ rs)
    × (p.state ≡ (run_with two_by_two).0.state)
    × (p.evidence ≡ (run_with two_by_two).0.evidence)
    × ((run_with two_by_two).0.file.bytes ≡ lines dump_greeting rs ++ left)
    × ((run_with two_by_two).0.failure ≡ none → left ≡ [])
history_replays_example =
    history_replays same_text same_stream any_id clock any_record dump_greeting two_by_two
      summary_written "w" "s" sanitizer requests (belong, (tt, tt))

failure_once_example : length (run_with disk_full).1 ≤ 1
failure_once_example =
    failure_once same_text same_stream any_id clock any_record dump_greeting disk_full
      summary_written "w" "s" sanitizer requests

sealed_unchanged_example :
    let w = new_transcript "w" "s" sanitizer in
    let shut =
      (perform same_text same_stream clock any_record dump_greeting two_by_two summary_written
        close_transcript w).0 in
    let last =
      (perform_all same_text same_stream clock any_record dump_greeting two_by_two summary_written
        requests shut).0 in
    (last.file ≡ shut.file) × (last.state ≡ shut.state) × (last.evidence ≡ shut.evidence)
sealed_unchanged_example =
    sealed_unchanged same_text same_stream any_id clock any_record dump_greeting two_by_two
      summary_written (new_transcript "w" "s" sanitizer) close_transcript requests (inr refl)

abbrev empty_file : OpenFile
empty_file = record { bytes = []; calls = 0 }

append_and_flush-Appends_example :
    Appends disk_full [] (codes "{}") (append_and_flush disk_full (codes "{}") empty_file)
append_and_flush-Appends_example = append_and_flush-Appends disk_full (codes "{}") empty_file

write_all-Writes_example :
    Writes two_by_two [] (codes "{}x") (write_all two_by_two 3 (codes "{}x") empty_file)
write_all-Writes_example = write_all-Writes two_by_two 3 (codes "{}x") empty_file (omega arith)

-- Sixteen characters, the first of two bytes, under a limit that cuts it.
abbrev accented : Text
accented = 0xE9 ∷ codes "ABCDEFGHIJKLMNO"

accented_cut : bound_utf8 accented 12 ≡ some truncation_marker
unfolding bound_utf8 encode encode_char decode_ignore decode_char decode_two
accented_cut = refl

bound_utf8-bounded_example :
    ((truncation_marker ≡ accented)
      ⊎ ((front : Text) × (back : Text) × (accented ≡ front ++ back)
          × (truncation_marker ≡ front ++ truncation_marker)))
    × ((bytes : List ℕ) × (encode truncation_marker ≡ some bytes) × (length bytes ≤ 12))
bound_utf8-bounded_example =
    bound_utf8-bounded accented truncation_marker 12 (omega arith) accented_cut

sanitized :
    sanitize_update same_text same_stream sanitizer (task_submitted "c" (codes "x"))
    ≡ some (sanitizer, task_submitted "c" (codes "x"))
unfolding sanitize_update bounded bound_utf8 encode encode_char
sanitized = refl

submission_accepted :
    reduce_session_state initial_session_state (task_submitted "c" (codes "x")) ≡ accept submitted
unfolding reduce_session_state reduce_active is_terminal
submission_accepted = refl

sanitized_accepted_example :
    (next : SessionState) × (reduce_session_state initial_session_state
        (task_submitted "c" (codes "x"))
      ≡ accept next)
    × (same_lifecycle_invariants next submitted ≡ true)
    × Mirrors sanitizer submitted next
    × IsValid next
    × IsBounded sanitizer
sanitized_accepted_example =
    sanitized_accepted same_text same_stream sanitizer sanitizer initial_session_state
      initial_session_state submitted (task_submitted "c" (codes "x"))
      (task_submitted "c" (codes "x")) (omega arith, omega arith) initial-IsValid
      (refl, refl, refl, refl, refl, refl, refl, refl, λ e. refl) submission_accepted tt sanitized

-- Numbers of one digit; the others are marked.
abbrev digit : ℕ → Text
digit n = (if ltb n 10 then 48 + n else 63) ∷ []

digit-IsLine : (n : ℕ) → IsLine (digit n)
digit-IsLine n = ground arith

-- A failed session whose task and failure hold line feeds.
abbrev broken_lines : SessionState
broken_lines = record initial_session_state {
  status = failed;
  session_id = some "s";
  task = some (97 ∷ 10 ∷ 98 ∷ []);
  session_failure = some record { code = "c"; message = 10 ∷ 10 ∷ [] };
}

abbrev opt_list : Option Text → List Text
opt_list none = []
opt_list (some t) = t ∷ []

id-IsLine : (t : Text) → text_of broken_lines.session_id ≡ some t → IsLine t
id-IsLine t e = (subst (λ o. All IsLine (opt_list o)) e (refl, tt)).0

summary_layout_example :
    read_lines (end_lines (summary_lines digit broken_lines no_evidence (codes "s.jsonl")))
    ≡ summary_lines digit broken_lines no_evidence (codes "s.jsonl") ++ [] ∷ []
summary_layout_example =
    summary_layout digit digit-IsLine broken_lines no_evidence (codes "s.jsonl") refl id-IsLine
