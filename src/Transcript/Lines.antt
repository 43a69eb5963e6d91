-- ===== src/Transcript/Lines.antt =====
-- `replay_transcript` of persistence/transcript.py: the file, its lines and the result.
use code_assist_harness.Prelude.{
  ℕ, zero, suc, ◌+◌, String, Option, none, some, Bool, false, ◌&&◌, ◌||◌, not, List, [], ◌∷◌, ltb,
  ◌==◌, length, if◌then◌else◌,
}
use code_assist_harness.Utf8.{decode}
use code_assist_harness.Session.{SessionState}
use code_assist_harness.Session.Reducer.{is_terminal}
use code_assist_harness.Transcript.{
  TranscriptRecord, TranscriptEvidence, max_transcript_line_bytes, max_transcript_bytes,
  max_transcript_records,
}
use code_assist_harness.Transcript.Replay.{
  Replayed, replayed, replay_error, uncaught, ◌>>=◌, transcript_open_failed, invalid_framing,
  line_too_large, invalid_utf8, invalid_record, workspace_mismatch, not_regular_file,
  transcript_too_large, Progress, no_progress, replay_record,
}

-- `expected_workspace`: not given, with the identifier it derives, or without one.
pub data WorkspaceScope : Type 0 where
  unscoped : WorkspaceScope
  scoped : String → WorkspaceScope
  underivable : WorkspaceScope

-- What `os.open` and `os.fstat` find at the path.
pub data TranscriptFile : Type 0 where
  unopenable : TranscriptFile
  irregular : TranscriptFile
  regular : List ℕ → TranscriptFile

pub record TranscriptReplay : Type 0 where
  pub records : List TranscriptRecord
  pub state : SessionState
  pub evidence : TranscriptEvidence
  pub complete : Bool

-- `readline(n)`: up to n bytes, and none after a line feed. The rest of the file comes second.
unfoldable pub read_line : ℕ → List ℕ → List ℕ × List ℕ
read_line zero bs = ([], bs)
read_line (suc n) [] = ([], [])
read_line (suc n) (b ∷ bs) =
    let (line, rest) = read_line n bs in if b == 10 then (b ∷ [], bs) else (b ∷ line, rest)

unfoldable pub ends_with_lf : List ℕ → Bool
ends_with_lf [] = false
ends_with_lf (b ∷ []) = b == 10
ends_with_lf (b ∷ c ∷ bs) = ends_with_lf (c ∷ bs)

unfoldable pub ends_with_crlf : List ℕ → Bool
ends_with_crlf [] = false
ends_with_crlf (b ∷ []) = false
ends_with_crlf (b ∷ c ∷ []) = b == 13 && c == 10
ends_with_crlf (b ∷ c ∷ d ∷ bs) = ends_with_crlf (c ∷ d ∷ bs)

-- `line[:-1]`.
unfoldable pub all_but_last : List ℕ → List ℕ
all_but_last [] = []
all_but_last (b ∷ []) = []
all_but_last (b ∷ c ∷ bs) = b ∷ all_but_last (c ∷ bs)

-- `validate_json` of pydantic's adapter for records, and its test of a session identifier.
module _ (parse : List ℕ → Option TranscriptRecord) (is_session_id : String → Bool) where
  -- The checks on a line, given its number and the bytes read so far.
  unfoldable pub check_line : ℕ → ℕ → List ℕ → Replayed TranscriptRecord
  check_line n total line =
      if ltb max_transcript_bytes total || ltb max_transcript_records n
      then replay_error transcript_too_large (some n)
      else if ltb (max_transcript_line_bytes + 1) (length line)
      then replay_error line_too_large (some n)
      else if not (ends_with_lf line) || ends_with_crlf line
      then replay_error invalid_framing (some n)
      else elim (decode (all_but_last line)) [
        | none ↦ replay_error invalid_utf8 (some n)
        | some text ↦ elim (parse (all_but_last line)) [
          | none ↦ replay_error invalid_record (some n)
          | some r ↦ replayed r
        ]
      ]

  -- The loop over the lines. A round takes a byte at least, so as many rounds as bytes are enough.
  unfoldable pub replay_lines : ℕ → Option String → ℕ → ℕ → List ℕ → Progress → Replayed Progress
  replay_lines fuel scope n total [] p = replayed p
  replay_lines zero scope n total (b ∷ bs) p = uncaught
  replay_lines (suc fuel) scope n total (b ∷ bs) p =
      let (line, rest) = read_line (max_transcript_line_bytes + 2) (b ∷ bs) in
      check_line (suc n) (total + length line) line >>= λ r.
      replay_record is_session_id scope (suc n) r p
      >>= replay_lines fuel scope (suc n) (total + length line) rest

  abbrev replay_result : Progress → Replayed TranscriptReplay
  replay_result p = replayed (record {
    records = p.records;
    state = p.state;
    evidence = p.evidence;
    complete = is_terminal p.state.status;
  })

  unfoldable pub replay_file : Option String → TranscriptFile → Replayed TranscriptReplay
  replay_file scope unopenable = replay_error transcript_open_failed none
  replay_file scope irregular = replay_error not_regular_file none
  replay_file scope (regular bytes) =
      if ltb max_transcript_bytes (length bytes)
      then replay_error transcript_too_large none
      else replay_lines (length bytes) scope 0 0 bytes no_progress >>= replay_result

  unfoldable pub replay_transcript : WorkspaceScope → TranscriptFile → Replayed TranscriptReplay
  replay_transcript unscoped file = replay_file none file
  replay_transcript (scoped workspace_id) file = replay_file (some workspace_id) file
  replay_transcript underivable file = replay_error workspace_mismatch none
