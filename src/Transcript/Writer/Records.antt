-- ===== src/Transcript/Writer/Records.antt =====
-- What a transcript's file, counters and safe state have to do with the records written so far.
use code_assist_harness.Prelude.{
  ℕ, suc, ◌+◌, ◌≤◌, String, Option, none, some, Bool, true, false, ◌||◌, List, [], ◌∷◌, ◌++◌,
  length, length-append, append-nil, append_assoc, ltb, All, All-append, ◌≡◌, refl, sym, ap, ◌∙◌,
  subst, ◌⊎◌, inl, inr, arith, Bool-cases, Option-cases,
}
use code_assist_harness.Utf8.{encode}
use code_assist_harness.Session.Invariant.{IsValid}
use code_assist_harness.Transcript.{TranscriptRecord, max_transcript_bytes, max_transcript_records}
use code_assist_harness.Transcript.Replay.{
  Replayed, replayed, replay_error, uncaught, Progress, no_progress, replay_records, replay_record,
  ◌>>=◌,
}
use code_assist_harness.Transcript.Writer.{
  PersistenceFailureCode, transcript_write_failed, TranscriptFileOperations, OpenFile,
  SessionTranscript, append_and_flush, encode_record, append_record,
}
use code_assist_harness.Transcript.Writer.Appends.{append_and_flush-Appends}
use code_assist_harness.Transcript.Writer.Steps.{Scoped}

first_result :
    {A B : Type 0} (m : Replayed A) (k : A → Replayed B) (b : B)
    → (m >>= k) ≡ replayed b
    → (a : A) × (m ≡ replayed a) × (k a ≡ replayed b)
first_result (replayed a) k b e = (a, refl, e)
first_result (replay_error c n) k b e = absurd (ground arith)
first_result uncaught k b e = absurd (ground arith)

-- Replaying one record more.
pub replay_records-snoc :
    (is_session_id : String → Bool) (scope : Option String) (n : ℕ) (rs : List TranscriptRecord)
    (r : TranscriptRecord) (p q t : Progress)
    → replay_records is_session_id scope n rs p ≡ replayed q
    → replay_record is_session_id scope (length rs + n) r q ≡ replayed t
    → replay_records is_session_id scope n (rs ++ r ∷ []) p ≡ replayed t
unfolding replay_records
replay_records-snoc is_session_id scope n [] r p q t e f = ground (arith, e, f)
replay_records-snoc is_session_id scope n (x ∷ rs) r p q t e f =
    let (a, g, h) =
      first_result (replay_record is_session_id scope n x p)
        (replay_records is_session_id scope (suc n) rs) q e in
    rw g (
      replay_records-snoc is_session_id scope (suc n) rs r a q t h
        (subst (λ k. replay_record is_session_id scope k r q ≡ replayed t) (omega arith) f))

module _ (dump : TranscriptRecord → Option (List ℕ)) where
  -- The lines of records one after the other.
  abbrev line_of : TranscriptRecord → List ℕ
  line_of r = elim (encode_record dump r) [ none ↦ [] | some line ↦ line ]

  abbrev pub lines : List TranscriptRecord → List ℕ
  lines [] = []
  lines (r ∷ rs) = line_of r ++ lines rs

  pub lines-snoc :
      (rs : List TranscriptRecord) (r : TranscriptRecord) (line : List ℕ)
      → encode_record dump r ≡ some line
      → lines (rs ++ r ∷ []) ≡ lines rs ++ line
  lines-snoc [] r line e = ground (arith, e, append-nil (line_of r))
  lines-snoc (x ∷ rs) r line e =
      ap (λ bs. line_of x ++ bs) (lines-snoc rs r line e)
      ∙ sym (append_assoc (line_of x) (lines rs) line)

-- A record that could be appended: it is valid, and can be encoded to a line.
abbrev pub IsAppendable :
    (TranscriptRecord → Bool) → (TranscriptRecord → Option (List ℕ)) → TranscriptRecord → Type 0
IsAppendable is_valid_record dump r =
    (is_valid_record r ≡ true) × ((line : List ℕ) × (encode_record dump r ≡ some line))

-- The counters of a transcript are its records', and both keep to the capacity.
abbrev pub Fits :
    {R : Type 0}
    → (TranscriptRecord → Bool)
    → (TranscriptRecord → Option (List ℕ))
    → List TranscriptRecord
    → SessionTranscript R
    → Type 0
Fits is_valid_record dump rs w =
    (w.next_record_order ≡ length rs + 1)
    × (w.committed_bytes ≡ length (lines dump rs))
    × (length rs ≤ max_transcript_records)
    × (length (lines dump rs) ≤ max_transcript_bytes)
    × All (IsAppendable is_valid_record dump) rs

module _ {R : Type 0} (is_session_id : String → Bool) (is_valid_record : TranscriptRecord → Bool)
    (dump : TranscriptRecord → Option (List ℕ)) where
  -- The records replay to the safe state and the evidence of the transcript, and its counters are
  -- theirs.
  abbrev pub Agrees : List TranscriptRecord → SessionTranscript R → Type 0
  Agrees rs w =
      (p : Progress) × (replay_records is_session_id none 1 rs no_progress ≡ replayed p)
      × (p.records ≡ rs)
      × (p.state ≡ w.state)
      × (p.evidence ≡ w.evidence)
      × Scoped w.workspace_id w.session_id p
      × ((text : List ℕ) × (encode w.state.assistant_text ≡ some text)
          × (length text ≡ p.assistant_content_bytes))
      × (w.closed ≡ false → p.pending_loop_limits ≡ w.evidence.loop_limits)
      × IsValid w.state
      × Fits is_valid_record dump rs w

pub Fits-append :
    {R : Type 0} (is_valid_record : TranscriptRecord → Bool)
    (dump : TranscriptRecord → Option (List ℕ)) (rs : List TranscriptRecord)
    (w : SessionTranscript R) (r : TranscriptRecord) (line : List ℕ) (file : OpenFile)
    → Fits is_valid_record dump rs w
    → is_valid_record r ≡ true
    → encode_record dump r ≡ some line
    → w.next_record_order ≤ max_transcript_records
    → w.committed_bytes + length line ≤ max_transcript_bytes
    → Fits is_valid_record dump (rs ++ r ∷ []) (record w {
      file = file;
      next_record_order = w.next_record_order + 1;
      committed_bytes = w.committed_bytes + length line;
    })
Fits-append is_valid_record dump rs w r line file (o, c, n, b, a) v e h k =
    let l : length (lines dump (rs ++ r ∷ [])) ≡ length (lines dump rs) + length line =
      ap length (lines-snoc dump rs r line e) ∙ length-append (lines dump rs) line in
    let m : length (rs ++ r ∷ []) ≡ length rs + 1 = length-append rs (r ∷ []) in
    (
      omega (arith, m, o),
      omega (arith, l, c),
      omega (arith, m, o, h),
      omega (arith, l, c, k),
      All-append (IsAppendable is_valid_record dump) rs (r ∷ []) a ((v, (line, e)), tt),
    )

module _ {R : Type 0} (is_valid_record : TranscriptRecord → Bool)
    (dump : TranscriptRecord → Option (List ℕ)) (operations : TranscriptFileOperations) where
  -- A record is appended, or the file alone changes and a failure is reported.
  pub append_record-cases :
      (r : TranscriptRecord) (w : SessionTranscript R)
      → ((line : List ℕ) × (file : OpenFile) × (append_record is_valid_record dump operations r w
            ≡ (
              record w {
                file = file;
                next_record_order = w.next_record_order + 1;
                committed_bytes = w.committed_bytes + length line;
              },
              none,
            ))
          × (file.bytes ≡ w.file.bytes ++ line)
          × (is_valid_record r ≡ true)
          × (encode_record dump r ≡ some line)
          × (w.next_record_order ≤ max_transcript_records)
          × (w.committed_bytes + length line ≤ max_transcript_bytes))
        ⊎ ((code : PersistenceFailureCode) × (file : OpenFile) × (left : List ℕ) × (append_record
                is_valid_record dump operations r w
              ≡ (record w { file = file }, some code))
            × (file.bytes ≡ w.file.bytes ++ left))
  unfolding append_record
  append_record-cases r w = elim (Bool-cases (is_valid_record r)) [
    | inr v ↦ inr (transcript_write_failed, w.file, [], rw v refl, sym (append-nil w.file.bytes))
    | inl v ↦ elim (Option-cases (encode_record dump r)) [
      | inl e ↦
          inr (transcript_write_failed, w.file, [], rw (v, e) refl, sym (append-nil w.file.bytes))
      | inr (line, e) ↦
          elim (Bool-cases (
            ltb max_transcript_records w.next_record_order
            || ltb max_transcript_bytes (w.committed_bytes + length line))) [
              | inl g ↦ inr (
                transcript_write_failed,
                w.file,
                [],
                rw (v, e, g) refl,
                sym (append-nil w.file.bytes),
              )
              | inr g ↦ elim (append_and_flush-Appends operations line w.file) [
                | inl (a, b) ↦ inl (
                  line,
                  (append_and_flush operations line w.file).1,
                  rw (v, e, g, a) refl,
                  b,
                  v,
                  e,
                  ground (arith, g),
                  ground (arith, g),
                )
                | inr (code, left, a, b, c) ↦ inr (
                  code,
                  (append_and_flush operations line w.file).1,
                  left,
                  rw (v, e, g, a) refl,
                  b,
                )
              ]
            ]
    ]
  ]
