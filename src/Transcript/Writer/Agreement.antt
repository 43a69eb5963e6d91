-- ===== src/Transcript/Writer/Agreement.antt =====
-- Recording an update keeps the records in agreement with the safe state and the file.
use code_assist_harness.Prelude.{
  ℕ, ◌+◌, ◌≤◌, String, Option, none, some, Bool, true, false, not, ◌||◌, List, [], ◌∷◌, ◌++◌, Text,
  length, append-nil, is_some, ◌≡◌, refl, sym, ap, ◌∙◌, subst, ◌⊎◌, inl, inr, arith, Bool-cases,
  Option-cases,
}
use code_assist_harness.Utf8.{encode}
use code_assist_harness.Session.{SessionState, SessionUpdate, event}
use code_assist_harness.Protocol.{session_completed, session_cancelled, session_failed}
use code_assist_harness.Session.Reducer.{accept, reduce_session_state, is_terminal}
use code_assist_harness.Session.Invariant.{IsValid, reduce-IsValid}
use code_assist_harness.Session.Tape.{text-delta, delta}
use code_assist_harness.Transcript.{
  TranscriptRecord, TranscriptEvidence, is_terminal_update, build_body, record_matches_session,
  max_replay_assistant_bytes, max_transcript_records, max_transcript_bytes,
}
use code_assist_harness.Transcript.Writer.{
  PersistenceFailureCode, transcript_write_failed, TranscriptFileOperations, OpenFile,
  SessionTranscript, encode_record, make_record,
}
use code_assist_harness.Transcript.Writer.Requests.{attempt_safe, settle, close}
use code_assist_harness.Transcript.Writer.Checks.{
  contradicts_evidence, same_lifecycle_invariants, exceeds_replay,
}
use code_assist_harness.Transcript.Writer.Steps.{Advances}
use code_assist_harness.Transcript.Writer.Rounds.{update_step}
use code_assist_harness.Transcript.Writer.Records.{Agrees, lines, lines-snoc, append_record-cases}
use code_assist_harness.Transcript.Writer.Leaves.{
  Leaves, Leaves-equal, unchanged, not_appended, committed, appended,
}

terminal_update :
    (s m : SessionState) (u : SessionUpdate)
    → reduce_session_state s u ≡ accept m
    → is_terminal_update u ≡ true
    → is_terminal m.status ≡ true
unfolding reduce_session_state is_terminal_update
terminal_update s m (event (session_completed e)) h t = ground arith
terminal_update s m (event (session_cancelled e)) h t = ground arith
terminal_update s m (event (session_failed e code message)) h t = ground arith
terminal_update s m (event _) h t = absurd (ground arith)
terminal_update s m _ h t = absurd (ground arith)

accepted_reduction :
    (s : SessionState) (u : SessionUpdate)
    → is_some (reduce_session_state s u).failure ≡ false
    → reduce_session_state s u ≡ accept (reduce_session_state s u).state
accepted_reduction s u h = elim (Option-cases (reduce_session_state s u).failure) [
  | inl e ↦ ap (λ f. record { state = (reduce_session_state s u).state; failure = f }) e
  | inr (f, e) ↦ absurd (ground (arith, e, h))
]

replayable :
    (t : Text)
    → exceeds_replay t ≡ false
    → (b : List ℕ) × (encode t ≡ some b) × (length b ≤ max_replay_assistant_bytes)
unfolding exceeds_replay
replayable t h = elim (Option-cases (encode t)) [
  | inl e ↦ absurd (ground (arith, e, h))
  | inr (b, e) ↦ (b, e, ground (arith, e, h))
]

-- Evidence of the limits goes with a terminal update.
settled_limits :
    (e : TranscriptEvidence) (u : SessionUpdate)
    → contradicts_evidence e u ≡ false
    → (e.loop_limits ≡ none) ⊎ (is_terminal_update u ≡ true)
unfolding contradicts_evidence
settled_limits e u h = elim (Option-cases e.loop_limits) [
  | inl l ↦ inl l
  | inr (x, l) ↦ inr (ground (arith, l, h))
]

module _ {R : Type 0} (is_session_id : String → Bool) (clock : ℕ → String)
    (is_valid_record : TranscriptRecord → Bool) (dump : TranscriptRecord → Option (List ℕ))
    (operations : TranscriptFileOperations)
    (write_summary : ℕ → SessionState → TranscriptEvidence → Option PersistenceFailureCode) where
  abbrev LeavesHere : SessionTranscript R × Option PersistenceFailureCode → Type 0
  LeavesHere = Leaves is_session_id is_valid_record dump

  -- A record of an update, once it is in the file.
  settle-Leaves :
      (rs : List TranscriptRecord) (w : SessionTranscript R) (file : OpenFile) (line : List ℕ)
      (u : SessionUpdate) (m : SessionState)
      → Agrees is_session_id is_valid_record dump rs w
      → w.closed ≡ false
      → w.file.bytes ≡ lines dump rs
      → file.bytes ≡ w.file.bytes ++ line
      → is_valid_record (make_record clock w (build_body u)) ≡ true
      → encode_record dump (make_record clock w (build_body u)) ≡ some line
      → w.next_record_order ≤ max_transcript_records
      → w.committed_bytes + length line ≤ max_transcript_bytes
      → record_matches_session w.session_id (build_body u) ≡ true
      → contradicts_evidence w.evidence u ≡ false
      → reduce_session_state w.state u ≡ accept m
      → exceeds_replay m.assistant_text ≡ false
      → LeavesHere (settle write_summary (committed w file line m w.evidence))
  unfolding settle close
  settle-Leaves rs w file line u m (p, e, i, s, v, sc, (t, te, tb), l, y, x) c f g d n k z h o a r =
      let (b, be, bk) = replayable m.assistant_text r in
      let (q, step, adv) =
        update_step is_session_id w.next_record_order (make_record clock w (build_body u)) p refl
          refl sc u m t b refl h (rw v o) (l c ∙ ap (λ z. z.loop_limits) (sym v)) (rw s a)
          (text-delta w.state m y u a ∙ ap (λ z. z.assistant_text ++ delta u) (sym s))
          (ap (λ z. encode z.assistant_text) s ∙ te) tb be bk in
      let valid : IsValid m = subst IsValid (ap (λ z. z.state) a) (reduce-IsValid w.state u y) in
      let stored : file.bytes ≡ lines dump (rs ++ make_record clock w (build_body u) ∷ []) =
        g
        ∙ ap (λ z. z ++ line) f
        ∙ sym (lines-snoc dump rs (make_record clock w (build_body u)) line n) in
      let adv' =
        subst (λ ev. Advances p (make_record clock w (build_body u)) m ev (length b) none q) v
          adv in
      let all = rs ++ make_record clock w (build_body u) ∷ [] in
      elim (Bool-cases (is_terminal m.status)) [
        | inl j ↦ rw j (
          all,
          [],
          appended is_session_id clock is_valid_record dump rs (record w { closed = true }) file
              line b m w.evidence none (build_body u) p q e i x d n k z step adv' be
              (λ c'. absurd (ground (arith, c'))) valid,
          stored ∙ sym (append-nil (lines dump all)),
          λ _. refl,
        )
        | inr j ↦ rw j (
          all,
          [],
          appended is_session_id clock is_valid_record dump rs w file line b m w.evidence none
              (build_body u) p q e i x d n k z step adv' be (λ _. sym (open_limits u m a o j))
              valid,
          stored ∙ sym (append-nil (lines dump all)),
          λ _. refl,
        )
      ]
    where
      open_limits :
          (u : SessionUpdate) (m : SessionState)
          → reduce_session_state w.state u ≡ accept m
          → contradicts_evidence w.evidence u ≡ false
          → is_terminal m.status ≡ false
          → w.evidence.loop_limits ≡ none
      open_limits u m a o j = elim (settled_limits w.evidence u o) [
        | inl l ↦ l
        | inr t ↦ absurd (ground (arith, terminal_update w.state m u a t, j))
      ]

  pub attempt_safe-Leaves :
      (rs : List TranscriptRecord) (w : SessionTranscript R) (u : SessionUpdate)
      (accepted_state : SessionState)
      → Agrees is_session_id is_valid_record dump rs w
      → w.closed ≡ false
      → w.file.bytes ≡ lines dump rs
      → record_matches_session w.session_id (build_body u) ≡ true
      → LeavesHere
          (attempt_safe clock is_valid_record dump operations write_summary u accepted_state w)
  unfolding attempt_safe
  attempt_safe-Leaves rs w u accepted_state a c f h =
      let m = (reduce_session_state w.state u).state in
      let guard =
        contradicts_evidence w.evidence u
        || is_some (reduce_session_state w.state u).failure
        || not (same_lifecycle_invariants m accepted_state)
        || exceeds_replay m.assistant_text in
      let now =
        attempt_safe clock is_valid_record dump operations write_summary u accepted_state w in
      elim (Bool-cases guard) [
        | inl g ↦
            Leaves-equal is_session_id is_valid_record dump now (w, some transcript_write_failed)
              (ground (arith, g))
              (unchanged is_session_id is_valid_record dump rs w transcript_write_failed a f)
        | inr g ↦
            elim (append_record-cases is_valid_record dump operations
              (make_record clock w (build_body u)) w) [
                | inl (line, file, e, j, v, d, k, z) ↦
                    Leaves-equal is_session_id is_valid_record dump now
                      (settle write_summary (committed w file line m w.evidence))
                      (ground (arith, g, e))
                      (settle-Leaves rs w file line u m a c f j v d k z h (ground (arith, g))
                        (accepted_reduction w.state u (ground (arith, g))) (ground (arith, g)))
                | inr (code, file, left, e, j) ↦
                    Leaves-equal is_session_id is_valid_record dump now
                      (record w { file = file }, some code) (ground (arith, g, e))
                      (not_appended is_session_id is_valid_record dump rs w code file left a f j)
              ]
      ]
