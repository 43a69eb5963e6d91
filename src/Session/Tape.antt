-- ===== src/Session/Tape.antt =====
-- What an accepted tape of updates shows of the session: sequence numbers, text and outcome.
use code_assist_harness.Prelude.{
  ℕ, zero, suc, ◌+◌, true, false, List, [], ◌∷◌, ◌++◌, Text, ◌≡◌, refl, arith, ◌⊎◌, inl, inr,
  append-nil, append_assoc, if◌then◌else◌, text_eq_iff,
}
use code_assist_harness.Protocol.{session_started, assistant_delta, assistant_completed, envelope}
use code_assist_harness.Session.{
  completed, SessionState, initial_session_state, SessionUpdate, event,
}
use code_assist_harness.Session.Reducer.{accept, reduce_session_state, replay_session_updates}
use code_assist_harness.Session.Invariant.{IsValid, initial-IsValid, reduce-IsValid}
use code_assist_harness.Session.Replay.{replay-accept, replay-IsValid}

-- The sequence number that one update carries.
abbrev pub sequence_of : SessionUpdate → List ℕ
sequence_of (event e) = (envelope e).sequence ∷ []
sequence_of _ = []

abbrev pub event_sequences : List SessionUpdate → List ℕ
event_sequences [] = []
event_sequences (u ∷ us) = sequence_of u ++ event_sequences us

-- The text that one update streams.
abbrev pub delta : SessionUpdate → Text
delta (event (assistant_delta e text)) = text
delta _ = []

abbrev pub deltas : List SessionUpdate → Text
deltas [] = []
deltas (u ∷ us) = delta u ++ deltas us

-- The texts of the `assistant.completed` events.
abbrev pub completed_text : SessionUpdate → List Text
completed_text (event (assistant_completed e text)) = text ∷ []
completed_text _ = []

abbrev pub completed_texts : List SessionUpdate → List Text
completed_texts [] = []
completed_texts (u ∷ us) = completed_text u ++ completed_texts us

-- n, n + 1, … k numbers long.
abbrev pub count_up : ℕ → ℕ → List ℕ
count_up n zero = []
count_up n (suc k) = n ∷ count_up (n + 1) k

module _ (s m : SessionState) (v : IsValid s) where
  event_in_order :
      (u : SessionUpdate)
      → reduce_session_state s u ≡ accept m
      → ((sequence_of u ≡ []) × (m.last_sequence ≡ s.last_sequence))
        ⊎ ((sequence_of u ≡ (s.last_sequence + 1) ∷ []) × (m.last_sequence ≡ s.last_sequence + 1))
  unfolding reduce_session_state
  event_in_order (event (session_started e)) h = ground arith
  event_in_order (event _) h = ground arith
  event_in_order _ h = ground arith

  pub text-delta :
      (u : SessionUpdate)
      → reduce_session_state s u ≡ accept m
      → m.assistant_text ≡ s.assistant_text ++ delta u
  unfolding reduce_session_state
  text-delta (event (assistant_delta e text)) h = ground arith
  text-delta (event _) h = ground (arith, append-nil s.assistant_text)
  text-delta _ h = ground (arith, append-nil s.assistant_text)

  completion_once :
      (u : SessionUpdate)
      → reduce_session_state s u ≡ accept m
      → ((completed_text u ≡ [])
          × (m.assistant_completed ≡ s.assistant_completed)
          × (s.assistant_completed ≡ true → m.assistant_text ≡ s.assistant_text))
        ⊎ ((completed_text u ≡ s.assistant_text ∷ [])
            × (s.assistant_completed ≡ false)
            × (m.assistant_completed ≡ true)
            × (m.assistant_text ≡ s.assistant_text))
  unfolding reduce_session_state
  completion_once (event (assistant_completed e text)) h =
      ground (arith, text_eq_iff text s.assistant_text)
  completion_once (event _) h = ground arith
  completion_once _ h = ground arith

sequences_from :
    (us : List SessionUpdate) (s t : SessionState)
    → IsValid s
    → replay_session_updates us s ≡ accept t
    → (k : ℕ) × (event_sequences us ≡ count_up (s.last_sequence + 1) k)
      × (t.last_sequence ≡ s.last_sequence + k)
unfolding replay_session_updates
sequences_from [] s t v h = (0, refl, ground arith)
sequences_from (u ∷ us) s t v h =
    let (m, e, r) = replay-accept u us s t h in
    let v' : IsValid m = rw e at (reduce-IsValid s u v) in
    let (k, seqs, last) = sequences_from us m t v' r in
    elim (event_in_order s m v u e) [
      | inl (none_here, same) ↦ (k, ground (arith, seqs), ground arith)
      | inr (one_here, next) ↦ (suc k, ground (arith, seqs), ground arith)
    ]

text_from :
    (us : List SessionUpdate) (s t : SessionState)
    → IsValid s
    → replay_session_updates us s ≡ accept t
    → t.assistant_text ≡ s.assistant_text ++ deltas us
unfolding replay_session_updates
text_from [] s t v h = ground (arith, append-nil s.assistant_text)
text_from (u ∷ us) s t v h =
    let (m, e, r) = replay-accept u us s t h in
    let v' : IsValid m = rw e at (reduce-IsValid s u v) in
    ground (
      arith,
      text_from us m t v' r,
      text-delta s m v u e,
      append_assoc s.assistant_text (delta u) (deltas us),
    )

completion_from :
    (us : List SessionUpdate) (s t : SessionState)
    → IsValid s
    → replay_session_updates us s ≡ accept t
    → (completed_texts us ≡ (
        if s.assistant_completed
        then []
        else if t.assistant_completed
        then t.assistant_text ∷ []
        else []))
      × (s.assistant_completed ≡ true
          → (t.assistant_completed ≡ true) × (t.assistant_text ≡ s.assistant_text))
unfolding replay_session_updates
completion_from [] s t v h = ground arith
completion_from (u ∷ us) s t v h =
    let (m, e, r) = replay-accept u us s t h in
    let v' : IsValid m = rw e at (reduce-IsValid s u v) in
    ground (arith, completion_from us m t v' r, completion_once s m v u e)

-- On a tape that is accepted from the initial state, the events are numbered 1, 2, 3 and so on
-- without a gap, up to the last sequence number of the final state, and the final assistant text
-- is what the deltas of the tape stream, in order.
pub tape_contents :
    (us : List SessionUpdate) (t : SessionState)
    → replay_session_updates us initial_session_state ≡ accept t
    → (event_sequences us ≡ count_up 1 t.last_sequence) × (t.assistant_text ≡ deltas us)
tape_contents us t h =
    let (k, seqs, last) = sequences_from us initial_session_state t initial-IsValid h in
    let e : t.last_sequence ≡ k = omega arith in
    (rw e seqs, text_from us initial_session_state t initial-IsValid h)

-- A tape that replays to a completed session has exactly one assistant completion, and its text is
-- the whole text that the deltas of the tape stream.
pub completed_tape :
    (us : List SessionUpdate) (t : SessionState)
    → replay_session_updates us initial_session_state ≡ accept t
    → t.status ≡ completed
    → completed_texts us ≡ deltas us ∷ []
completed_tape us t h c =
    let done : t.assistant_completed ≡ true = (final-IsValid).text_reconciled c in
    ground (
      arith,
      done,
      tape_contents us t h,
      completion_from us initial_session_state t initial-IsValid h,
    )
  where
    final-IsValid : IsValid t
    final-IsValid = rw h at (replay-IsValid us initial_session_state initial-IsValid)
