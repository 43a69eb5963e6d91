-- ===== src/Session/Examples.antt =====
-- A session that streams two deltas and completes, and a cancelled one.
use code_assist_harness.Prelude.{
  ℕ, some, true, List, [], ◌∷◌, ◌++◌, codes, String, ◌≡◌, refl, ◌↔◌, text_eq, opt_eq,
}
use code_assist_harness.Protocol.{
  Envelope, session_started, assistant_delta, assistant_completed, session_completed,
  session_cancelled,
}
use code_assist_harness.Session.{
  starting, running, completed, cancelled, sequence_gap, SessionState, SessionInvariantFailure,
  initial_session_state, SessionUpdate, task_submitted, cancel_requested, event, delta_type,
}
use code_assist_harness.Session.Reducer.{
  accept, is_terminal, reduce_session_state, replay_session_updates,
}
use code_assist_harness.Session.Step.{Step, reduce-iff-Step}
use code_assist_harness.Session.Invariant.{IsValid, initial-IsValid, reduce-IsValid}
use code_assist_harness.Session.Replay.{
  Steps, replay-iff-Steps, replay-rejected, terminal_ends_replay,
}
use code_assist_harness.Session.Tape.{
  event_sequences, completed_texts, count_up, tape_contents, completed_tape,
}

abbrev envelope_of : String → ℕ → Envelope
envelope_of c n = record {
  session_id = "ses_1";
  sequence = n;
  timestamp = "2026-07-16T12:34:56.789Z";
  correlation_id = some c;
}

abbrev opening : List SessionUpdate
opening =
    task_submitted "cmd_1" (codes "explain")
    ∷ event (session_started (envelope_of "cmd_1" 1))
    ∷ event (assistant_delta (envelope_of "cmd_1" 2) (codes "Hel"))
    ∷ []

abbrev closing : List SessionUpdate
closing =
    event (assistant_delta (envelope_of "cmd_1" 3) (codes "lo"))
    ∷ event (assistant_completed (envelope_of "cmd_1" 4) (codes "Hello"))
    ∷ event (session_completed (envelope_of "cmd_1" 5))
    ∷ []

abbrev submitted : SessionState
submitted = record initial_session_state {
  status = starting;
  start_command_id = some "cmd_1";
  task = some (codes "explain");
}

abbrev opened : SessionState
opened = record submitted {
  status = running;
  session_id = some "ses_1";
  last_sequence = 2;
  assistant_text = codes "Hel";
}

abbrev closed : SessionState
closed = record opened {
  status = completed;
  last_sequence = 5;
  assistant_text = codes "Hello";
  assistant_completed = true;
}

opening_replays : replay_session_updates opening initial_session_state ≡ accept opened
unfolding replay_session_updates reduce_session_state text_eq opt_eq
opening_replays = refl

whole_replays : replay_session_updates (opening ++ closing) initial_session_state ≡ accept closed
unfolding replay_session_updates reduce_session_state text_eq opt_eq
whole_replays = refl

cancelled_tape :
    (replay_session_updates
      (opening
        ++ cancel_requested "cmd_2" "ses_1"
          ∷ event (session_cancelled (envelope_of "cmd_2" 3))
          ∷ [])
      initial_session_state).state.status
    ≡ cancelled
unfolding replay_session_updates reduce_session_state text_eq opt_eq
cancelled_tape = refl

reduce-iff-Step_example :
    (reduce_session_state initial_session_state (task_submitted "cmd_1" (codes "explain"))
      ≡ accept submitted)
    ↔ Step initial_session_state submitted (task_submitted "cmd_1" (codes "explain"))
reduce-iff-Step_example =
    reduce-iff-Step initial_session_state submitted (task_submitted "cmd_1" (codes "explain"))

abbrev late_delta : SessionUpdate
late_delta = event (assistant_delta (envelope_of "cmd_1" 9) (codes "x"))

reduce-IsValid_example :
    IsValid
      (reduce_session_state initial_session_state (task_submitted "cmd_1" (codes "explain"))).state
reduce-IsValid_example =
    reduce-IsValid initial_session_state (task_submitted "cmd_1" (codes "explain")) initial-IsValid

replay-iff-Steps_example :
    (replay_session_updates opening initial_session_state ≡ accept opened)
    ↔ Steps initial_session_state opening opened
replay-iff-Steps_example = replay-iff-Steps opening initial_session_state opened

terminal_ends_replay_example : (◌≡◌ {A = List SessionUpdate} [] []) × (closed ≡ closed)
unfolding is_terminal
terminal_ends_replay_example =
    terminal_ends_replay (opening ++ closing) [] initial_session_state closed closed whole_replays
      refl whole_replays

tape_contents_example :
    (event_sequences (opening ++ closing) ≡ count_up 1 5) × (codes "Hello" ≡ codes "Hello")
tape_contents_example = tape_contents (opening ++ closing) closed whole_replays

completed_tape_example : completed_texts (opening ++ closing) ≡ codes "Hello" ∷ []
completed_tape_example = completed_tape (opening ++ closing) closed whole_replays refl

abbrev gap : SessionInvariantFailure
gap = record { code = sequence_gap; prior_status = running; event_type = delta_type }

replay-rejected_example :
    (prefix : List SessionUpdate) × (u : SessionUpdate) × (rest : List SessionUpdate)
    × (m : SessionState) × (late_delta ∷ closing ≡ prefix ++ u ∷ rest)
    × (replay_session_updates prefix opened ≡ accept m)
    × (reduce_session_state m u ≡ record { state = m; failure = some gap })
    × (replay_session_updates (late_delta ∷ closing) opened
        ≡ record { state = m; failure = some gap })
unfolding replay_session_updates reduce_session_state opt_eq
replay-rejected_example = replay-rejected (late_delta ∷ closing) opened gap refl
