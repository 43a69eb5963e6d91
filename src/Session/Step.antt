-- ===== src/Session/Step.antt =====
-- The legal steps of a session, stated without the reducer: which update leads from which state to
-- which, and on what conditions.
use code_assist_harness.Prelude.{
  ◌+◌, String, Option, some, true, false, Text, ◌++◌, ◌≡◌, ◌↔◌, ◌⊎◌, inl, inr, arith, Option-cases,
  text_eq_iff, opt_eq, opt_eq_iff,
}
use code_assist_harness.Protocol.{
  Envelope, session_started, assistant_delta, assistant_completed, session_completed,
  session_cancelled, session_failed,
}
use code_assist_harness.Session.{
  idle, starting, running, awaiting_approval, cancelling, completed, cancelled, failed,
  SessionState, initial_session_state, SessionUpdate, task_submitted, cancel_requested,
  approval_requested, approval_resolved, event, SessionInvariantFailure, event_type,
}
use code_assist_harness.Session.Reducer.{accept, reduce_session_state}

-- The event answers the given command, names this session, and is the next in its sequence.
pub record Addressed (s : SessionState) (command : Option String) (e : Envelope) : Type 0 where
  pub correlated : e.correlation_id ≡ command
  pub identified : some e.session_id ≡ s.session_id
  pub in_order : e.sequence ≡ s.last_sequence + 1

-- Output may arrive while the session runs, or while its cancellation is on the way.
abbrev pub IsStreaming : SessionState → Type 0
IsStreaming s = (s.status ≡ running) ⊎ (s.status ≡ cancelling)

abbrev pub IsCancellable : SessionState → Type 0
IsCancellable s = (s.status ≡ running) ⊎ (s.status ≡ awaiting_approval)

pub data Step (s t : SessionState) : SessionUpdate → Type 0 where
  submit :
      {c : String} {task : Text}
      → s.status ≡ idle
      → t ≡ record initial_session_state {
        status = starting;
        start_command_id = some c;
        task = some task;
      }
      → Step s t (task_submitted c task)
  cancel :
      {c i : String}
      → IsCancellable s
      → some i ≡ s.session_id
      → t ≡ record s { status = cancelling; cancel_command_id = some c }
      → Step s t (cancel_requested c i)
  await :
      {i : String}
      → s.status ≡ running
      → some i ≡ s.session_id
      → t ≡ record s { status = awaiting_approval }
      → Step s t (approval_requested i)
  resume :
      {i : String}
      → s.status ≡ awaiting_approval
      → some i ≡ s.session_id
      → t ≡ record s { status = running }
      → Step s t (approval_resolved i)
  start :
      {e : Envelope}
      → s.status ≡ starting
      → e.correlation_id ≡ s.start_command_id
      → e.sequence ≡ s.last_sequence + 1
      → t
        ≡ record s { status = running; session_id = some e.session_id; last_sequence = e.sequence }
      → Step s t (event (session_started e))
  stream :
      {e : Envelope} {text : Text}
      → IsStreaming s
      → Addressed s s.start_command_id e
      → s.assistant_completed ≡ false
      → t ≡ record s { last_sequence = e.sequence; assistant_text = s.assistant_text ++ text }
      → Step s t (event (assistant_delta e text))
  finish_text :
      {e : Envelope} {text : Text}
      → IsStreaming s
      → Addressed s s.start_command_id e
      → s.assistant_completed ≡ false
      → text ≡ s.assistant_text
      → t ≡ record s { last_sequence = e.sequence; assistant_completed = true }
      → Step s t (event (assistant_completed e text))
  complete :
      {e : Envelope}
      → IsStreaming s
      → Addressed s s.start_command_id e
      → s.assistant_completed ≡ true
      → t ≡ record s { status = completed; last_sequence = e.sequence }
      → Step s t (event (session_completed e))
  stop :
      {e : Envelope}
      → s.status ≡ cancelling
      → Addressed s s.cancel_command_id e
      → t ≡ record s { status = cancelled; last_sequence = e.sequence }
      → Step s t (event (session_cancelled e))
  fail :
      {e : Envelope} {code : String} {message : Text}
      → IsStreaming s ⊎ (s.status ≡ awaiting_approval)
      → Addressed s s.start_command_id e
      → t ≡ record s {
        status = failed;
        last_sequence = e.sequence;
        session_failure = some (record { code = code; message = message });
      }
      → Step s t (event (session_failed e code message))

-- What the two identity tests of an event mean.
identity_tests :
    (s : SessionState) (command : Option String) (e : Envelope)
    → ((opt_eq e.correlation_id command ≡ true) ↔ (e.correlation_id ≡ command))
      × ((opt_eq (some e.session_id) s.session_id ≡ true) ↔ (some e.session_id ≡ s.session_id))
identity_tests s command e =
    (opt_eq_iff e.correlation_id command, opt_eq_iff (some e.session_id) s.session_id)

Step-reduce :
    (s t : SessionState) (u : SessionUpdate) → reduce_session_state s u ≡ accept t → Step s t u
unfolding reduce_session_state
Step-reduce s t (task_submitted c task) h = submit (ground arith) (ground arith)
Step-reduce s t (cancel_requested c i) h =
    cancel (ground arith) (ground (arith, opt_eq_iff (some i) s.session_id)) (ground arith)
Step-reduce s t (approval_requested i) h =
    await (ground arith) (ground (arith, opt_eq_iff (some i) s.session_id)) (ground arith)
Step-reduce s t (approval_resolved i) h =
    resume (ground arith) (ground (arith, opt_eq_iff (some i) s.session_id)) (ground arith)
Step-reduce s t (event (session_started e)) h =
    start (ground arith) (ground (arith, opt_eq_iff e.correlation_id s.start_command_id))
      (ground arith) (ground arith)
Step-reduce s t (event (assistant_delta e text)) h =
    stream (ground arith) (ground (arith, identity_tests s s.start_command_id e)) (ground arith)
      (ground arith)
Step-reduce s t (event (assistant_completed e text)) h =
    finish_text (ground arith) (ground (arith, identity_tests s s.start_command_id e))
      (ground arith) (ground (arith, text_eq_iff text s.assistant_text)) (ground arith)
Step-reduce s t (event (session_completed e)) h =
    complete (ground arith) (ground (arith, identity_tests s s.start_command_id e)) (ground arith)
      (ground arith)
Step-reduce s t (event (session_cancelled e)) h =
    stop (ground arith) (ground (arith, identity_tests s s.cancel_command_id e)) (ground arith)
Step-reduce s t (event (session_failed e code message)) h =
    fail (ground arith) (ground (arith, identity_tests s s.start_command_id e)) (ground arith)

reduce-Step :
    (s t : SessionState) {u : SessionUpdate} → Step s t u → reduce_session_state s u ≡ accept t
unfolding reduce_session_state
reduce-Step s t (submit p q) = ground arith
reduce-Step s t (cancel {i = i} p q r) = ground (arith, opt_eq_iff (some i) s.session_id)
reduce-Step s t (await {i = i} p q r) = ground (arith, opt_eq_iff (some i) s.session_id)
reduce-Step s t (resume {i = i} p q r) = ground (arith, opt_eq_iff (some i) s.session_id)
reduce-Step s t (start {e = e} p q r w) =
    ground (arith, opt_eq_iff e.correlation_id s.start_command_id)
reduce-Step s t (stream {e = e} p a q r) = ground (arith, identity_tests s s.start_command_id e)
reduce-Step s t (finish_text {e = e} {text = text} p a q w r) =
    ground (arith, identity_tests s s.start_command_id e, text_eq_iff text s.assistant_text)
reduce-Step s t (complete {e = e} p a q r) = ground (arith, identity_tests s s.start_command_id e)
reduce-Step s t (stop {e = e} p a r) = ground (arith, identity_tests s s.cancel_command_id e)
reduce-Step s t (fail {e = e} p a r) = ground (arith, identity_tests s s.start_command_id e)

-- The reducer accepts an update with the new state t exactly when the update is a legal step from
-- the old state to t.
pub reduce-iff-Step :
    (s t : SessionState) (u : SessionUpdate) → (reduce_session_state s u ≡ accept t) ↔ Step s t u
reduce-iff-Step s t u = (Step-reduce s t u, λ h. reduce-Step s t h)

-- When the reducer reports a failure, the state is the one that it was given, and the failure
-- names the status of that state and the type of the update.
pub rejection_unchanged :
    (s : SessionState) (u : SessionUpdate) (f : SessionInvariantFailure)
    → (reduce_session_state s u).failure ≡ some f
    → ((reduce_session_state s u).state ≡ s)
      × (f.prior_status ≡ s.status)
      × (f.event_type ≡ event_type u)
unfolding reduce_session_state
rejection_unchanged s (task_submitted c task) f h = ground arith
rejection_unchanged s (event (session_started e)) f h = ground arith
rejection_unchanged s (event _) f h = ground arith
rejection_unchanged s _ f h = ground arith

-- An update either is accepted, or is reported with a failure and leaves the state as it was.
pub reduce-cases :
    (s : SessionState) (u : SessionUpdate)
    → ((m : SessionState) × (reduce_session_state s u ≡ accept m))
      ⊎ ((f : SessionInvariantFailure) × (reduce_session_state s u
            ≡ record { state = s; failure = some f }))
reduce-cases s u = elim (Option-cases (reduce_session_state s u).failure) [
  | inl e ↦ inl ((reduce_session_state s u).state, ground arith)
  | inr (f, e) ↦ inr (f, ground (arith, rejection_unchanged s u f))
]
