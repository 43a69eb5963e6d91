-- ===== src/Session/Reducer.antt =====
-- The functions of session_state.py. The results of `_accept` and `_reject` keep the given state.
use code_assist_harness.Prelude.{
  ℕ, ◌+◌, String, Option, none, some, Bool, true, false, not, List, [], ◌∷◌, ◌++◌, ltb, text_eq,
  opt_eq, if◌then◌else◌,
}
use code_assist_harness.Protocol.{
  SessionEvent, session_started, assistant_delta, assistant_completed, session_completed,
  session_cancelled, session_failed, envelope,
}
use code_assist_harness.Session.{
  SessionStatus, idle, starting, running, awaiting_approval, cancelling, completed, cancelled,
  failed, InvariantFailureCode, illegal_transition, terminal_state_absorbing, correlation_mismatch,
  session_mismatch, sequence_gap, sequence_regression, assistant_after_completion,
  assistant_already_completed, assistant_completion_mismatch, session_completion_before_assistant,
  SessionState, initial_session_state, SessionUpdate, task_submitted, cancel_requested,
  approval_requested, approval_resolved, event, EventType, task_submitted_type,
  cancel_requested_type, approval_requested_type, approval_resolved_type, started_type, delta_type,
  text_completed_type, completed_type, SessionReduction, session_event_type, event_type,
}

abbrev pub accept : SessionState → SessionReduction
accept s = record { state = s; failure = none }

abbrev pub reject : SessionState → InvariantFailureCode → EventType → SessionReduction
reject s c t = record {
  state = s;
  failure = some (record { code = c; prior_status = s.status; event_type = t });
}

-- Membership in `TERMINAL_SESSION_STATUSES`.
unfoldable pub is_terminal : SessionStatus → Bool
is_terminal completed = true
is_terminal cancelled = true
is_terminal failed = true
is_terminal _ = false

-- `state.status in legal_statuses[event_type]`.
unfoldable pub is_legal : SessionEvent → SessionStatus → Bool
is_legal (session_started e) starting = true
is_legal (assistant_delta e text) running = true
is_legal (assistant_delta e text) cancelling = true
is_legal (assistant_completed e text) running = true
is_legal (assistant_completed e text) cancelling = true
is_legal (session_completed e) running = true
is_legal (session_completed e) cancelling = true
is_legal (session_cancelled e) cancelling = true
is_legal (session_failed e code message) running = true
is_legal (session_failed e code message) awaiting_approval = true
is_legal (session_failed e code message) cancelling = true
is_legal _ _ = false

unfoldable pub expected_correlation : SessionState → SessionEvent → Option String
expected_correlation s (session_cancelled e) = s.cancel_command_id
expected_correlation s _ = s.start_command_id

-- `_sequence_failure`, followed by the rest of the handler when it returns `None`.
unfoldable pub sequenced : SessionState → ℕ → EventType → SessionReduction → SessionReduction
sequenced s sequence t rest =
    if ltb sequence (s.last_sequence + 1)
    then reject s sequence_regression t
    else if ltb (s.last_sequence + 1) sequence
    then reject s sequence_gap t
    else rest

-- The handlers of `_reduce_session_event` below the sequence check.
unfoldable pub reduce_payload : SessionState → SessionEvent → SessionReduction
reduce_payload s (session_started e) =
    accept
      (record s { status = running; session_id = some e.session_id; last_sequence = e.sequence })
reduce_payload s (assistant_delta e text) =
    if s.assistant_completed
    then reject s assistant_after_completion delta_type
    else accept (record s { last_sequence = e.sequence; assistant_text = s.assistant_text ++ text })
reduce_payload s (assistant_completed e text) =
    if s.assistant_completed
    then reject s assistant_already_completed text_completed_type
    else if not (text_eq text s.assistant_text)
    then reject s assistant_completion_mismatch text_completed_type
    else accept (record s { last_sequence = e.sequence; assistant_completed = true })
reduce_payload s (session_completed e) =
    if not s.assistant_completed
    then reject s session_completion_before_assistant completed_type
    else accept (record s { status = completed; last_sequence = e.sequence })
reduce_payload s (session_cancelled e) =
    accept (record s { status = cancelled; last_sequence = e.sequence })
reduce_payload s (session_failed e code message) = accept (record s {
  status = failed;
  last_sequence = e.sequence;
  session_failure = some (record { code = code; message = message });
})

-- Every event but the first must name the session that the first one established.
unfoldable pub reduce_identified : SessionState → SessionEvent → SessionReduction
unfolding sequenced reduce_payload session_event_type
reduce_identified s (session_started e) =
    sequenced s e.sequence started_type (reduce_payload s (session_started e))
reduce_identified s e =
    if not (opt_eq (some (envelope e).session_id) s.session_id)
    then reject s session_mismatch (session_event_type e)
    else sequenced s (envelope e).sequence (session_event_type e) (reduce_payload s e)

unfoldable pub reduce_session_event : SessionState → SessionEvent → SessionReduction
unfolding is_legal expected_correlation reduce_identified
reduce_session_event s e =
    if not (is_legal e s.status)
    then reject s illegal_transition (session_event_type e)
    else if not (opt_eq (envelope e).correlation_id (expected_correlation s e))
    then reject s correlation_mismatch (session_event_type e)
    else reduce_identified s e

-- The status test and the session test of a trusted fact about the active session.
unfoldable pub for_session :
    SessionState → Bool → String → EventType → SessionState → SessionReduction
for_session s legal session_id t next =
    if not legal
    then reject s illegal_transition t
    else if not (opt_eq (some session_id) s.session_id)
    then reject s session_mismatch t
    else accept next

abbrev pub is_status : SessionStatus → SessionStatus → Bool
is_status idle idle = true
is_status starting starting = true
is_status running running = true
is_status awaiting_approval awaiting_approval = true
is_status cancelling cancelling = true
is_status completed completed = true
is_status cancelled cancelled = true
is_status failed failed = true
is_status _ _ = false

abbrev pub is_cancellable : SessionStatus → Bool
is_cancellable running = true
is_cancellable awaiting_approval = true
is_cancellable _ = false

-- The branches of `reduce_session_state` below the terminal guard.
unfoldable pub reduce_active : SessionState → SessionUpdate → SessionReduction
unfolding for_session reduce_session_event
reduce_active s (task_submitted command_id task) =
    if not (is_status s.status idle)
    then reject s illegal_transition task_submitted_type
    else accept (record initial_session_state {
      status = starting;
      start_command_id = some command_id;
      task = some task;
    })
reduce_active s (cancel_requested command_id session_id) =
    for_session s (is_cancellable s.status) session_id cancel_requested_type
      (record s { status = cancelling; cancel_command_id = some command_id })
reduce_active s (approval_requested session_id) =
    for_session s (is_status s.status running) session_id approval_requested_type
      (record s { status = awaiting_approval })
reduce_active s (approval_resolved session_id) =
    for_session s (is_status s.status awaiting_approval) session_id approval_resolved_type
      (record s { status = running })
reduce_active s (event e) = reduce_session_event s e

unfoldable pub reduce_session_state : SessionState → SessionUpdate → SessionReduction
unfolding is_terminal reduce_active event_type
reduce_session_state s u =
    if is_terminal s.status
    then reject s terminal_state_absorbing (event_type u)
    else reduce_active s u

-- The loop of `replay_session_updates`: it stops at the first rejected update.
unfoldable pub replay_session_updates : List SessionUpdate → SessionState → SessionReduction
replay_session_updates [] s = accept s
replay_session_updates (u ∷ us) s =
    let result = reduce_session_state s u in
    let rest = replay_session_updates us result.state in
    elim result.failure [ none ↦ rest | some f ↦ result ]
