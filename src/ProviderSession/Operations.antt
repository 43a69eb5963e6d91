-- ===== src/ProviderSession/Operations.antt =====
-- provider_session.py: the operations of a session, each of which takes the decision lock once. They
-- are run by the session's own task, by requests, by the deadline watcher and by the finalizer, in any
-- order that the locks allow.
use code_assist_harness.Prelude.{
  ℕ, Text, Option, some, String, none, Bool, true, false, ◌||◌, not, List, [], ◌∷◌, is_some,
  if◌then◌else◌,
}
use code_assist_harness.Protocol.{
  Envelope, SessionEvent, session_started, assistant_completed, session_completed,
  session_cancelled, session_failed,
}
use code_assist_harness.Limits.Tracker.{admit_model_turn}
use code_assist_harness.Session.{cancel_requested, starting}
use code_assist_harness.Session.Reducer.{is_status}
use code_assist_harness.ProviderSession.{
  ProviderSession, SelectedOutcome, Observation, OutcomeKind, completed_outcome, failed_outcome,
  cancelled_outcome, teardown_outcome, cancel, invalid_response_outcome, model_turn_limit_outcome,
}
use code_assist_harness.ProviderSession.Decisions.{
  Effect, done, raised, after, and_then, select, latch_provider_deadline, notify_lifecycle,
  notify_loop_limits, accept_lifecycle, deadline_due, expire, select_candidate, publish,
  accept_observation,
}

abbrev pub cancelled_selection : String → SelectedOutcome
cancelled_selection command_id = record {
  kind = cancelled_outcome;
  cleanup_mode = cancel;
  failure_code = none;
  failure_message = none;
  correlation_id = some command_id;
}

abbrev pub teardown_selection : SelectedOutcome
teardown_selection = record {
  kind = teardown_outcome;
  cleanup_mode = cancel;
  failure_code = none;
  failure_message = none;
  correlation_id = none;
}

-- `_watch_provider_deadline`, once the deadline has come.
unfoldable pub watch_provider_deadline : ProviderSession → ProviderSession
watch_provider_deadline s = if is_some s.selection then s else latch_provider_deadline s

-- What happens to a session. `end_stream` is a stream that stops, fails or raises before a terminal
-- observation.
pub data Operation : Type 0 where
  attach_observer attach_usage attach_limits : (ℕ → Bool) → Operation
  start_run : Operation
  start_operation : Bool → Operation
  observe : Observation → Operation
  end_stream : Operation
  request_cancellation : String → Operation
  request_teardown : Operation
  deadline_passes : Operation
  finish : Operation

-- `attach_lifecycle_observer`.
unfoldable pub attach_lifecycle_observer : (ℕ → Bool) → ProviderSession → Effect
attach_lifecycle_observer returns s =
    if s.run_started || is_some s.lifecycle_observer
    then raised s
    else notify_lifecycle (record s { lifecycle_observer = some returns })

-- `attach_model_usage_observer` and `attach_loop_limits_observer`.
unfoldable pub attach_model_usage_observer : (ℕ → Bool) → ProviderSession → Effect
attach_model_usage_observer returns s =
    if s.run_started || is_some s.usage_observer
    then raised s
    else done (record s { usage_observer = some returns })

unfoldable pub attach_loop_limits_observer : (ℕ → Bool) → ProviderSession → Effect
attach_loop_limits_observer returns s =
    if s.run_started || is_some s.limits_observer
    then raised s
    else done (record s { limits_observer = some returns })

abbrev pub is_teardown : OutcomeKind → Bool
is_teardown teardown_outcome = true
is_teardown _ = false

module _ (is_due writes : ℕ → Bool) (timestamp : ℕ → String) where
  -- The deferred cancellation of `_publish_started`.
  unfoldable pub accept_deferred : ProviderSession → Effect
  accept_deferred s = elim s.deferred_cancellation [
    | none ↦ done s
    | some command_id ↦
        and_then (accept_lifecycle (cancel_requested command_id s.session_id) s)
          (λ t. done (record t { deferred_cancellation = none }))
  ]

  -- `_publish_started`, as `run` calls it: a session runs only once.
  unfoldable pub publish_started : ProviderSession → Effect
  publish_started s =
      if s.run_started
      then raised s
      else and_then
          (and_then
            (publish is_due writes timestamp (some s.command_id) session_started
              (record s { run_started = true }))
            accept_deferred)
          (λ t. done (record t { session_started_successfully = true }))

  -- `_start_provider_operation`, with whether the provider's calls return.
  unfoldable pub start_provider_operation : Bool → ProviderSession → ProviderSession
  start_provider_operation returns s =
      let (read, due) = deadline_due is_due writes timestamp s in
      let (tracker, admitted) = admit_model_turn read.limit_tracker in
      let charged = record read { limit_tracker = tracker } in
      let (again, late) = deadline_due is_due writes timestamp charged in
      if is_some s.selection
      then s
      else if due
      then expire is_due writes timestamp read
      else if not admitted
      then select (model_turn_limit_outcome s) charged
      else if late
      then expire is_due writes timestamp again
      else if not returns
      then select (invalid_response_outcome s) again
      else record again { events_claimed = true }

  -- `_select_user_cancellation`.
  unfoldable pub select_user_cancellation : String → ProviderSession → Effect
  select_user_cancellation command_id s =
      let deferred =
        if is_status s.lifecycle_state.status starting
        then done (record s { deferred_cancellation = some command_id })
        else accept_lifecycle (cancel_requested command_id s.session_id) s in
      if is_some s.selection
      then done s
      else and_then deferred
          (λ t. done (select_candidate is_due writes timestamp (cancelled_selection command_id) t))

  -- A terminal event, right after the limits have been observed.
  unfoldable pub publish_terminal :
      Option String → (Envelope → SessionEvent) → ProviderSession → Effect
  publish_terminal correlation_id event_of s =
      and_then (notify_loop_limits s)
        (λ t. publish is_due writes timestamp correlation_id event_of t)

  -- The two events of a completion.
  unfoldable pub publish_completion : Text → ProviderSession → Effect
  publish_completion text s =
      and_then
        (publish is_due writes timestamp (some s.command_id) (λ e. assistant_completed e text) s)
        (λ t. publish_terminal (some t.command_id) session_completed t)

  -- The events of `_emit_selected_terminal` for an outcome.
  unfoldable pub emit_outcome : SelectedOutcome → ProviderSession → Effect
  emit_outcome o s = elim o.kind [
    | completed_outcome ↦ elim s.completed_text [
      | none ↦ raised s
      | some text ↦ publish_completion text s
    ]
    | failed_outcome ↦ elim o.failure_code [
      | none ↦ raised s
      | some code ↦ elim o.failure_message [
        | none ↦ raised s
        | some message ↦ publish_terminal (some s.command_id) (λ e. session_failed e code message) s
      ]
    ]
    | cancelled_outcome ↦ elim o.correlation_id [
      | none ↦ raised s
      | some command_id ↦ publish_terminal (some command_id) session_cancelled s
    ]
    | teardown_outcome ↦ raised s
  ]

  -- `_finalize` from the end of the cleanup on, and `_emit_selected_terminal`.
  unfoldable pub finalize : ProviderSession → Effect
  finalize s = elim s.selection [
    | none ↦ done s
    | some o ↦
        let emitted =
          and_then (emit_outcome o s) (λ t. done (record t { terminal_emitted = true })) in
        if is_teardown o.kind || not s.session_started_successfully || s.terminal_emitted
        then done s
        else emitted
  ]

  unfoldable pub perform : Operation → ProviderSession → Effect
  perform (attach_observer returns) s = attach_lifecycle_observer returns s
  perform (attach_usage returns) s = attach_model_usage_observer returns s
  perform (attach_limits returns) s = attach_loop_limits_observer returns s
  perform start_run s = publish_started s
  perform (start_operation returns) s = done (start_provider_operation returns s)
  perform (observe o) s = accept_observation is_due writes timestamp o s
  perform end_stream s =
      done (select_candidate is_due writes timestamp (invalid_response_outcome s) s)
  perform (request_cancellation command_id) s = select_user_cancellation command_id s
  perform request_teardown s = done (select_candidate is_due writes timestamp teardown_selection s)
  perform deadline_passes s = done (watch_provider_deadline s)
  perform finish s = finalize s

  -- Operations one after the other, whether they return or raise an exception.
  unfoldable pub perform_all : List Operation → ProviderSession → ProviderSession
  perform_all [] s = s
  perform_all (o ∷ os) s = perform_all os (after (perform o s))
