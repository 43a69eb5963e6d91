-- ===== src/ProviderSession/Decisions.antt =====
-- provider_session.py: the decisions of a session about the observations of its provider. Each
-- function holds the decision lock. The clock and the writer are parameters that answer by the
-- number of the call: whether the deadline is due at a reading, and whether a write succeeds.
use code_assist_harness.Prelude.{
  ℕ, ◌+◌, String, Option, none, some, Bool, true, false, ◌||◌, not, List, [], ◌∷◌, ◌++◌, Text, ltb,
  length, text_eq, is_some, if◌then◌else◌, ok,
}
use code_assist_harness.Utf8.{encode}
use code_assist_harness.Protocol.{Envelope, SessionEvent, assistant_delta}
use code_assist_harness.Protocol.Writer.{max_safe_sequence}
use code_assist_harness.Limits.Tracker.{
  reserve_bytes, observe_tool_call, mark_provider_work_exhausted,
}
use code_assist_harness.Session.{SessionUpdate, event}
use code_assist_harness.Session.Reducer.{reduce_session_state}
use code_assist_harness.ProviderSession.{
  ProviderSession, SelectedOutcome, Observation, text_delta, text_completed, usage_reported,
  provider_completed, provider_failed, tool_call_requested, unsupported, provider_failure_code,
  wait_closed, failure_outcome, invalid_response_outcome, provider_deadline_outcome,
  output_limit_outcome, tool_call_limit_outcome, tool_unavailable_outcome, completed_selection,
  join_texts, model_usage, max_provider_turn_output_bytes,
}

-- An operation returns, or raises an exception; either way it leaves a session.
pub data Effect : Type 0 where
  done raised : ProviderSession → Effect

abbrev pub after : Effect → ProviderSession
after (done s) = s
after (raised s) = s

-- What follows is skipped once an exception is raised.
abbrev pub and_then : Effect → (ProviderSession → Effect) → Effect
and_then (done s) k = k s
and_then (raised s) k = raised s

-- `not self._accepted_text`.
abbrev pub no_text : List Text → Bool
no_text [] = true
no_text (t ∷ ts) = false

-- `_select_locked`.
unfoldable pub select : SelectedOutcome → ProviderSession → ProviderSession
select outcome s = if is_some s.selection then s else record s { selection = some outcome }

-- `_latch_provider_deadline_locked`, without the cleanup that it starts.
unfoldable pub latch_provider_deadline : ProviderSession → ProviderSession
latch_provider_deadline s = if s.deadline_latched then s else record s {
  deadline_latched = true;
  limit_tracker = mark_provider_work_exhausted s.limit_tracker;
}

-- A call of an observer, where there is one, returns or raises an exception.
unfoldable pub call_observer : Option (ℕ → Bool) → ProviderSession → Effect
call_observer observer s = elim observer [
  | none ↦ done s
  | some returns ↦
      if returns s.calls
      then done (record s { calls = s.calls + 1 })
      else raised (record s { calls = s.calls + 1 })
]

-- `_notify_lifecycle`.
unfoldable pub notify_lifecycle : ProviderSession → Effect
unfolding call_observer
notify_lifecycle s = call_observer s.lifecycle_observer s

-- `_notify_loop_limits_once`; a snapshot never fails.
unfoldable pub notify_loop_limits : ProviderSession → Effect
notify_loop_limits s =
    if s.limits_observed
    then done s
    else call_observer s.limits_observer (record s { limits_observed = true })

-- `_accept_lifecycle_locked`; a rejected update is a RuntimeError.
unfoldable pub accept_lifecycle : SessionUpdate → ProviderSession → Effect
accept_lifecycle u s =
    let r = reduce_session_state s.lifecycle_state u in
    elim r.failure [
      | some f ↦ raised s
      | none ↦ notify_lifecycle (record s { lifecycle_state = r.state })
    ]

module _ (is_due writes : ℕ → Bool) (timestamp : ℕ → String) where
  -- `self._deadline_latched or self._deadline_is_due()`.
  unfoldable pub deadline_due : ProviderSession → ProviderSession × Bool
  deadline_due s =
      if s.deadline_latched then (s, true) else (record s { calls = s.calls + 1 }, is_due s.calls)

  abbrev pub expire : ProviderSession → ProviderSession
  expire s = select (provider_deadline_outcome s) (latch_provider_deadline s)

  -- `_select_candidate_locked`.
  unfoldable pub select_candidate : SelectedOutcome → ProviderSession → ProviderSession
  select_candidate candidate s =
      let (read, due) = deadline_due s in
      if is_some s.selection then s else if due then expire read else select candidate read

  -- `_select_deadline_if_due_locked`.
  unfoldable pub select_deadline_if_due : ProviderSession → ProviderSession × Bool
  select_deadline_if_due s =
      let (read, due) = deadline_due s in
      if is_some s.selection then (s, false) else if due then (expire read, true) else (read, false)

  -- `emit_session` of the writer, with the next number of the session, and `_accept_lifecycle_locked`.
  unfoldable pub publish : Option String → (Envelope → SessionEvent) → ProviderSession → Effect
  publish correlation_id event_of s =
      let number = length s.published + 1 in
      let called = record s { calls = s.calls + 1 } in
      let e = event_of record {
        session_id = s.session_id;
        sequence = number;
        timestamp = timestamp s.calls;
        correlation_id = correlation_id;
      } in
      if ltb max_safe_sequence number
      then raised s
      else if writes s.calls
      then accept_lifecycle (event e) (record called { published = s.published ++ e ∷ [] })
      else raised called

  -- The end of the branch for a delta: its bytes are reserved and within the turn's ceiling.
  unfoldable pub publish_delta : Text → ℕ → ProviderSession → Effect
  publish_delta text byte_count s =
      and_then (publish (some s.command_id) (λ e. assistant_delta e text) s) (λ t.
        done
          (select_deadline_if_due (record t {
            accepted_text = t.accepted_text ++ text ∷ [];
            accepted_text_bytes = t.accepted_text_bytes + byte_count;
          })).0)

  -- The branch for a delta from its reservation on, under the deadline lock.
  unfoldable pub reserve_delta : Text → ℕ → ProviderSession → Effect
  reserve_delta text byte_count s =
      let (read, due) = deadline_due s in
      let (tracker, granted) = reserve_bytes read.limit_tracker byte_count in
      let charged = record read { limit_tracker = tracker } in
      if is_some s.selection
      then done s
      else if due
      then done (expire read)
      else if not granted
      then done (select (output_limit_outcome s) charged)
      else if ltb max_provider_turn_output_bytes (s.accepted_text_bytes + byte_count)
      then done (select_candidate (invalid_response_outcome s) charged)
      else publish_delta text byte_count charged

  unfoldable pub accept_tool_call : ProviderSession → ProviderSession
  accept_tool_call s =
      let (read, due) = deadline_due s in
      let (tracker, admitted) = observe_tool_call read.limit_tracker in
      let charged = record read { limit_tracker = tracker } in
      if is_some s.selection
      then s
      else if due
      then expire read
      else select (if admitted then tool_unavailable_outcome s else tool_call_limit_outcome s)
          charged

  -- The branches of `_accept_observation`.
  unfoldable pub accept_branch : Observation → ProviderSession → Effect
  accept_branch (text_delta text) s =
      if is_some s.completed_text || s.usage_observed
      then done (select_candidate (invalid_response_outcome s) s)
      else elim (encode text) [
        | none ↦ done (select_candidate (invalid_response_outcome s) s)
        | some encoded ↦ reserve_delta text (length encoded) s
      ]
  accept_branch (text_completed text) s =
      if is_some s.completed_text
        || s.usage_observed
        || not (text_eq text (join_texts s.accepted_text))
      then done (select_candidate (invalid_response_outcome s) s)
      else done (record s { completed_text = some text })
  accept_branch (usage_reported input output) s =
      if not (is_some s.completed_text) || no_text s.accepted_text || s.usage_observed
      then done (select_candidate (invalid_response_outcome s) s)
      else elim (model_usage input output) [
        | ok usage ↦
            and_then (call_observer s.usage_observer s)
              (λ t. done (select_deadline_if_due (record t { usage_observed = true })).0)
        | _ ↦ done (select_candidate (invalid_response_outcome s) s)
      ]
  accept_branch provider_completed s =
      if not (is_some s.completed_text) || no_text s.accepted_text
      then done (select_candidate (invalid_response_outcome s) s)
      else done (select_candidate (completed_selection s) s)
  accept_branch (provider_failed code message) s =
      done (select_candidate (failure_outcome s wait_closed (provider_failure_code code) message) s)
  accept_branch tool_call_requested s = done (accept_tool_call s)
  accept_branch unsupported s = done (select_candidate (invalid_response_outcome s) s)

  -- `_accept_observation`.
  unfoldable pub accept_observation : Observation → ProviderSession → Effect
  accept_observation o s =
      let (checked, expired) = select_deadline_if_due s in
      if is_some s.selection
      then done s
      else if expired
      then done checked
      else accept_branch o checked
