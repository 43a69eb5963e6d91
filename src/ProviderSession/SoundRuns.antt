-- ===== src/ProviderSession/SoundRuns.antt =====
-- Every run of operations keeps the text of a session sound.
use code_assist_harness.Prelude.{
  ℕ, String, some, Bool, true, List, [], ◌∷◌, Text, inl, inr, arith, Option-cases,
}
use code_assist_harness.Protocol.{session_started}
use code_assist_harness.Session.{cancel_requested}
use code_assist_harness.Limits.{LoopLimits}
use code_assist_harness.Limits.Tracker.{admit_model_turn}
use code_assist_harness.ProviderSession.{
  ProviderSession, invalid_response_outcome, model_turn_limit_outcome, new_session,
}
use code_assist_harness.ProviderSession.Decisions.{
  call_observer, notify_lifecycle, after, latch_provider_deadline, accept_lifecycle, deadline_due,
  publish,
}
use code_assist_harness.ProviderSession.Operations.{
  attach_observer, attach_usage, attach_limits, attach_model_usage_observer,
  attach_loop_limits_observer, attach_lifecycle_observer, Operation, start_run, start_operation,
  observe, end_stream, request_cancellation, request_teardown, deadline_passes, finish, perform,
  perform_all, accept_deferred, publish_started, start_provider_operation, select_user_cancellation,
  finalize, watch_provider_deadline, cancelled_selection, teardown_selection,
}
use code_assist_harness.ProviderSession.Streamed.{
  IsSound, Agree, Agree-IsSound, accept_lifecycle-Agree, latch-Agree, select-IsSound,
  admitted-IsSound, publish-Agree, deadline_due-Agree, expire-IsSound, select_candidate-IsSound,
  emit_outcome-Agree,
}
use code_assist_harness.ProviderSession.Soundness.{invalid-IsSound, accept_observation-IsSound}

new_session-IsSound :
    (command_id session_id : String) (task : Text) (limits : LoopLimits)
    → IsSound (new_session command_id session_id task limits)
new_session-IsSound command_id session_id task limits = ground arith

module _ (is_due writes : ℕ → Bool) (timestamp : ℕ → String) where
  accept_deferred-Agree :
      (s : ProviderSession) → Agree s (after (accept_deferred is_due writes timestamp s))
  unfolding accept_deferred accept_lifecycle notify_lifecycle call_observer
  accept_deferred-Agree s = ground arith

  publish_started-Agree :
      (s : ProviderSession) → Agree s (after (publish_started is_due writes timestamp s))
  unfolding publish_started
  publish_started-Agree s =
      let p =
        publish is_due writes timestamp (some s.command_id) session_started
          (record s { run_started = true }) in
      ground (
        arith,
        publish-Agree is_due writes timestamp (some s.command_id) session_started
            (record s { run_started = true }),
        accept_deferred-Agree (after p),
      )

  publish_started-IsSound :
      (s : ProviderSession)
      → IsSound s
      → IsSound (after (publish_started is_due writes timestamp s))
  publish_started-IsSound s i =
      Agree-IsSound s (after (publish_started is_due writes timestamp s)) (publish_started-Agree s)
        i

  start_provider_operation-IsSound :
      (returns : Bool) (s : ProviderSession)
      → IsSound s
      → IsSound (start_provider_operation is_due writes timestamp returns s)
  unfolding start_provider_operation
  start_provider_operation-IsSound returns s i =
      let r = (deadline_due is_due writes timestamp s).0 in
      let j = Agree-IsSound s r (deadline_due-Agree is_due writes timestamp s) i in
      let t = record r { limit_tracker = (admit_model_turn r.limit_tracker).0 } in
      let k = admitted-IsSound r j in
      let u = (deadline_due is_due writes timestamp t).0 in
      let l = Agree-IsSound t u (deadline_due-Agree is_due writes timestamp t) k in
      ground (
        arith,
        i,
        expire-IsSound is_due writes timestamp r j,
        select-IsSound (model_turn_limit_outcome s) t (ground arith) k,
        expire-IsSound is_due writes timestamp u l,
        select-IsSound (invalid_response_outcome s) u (ground arith) l,
        Agree-IsSound u (record u { events_claimed = true }) (ground arith) l,
      )

  deferred_or_accepted-IsSound :
      (c : String) (s : ProviderSession)
      → IsSound s
      → IsSound (record s { deferred_cancellation = some c })
  deferred_or_accepted-IsSound c s i =
      Agree-IsSound s (record s { deferred_cancellation = some c }) (ground arith) i

  select_user_cancellation-IsSound :
      (c : String) (s : ProviderSession)
      → IsSound s
      → IsSound (after (select_user_cancellation is_due writes timestamp c s))
  unfolding select_user_cancellation
  select_user_cancellation-IsSound c s i =
      let d = record s { deferred_cancellation = some c } in
      let l = accept_lifecycle (cancel_requested c s.session_id) s in
      let j = deferred_or_accepted-IsSound c s i in
      let k =
        Agree-IsSound s (after l) (accept_lifecycle-Agree (cancel_requested c s.session_id) s) i in
      ground (
        arith,
        i,
        j,
        k,
        select_candidate-IsSound is_due writes timestamp (cancelled_selection c) d (ground arith) j,
        select_candidate-IsSound is_due writes timestamp (cancelled_selection c) (after l)
            (ground arith) k,
      )

  finalize-Agree : (s : ProviderSession) → Agree s (after (finalize is_due writes timestamp s))
  finalize-Agree s = elim (Option-cases s.selection) [
    | inl e ↦ unfold finalize in ground (arith, e)
    | inr (o, e) ↦
        unfold finalize in ground (arith, e, emit_outcome-Agree is_due writes timestamp o s)
  ]

  finalize-IsSound :
      (s : ProviderSession) → IsSound s → IsSound (after (finalize is_due writes timestamp s))
  finalize-IsSound s i =
      Agree-IsSound s (after (finalize is_due writes timestamp s)) (finalize-Agree s) i

  watch-IsSound : (s : ProviderSession) → IsSound s → IsSound (watch_provider_deadline s)
  unfolding watch_provider_deadline
  watch-IsSound s i =
      ground (arith, i, Agree-IsSound s (latch_provider_deadline s) (latch-Agree s) i)

  attach_others-Agree :
      (f : ℕ → Bool) (s : ProviderSession)
      → Agree s (after (attach_model_usage_observer f s))
        × Agree s (after (attach_loop_limits_observer f s))
  unfolding attach_model_usage_observer attach_loop_limits_observer
  attach_others-Agree f s = (ground arith, ground arith)

  attach-Agree :
      (f : ℕ → Bool) (s : ProviderSession) → Agree s (after (attach_lifecycle_observer f s))
  unfolding attach_lifecycle_observer notify_lifecycle call_observer
  attach-Agree f s = ground arith

  -- Every operation keeps a session sound.
  perform-IsSound :
      (o : Operation) (s : ProviderSession)
      → IsSound s
      → IsSound (after (perform is_due writes timestamp o s))
  unfolding perform
  perform-IsSound (attach_observer f) s i =
      Agree-IsSound s (after (attach_lifecycle_observer f s)) (attach-Agree f s) i
  perform-IsSound (attach_usage f) s i =
      Agree-IsSound s (after (attach_model_usage_observer f s)) (attach_others-Agree f s).0 i
  perform-IsSound (attach_limits f) s i =
      Agree-IsSound s (after (attach_loop_limits_observer f s)) (attach_others-Agree f s).1 i
  perform-IsSound start_run s i = publish_started-IsSound s i
  perform-IsSound (start_operation r) s i = start_provider_operation-IsSound r s i
  perform-IsSound (observe o) s i = accept_observation-IsSound is_due writes timestamp o s i
  perform-IsSound end_stream s i = invalid-IsSound is_due writes timestamp s i
  perform-IsSound (request_cancellation c) s i = select_user_cancellation-IsSound c s i
  perform-IsSound request_teardown s i =
      select_candidate-IsSound is_due writes timestamp teardown_selection s (ground arith) i
  perform-IsSound deadline_passes s i = watch-IsSound s i
  perform-IsSound finish s i = finalize-IsSound s i

  perform_all-IsSound :
      (os : List Operation) (s : ProviderSession)
      → IsSound s
      → IsSound (perform_all is_due writes timestamp os s)
  unfolding perform_all
  perform_all-IsSound [] s i = i
  perform_all-IsSound (o ∷ os) s i =
      perform_all-IsSound os (after (perform is_due writes timestamp o s)) (perform-IsSound o s i)

  -- Whatever the provider sends and in whatever order the operations come, a new session stays sound:
  -- its count of taken bytes is within the turn's ceiling and within the bytes that the tracker has
  -- reserved, which are within the configured output budget; a completed text is the joined text of
  -- the accepted deltas; and the outcome is a completion only with such a text, from at least one
  -- delta.
  pub session_text :
      (os : List Operation) (command_id session_id : String) (task : Text) (limits : LoopLimits)
      → IsSound
          (perform_all is_due writes timestamp os (new_session command_id session_id task limits))
  session_text os command_id session_id task limits =
      perform_all-IsSound os (new_session command_id session_id task limits)
        (new_session-IsSound command_id session_id task limits)
