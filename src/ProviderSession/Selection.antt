-- ===== src/ProviderSession/Selection.antt =====
-- The outcome of a session: which operation selects it, and that nothing changes it.
use code_assist_harness.Prelude.{
  ℕ, String, Option, some, Bool, true, List, [], ◌∷◌, ◌≡◌, refl, ◌∙◌, inl, inr, arith, Option-cases,
}
use code_assist_harness.Protocol.{
  Envelope, SessionEvent, session_started, session_completed, assistant_completed,
}
use code_assist_harness.Session.{SessionUpdate}
use code_assist_harness.ProviderSession.{ProviderSession, SelectedOutcome, Observation}
use code_assist_harness.ProviderSession.Decisions.{
  call_observer, notify_loop_limits, notify_lifecycle, after, accept_lifecycle, select_candidate,
  publish, accept_observation,
}
use code_assist_harness.ProviderSession.Operations.{
  attach_observer, attach_usage, attach_limits, attach_model_usage_observer,
  attach_loop_limits_observer, publish_terminal, publish_completion, attach_lifecycle_observer,
  Operation, start_run, start_operation, observe, end_stream, request_cancellation,
  request_teardown, deadline_passes, finish, perform, perform_all, accept_deferred, publish_started,
  start_provider_operation, select_user_cancellation, emit_outcome, finalize,
  watch_provider_deadline,
}
use code_assist_harness.ProviderSession.Emission.{emit_outcome-cases}

accept_lifecycle-selection :
    (u : SessionUpdate) (s : ProviderSession)
    → (after (accept_lifecycle u s)).selection ≡ s.selection
unfolding accept_lifecycle notify_lifecycle call_observer
accept_lifecycle-selection u s = ground arith

module _ (is_due writes : ℕ → Bool) (timestamp : ℕ → String) where
  publish-selection :
      (c : Option String) (f : Envelope → SessionEvent) (s : ProviderSession)
      → (after (publish is_due writes timestamp c f s)).selection ≡ s.selection
  unfolding publish accept_lifecycle notify_lifecycle call_observer
  publish-selection c f s = ground arith

  accept_deferred-selection :
      (s : ProviderSession)
      → (after (accept_deferred is_due writes timestamp s)).selection ≡ s.selection
  unfolding accept_deferred accept_lifecycle notify_lifecycle call_observer
  accept_deferred-selection s = ground arith

  -- A selected outcome stays.
  accept_observation-selection :
      (o : Observation) (s : ProviderSession) (x : SelectedOutcome)
      → s.selection ≡ some x
      → (after (accept_observation is_due writes timestamp o s)).selection ≡ some x
  unfolding accept_observation
  accept_observation-selection o s x h = ground (arith, h)

  publish_started-selection :
      (s : ProviderSession)
      → (after (publish_started is_due writes timestamp s)).selection ≡ s.selection
  unfolding publish_started
  publish_started-selection s = ground (
    arith,
    publish-selection (some s.command_id) session_started (record s { run_started = true }),
    accept_deferred-selection (
        after (
          publish is_due writes timestamp (some s.command_id) session_started
            (record s { run_started = true }))),
  )

  select_user_cancellation-selection :
      (c : String) (s : ProviderSession) (x : SelectedOutcome)
      → s.selection ≡ some x
      → (after (select_user_cancellation is_due writes timestamp c s)).selection ≡ some x
  unfolding select_user_cancellation
  select_user_cancellation-selection c s x h = ground (arith, h)

  publish_terminal-selection :
      (c : Option String) (f : Envelope → SessionEvent) (s : ProviderSession)
      → (after (publish_terminal is_due writes timestamp c f s)).selection ≡ s.selection
  unfolding publish_terminal notify_loop_limits call_observer
  publish_terminal-selection c f s =
      ground (arith, publish-selection c f s, publish-selection c f (after (notify_loop_limits s)))

  emit_outcome-selection :
      (o : SelectedOutcome) (s : ProviderSession)
      → (after (emit_outcome is_due writes timestamp o s)).selection ≡ s.selection
  emit_outcome-selection o s = elim (emit_outcome-cases is_due writes timestamp o s) [
    | inl e ↦ rw e refl
    | inr (inr (c, f, d, e)) ↦ rw e (publish_terminal-selection c f s)
    | inr (inl (text, e)) ↦
        let p =
          publish is_due writes timestamp (some s.command_id) (λ v. assistant_completed v text) s in
        let a = publish-selection (some s.command_id) (λ v. assistant_completed v text) s in
        let b =
          publish_terminal-selection (some (after p).command_id) session_completed (after p) in
        rw e (unfold publish_completion in ground (arith, a, b))
  ]

  finalize-selection :
      (s : ProviderSession) → (after (finalize is_due writes timestamp s)).selection ≡ s.selection
  finalize-selection s = elim (Option-cases s.selection) [
    | inl e ↦ unfold finalize in ground (arith, e)
    | inr (o, e) ↦ unfold finalize in ground (arith, e, emit_outcome-selection o s)
  ]

  perform-selection :
      (o : Operation) (s : ProviderSession) (x : SelectedOutcome)
      → s.selection ≡ some x
      → (after (perform is_due writes timestamp o s)).selection ≡ some x
  unfolding perform
  perform-selection (attach_observer f) s x h =
      unfold attach_lifecycle_observer notify_lifecycle call_observer in ground (arith, h)
  perform-selection (attach_usage f) s x h = unfold attach_model_usage_observer in ground (arith, h)
  perform-selection (attach_limits f) s x h =
      unfold attach_loop_limits_observer in ground (arith, h)
  perform-selection start_run s x h = publish_started-selection s ∙ h
  perform-selection (start_operation returns) s x h =
      unfold start_provider_operation in ground (arith, h)
  perform-selection (observe o) s x h = accept_observation-selection o s x h
  perform-selection end_stream s x h = unfold select_candidate in ground (arith, h)
  perform-selection (request_cancellation c) s x h = select_user_cancellation-selection c s x h
  perform-selection request_teardown s x h = unfold select_candidate in ground (arith, h)
  perform-selection deadline_passes s x h = unfold watch_provider_deadline in ground (arith, h)
  perform-selection finish s x h = finalize-selection s ∙ h

  -- The first outcome wins: once one is selected, no sequence of operations replaces it, whatever the
  -- provider, the users, the clock and the writer do.
  pub first_outcome_wins :
      (os : List Operation) (s : ProviderSession) (x : SelectedOutcome)
      → s.selection ≡ some x
      → (perform_all is_due writes timestamp os s).selection ≡ some x
  unfolding perform_all
  first_outcome_wins [] s x h = h
  first_outcome_wins (o ∷ os) s x h =
      first_outcome_wins os (after (perform is_due writes timestamp o s)) x
        (perform-selection o s x h)
