-- ===== src/ProviderSession/ShownRuns.antt =====
-- Every run of a session shows the text that it has taken, and nothing else.
use code_assist_harness.Prelude.{
  ℕ, Option, All, is_some, String, none, some, Bool, ◌||◌, not, true, List, [], ◌∷◌, Text, ◌≡◌,
  refl, ◌⊎◌, inl, inr, arith, Option-cases, Bool-cases,
}
use code_assist_harness.Protocol.{
  Envelope, SessionEvent, session_started, assistant_completed, session_completed,
}
use code_assist_harness.Limits.{LoopLimits}
use code_assist_harness.Session.{event, cancel_requested, task_submitted, initial_session_state}
use code_assist_harness.Session.Reducer.{reduce_active, reduce_session_state}
use code_assist_harness.Session.Invariant.{initial-IsValid, reduce-IsValid}
use code_assist_harness.ProviderSession.{
  ProviderSession, SelectedOutcome, invalid_response_outcome, join_texts, new_session,
}
use code_assist_harness.ProviderSession.Decisions.{
  call_observer, notify_lifecycle, notify_loop_limits, Effect, done, after, and_then,
  accept_lifecycle, select_candidate, publish,
}
use code_assist_harness.ProviderSession.Operations.{
  is_teardown, cancelled_selection, teardown_selection, attach_observer, attach_usage,
  attach_limits, attach_model_usage_observer, attach_loop_limits_observer, publish_terminal,
  publish_completion, attach_lifecycle_observer, Operation, start_run, start_operation, observe,
  end_stream, request_cancellation, request_teardown, deadline_passes, finish, perform, perform_all,
  accept_deferred, publish_started, start_provider_operation, select_user_cancellation,
  emit_outcome, finalize, watch_provider_deadline,
}
use code_assist_harness.ProviderSession.Shown.{
  IsShown, Same, Same-IsShown, notify_loop_limits-Same, accept_lifecycle-IsShown, latch-Same,
  select_candidate-Same, start_provider_operation-Same, publish-IsShown, and_then-IsShown,
}
use code_assist_harness.ProviderSession.Emission.{emit_outcome-cases}
use code_assist_harness.Session.Tape.{delta}
use code_assist_harness.ProviderSession.ShownObservations.{accept_observation-IsShown}

new_session-IsShown :
    (command_id session_id : String) (task : Text) (limits : LoopLimits)
    → IsShown (new_session command_id session_id task limits)
new_session-IsShown command_id session_id task limits = record {
  heard = tt;
  valid = reduce-IsValid initial_session_state (task_submitted command_id task) initial-IsValid;
  shown = unfold reduce_session_state reduce_active join_texts in refl;
}

-- An operation that attaches no observer, or one that returns whenever it is called.
abbrev pub IsHeard : Operation → Type 0
IsHeard (attach_observer returns) = (n : ℕ) → returns n ≡ true
IsHeard _ = Unit {0}

module _ (is_due writes : ℕ → Bool) (timestamp : ℕ → String) where
  accept_deferred-cases :
      (s : ProviderSession)
      → (accept_deferred is_due writes timestamp s ≡ done s)
        ⊎ ((c : String) × (accept_deferred is_due writes timestamp s
              ≡ and_then
                  (accept_lifecycle (cancel_requested c s.session_id) s)
                  (λ t. done (record t { deferred_cancellation = none }))))
  unfolding accept_deferred
  accept_deferred-cases s = elim (Option-cases s.deferred_cancellation) [
    | inl e ↦ inl (ground (arith, e))
    | inr (c, e) ↦ inr (c, ground (arith, e))
  ]

  accept_deferred-IsShown :
      (s : ProviderSession)
      → IsShown s
      → IsShown (after (accept_deferred is_due writes timestamp s))
  accept_deferred-IsShown s i = elim (accept_deferred-cases s) [
    | inl e ↦ rw e i
    | inr (c, e) ↦ rw e (
        and_then-IsShown is_due writes timestamp
          (accept_lifecycle (cancel_requested c s.session_id) s)
          (λ t. done (record t { deferred_cancellation = none }))
          (accept_lifecycle-IsShown (cancel_requested c s.session_id) s refl i)
          (λ t j. Same-IsShown t (record t { deferred_cancellation = none }) (ground arith) j))
  ]

  publish_started-IsShown :
      (s : ProviderSession)
      → IsShown s
      → IsShown (after (publish_started is_due writes timestamp s))
  unfolding publish_started
  publish_started-IsShown s i =
      let t : ProviderSession = record s { run_started = true } in
      let p = publish is_due writes timestamp (some s.command_id) session_started t in
      let j =
        publish-IsShown is_due writes timestamp (some s.command_id) session_started t (λ e. refl)
          (Same-IsShown s t (ground arith) i) in
      let k =
        and_then-IsShown is_due writes timestamp p (accept_deferred is_due writes timestamp) j
          accept_deferred-IsShown in
      let l =
        and_then-IsShown is_due writes timestamp
          (and_then p (accept_deferred is_due writes timestamp))
          (λ u. done (record u { session_started_successfully = true })) k
          (λ u m.
            Same-IsShown u (record u { session_started_successfully = true }) (ground arith) m) in
      ground (arith, i, l)

  select_user_cancellation-IsShown :
      (c : String) (s : ProviderSession)
      → IsShown s
      → IsShown (after (select_user_cancellation is_due writes timestamp c s))
  unfolding select_user_cancellation
  select_user_cancellation-IsShown c s i =
      let d : ProviderSession = record s { deferred_cancellation = some c } in
      let l = accept_lifecycle (cancel_requested c s.session_id) s in
      let next : (ProviderSession → Effect) =
        λ t. done (select_candidate is_due writes timestamp (cancelled_selection c) t) in
      let h : ((t : ProviderSession) → IsShown t → IsShown (after (next t))) = λ t j.
        Same-IsShown t (select_candidate is_due writes timestamp (cancelled_selection c) t)
          (select_candidate-Same is_due writes timestamp (cancelled_selection c) t) j in
      ground (
        arith,
        i,
        h d (Same-IsShown s d (ground arith) i),
        and_then-IsShown is_due writes timestamp l next
            (accept_lifecycle-IsShown (cancel_requested c s.session_id) s refl i) h,
      )

  publish_terminal-IsShown :
      (c : Option String) (f : Envelope → SessionEvent) (s : ProviderSession)
      → ((e : Envelope) → delta (event (f e)) ≡ [])
      → IsShown s
      → IsShown (after (publish_terminal is_due writes timestamp c f s))
  unfolding publish_terminal
  publish_terminal-IsShown c f s d i =
      and_then-IsShown is_due writes timestamp (notify_loop_limits s)
        (publish is_due writes timestamp c f)
        (Same-IsShown s (after (notify_loop_limits s)) (notify_loop_limits-Same s) i)
        (λ t j. publish-IsShown is_due writes timestamp c f t d j)

  publish_completion-IsShown :
      (text : Text) (s : ProviderSession)
      → IsShown s
      → IsShown (after (publish_completion is_due writes timestamp text s))
  unfolding publish_completion
  publish_completion-IsShown text s i =
      and_then-IsShown is_due writes timestamp
        (publish is_due writes timestamp (some s.command_id) (λ e. assistant_completed e text) s)
        (λ t. publish_terminal is_due writes timestamp (some t.command_id) session_completed t)
        (publish-IsShown is_due writes timestamp (some s.command_id)
          (λ e. assistant_completed e text) s (λ e. refl) i)
        (λ t j. publish_terminal-IsShown (some t.command_id) session_completed t (λ e. refl) j)

  emit_outcome-IsShown :
      (o : SelectedOutcome) (s : ProviderSession)
      → IsShown s
      → IsShown (after (emit_outcome is_due writes timestamp o s))
  emit_outcome-IsShown o s i = elim (emit_outcome-cases is_due writes timestamp o s) [
    | inl e ↦ rw e i
    | inr (inl (text, e)) ↦ rw e (publish_completion-IsShown text s i)
    | inr (inr (c, f, d, e)) ↦ rw e (publish_terminal-IsShown c f s d i)
  ]

  finalize-cases :
      (s : ProviderSession)
      → (finalize is_due writes timestamp s ≡ done s)
        ⊎ ((o : SelectedOutcome) × (finalize is_due writes timestamp s
              ≡ and_then
                  (emit_outcome is_due writes timestamp o s)
                  (λ t. done (record t { terminal_emitted = true }))))
  unfolding finalize
  finalize-cases s = elim (Option-cases s.selection) [
    | inl e ↦ inl (ground (arith, e))
    | inr (o, e) ↦
        elim (Bool-cases
          (is_teardown o.kind || not s.session_started_successfully || s.terminal_emitted)) [
            | inl b ↦ inl (ground (arith, e, b))
            | inr b ↦ inr (o, ground (arith, e, b))
          ]
  ]

  finalize-IsShown :
      (s : ProviderSession) → IsShown s → IsShown (after (finalize is_due writes timestamp s))
  finalize-IsShown s i = elim (finalize-cases s) [
    | inl e ↦ rw e i
    | inr (o, e) ↦ rw e (
        and_then-IsShown is_due writes timestamp (emit_outcome is_due writes timestamp o s)
          (λ t. done (record t { terminal_emitted = true })) (emit_outcome-IsShown o s i)
          (λ t j. Same-IsShown t (record t { terminal_emitted = true }) (ground arith) j))
  ]

  watch-Same : (s : ProviderSession) → Same s (watch_provider_deadline s)
  unfolding watch_provider_deadline
  watch-Same s = ground (arith, latch-Same s)

  -- The task's own update is not reduced again when an observer is attached.
  attach-IsShown :
      (f : ℕ → Bool) (s : ProviderSession)
      → ((n : ℕ) → f n ≡ true)
      → IsShown s
      → IsShown (after (attach_lifecycle_observer f s))
  unfolding attach_lifecycle_observer notify_lifecycle call_observer
  attach-IsShown f s q i = elim (Bool-cases (s.run_started || is_some s.lifecycle_observer)) [
    | inl e ↦ rw e i
    | inr e ↦ rw (e, q s.calls) (record { heard = q; valid = i.valid; shown = i.shown })
  ]

  attach_others-Same :
      (f : ℕ → Bool) (s : ProviderSession)
      → Same s (after (attach_model_usage_observer f s))
        × Same s (after (attach_loop_limits_observer f s))
  unfolding attach_model_usage_observer attach_loop_limits_observer
  attach_others-Same f s = (ground arith, ground arith)

  perform-IsShown :
      (o : Operation) (s : ProviderSession)
      → IsHeard o
      → IsShown s
      → IsShown (after (perform is_due writes timestamp o s))
  unfolding perform
  perform-IsShown (attach_observer f) s q i = attach-IsShown f s q i
  perform-IsShown (attach_usage f) s q i =
      Same-IsShown s (after (attach_model_usage_observer f s)) (attach_others-Same f s).0 i
  perform-IsShown (attach_limits f) s q i =
      Same-IsShown s (after (attach_loop_limits_observer f s)) (attach_others-Same f s).1 i
  perform-IsShown start_run s q i = publish_started-IsShown s i
  perform-IsShown (start_operation r) s q i =
      Same-IsShown s (start_provider_operation is_due writes timestamp r s)
        (start_provider_operation-Same is_due writes timestamp r s) i
  perform-IsShown (observe o) s q i = accept_observation-IsShown is_due writes timestamp o s i
  perform-IsShown end_stream s q i =
      Same-IsShown s (select_candidate is_due writes timestamp (invalid_response_outcome s) s)
        (select_candidate-Same is_due writes timestamp (invalid_response_outcome s) s) i
  perform-IsShown (request_cancellation c) s q i = select_user_cancellation-IsShown c s i
  perform-IsShown request_teardown s q i =
      Same-IsShown s (select_candidate is_due writes timestamp teardown_selection s)
        (select_candidate-Same is_due writes timestamp teardown_selection s) i
  perform-IsShown deadline_passes s q i =
      Same-IsShown s (watch_provider_deadline s) (watch-Same s) i
  perform-IsShown finish s q i = finalize-IsShown s i

  perform_all-IsShown :
      (os : List Operation) (s : ProviderSession)
      → All IsHeard os
      → IsShown s
      → IsShown (perform_all is_due writes timestamp os s)
  unfolding perform_all
  perform_all-IsShown [] s q i = i
  perform_all-IsShown (o ∷ os) s q i =
      perform_all-IsShown os (after (perform is_due writes timestamp o s)) q.1
        (perform-IsShown o s q.0 i)

  -- Whatever operations come and whichever of their writes fail, the lifecycle state of a new session
  -- stays valid, and its assistant text is the text of the deltas that the session has accepted, as
  -- long as any lifecycle observer that is attached returns whenever it is called.
  pub lifecycle_text :
      (os : List Operation) (command_id session_id : String) (task : Text) (limits : LoopLimits)
      → All IsHeard os
      → IsShown
          (perform_all is_due writes timestamp os (new_session command_id session_id task limits))
  lifecycle_text os command_id session_id task limits q =
      perform_all-IsShown os (new_session command_id session_id task limits) q
        (new_session-IsShown command_id session_id task limits)
