-- ===== src/ProviderSession/Examples.antt =====
-- A session whose provider sends one delta, its completion and the end, and is then cancelled.
use code_assist_harness.Prelude.{
  ℕ, String, some, Bool, true, false, List, [], ◌∷◌, codes, ◌≡◌, refl, text_eq, opt_eq,
}
use code_assist_harness.Utf8.{encode, encode_char}
use code_assist_harness.Limits.{default_loop_limits}
use code_assist_harness.Limits.Tracker.{admit_model_turn, reserve_bytes}
use code_assist_harness.Session.{completed}
use code_assist_harness.Session.Reducer.{
  reduce_session_state, reduce_active, reduce_session_event, reduce_identified, reduce_payload,
  sequenced, is_legal, is_terminal, expected_correlation, for_session,
}
use code_assist_harness.ProviderSession.{
  ProviderSession, text_delta, text_completed, provider_completed, join_texts, new_session,
  completed_selection,
}
use code_assist_harness.ProviderSession.Decisions.{
  notify_lifecycle, notify_loop_limits, select, accept_lifecycle, deadline_due, select_candidate,
  select_deadline_if_due, publish, accept_observation, accept_branch, reserve_delta, publish_delta,
}
use code_assist_harness.ProviderSession.Operations.{
  Operation, start_run, start_operation, observe, request_cancellation, finish, deadline_passes,
  publish_completion, publish_terminal, attach_observer, perform, perform_all, accept_deferred,
  publish_started, start_provider_operation, select_user_cancellation, emit_outcome, finalize,
}
use code_assist_harness.ProviderSession.Streamed.{IsSound}
use code_assist_harness.ProviderSession.Selection.{first_outcome_wins}
use code_assist_harness.ProviderSession.Shown.{IsShown}
use code_assist_harness.ProviderSession.ShownRuns.{lifecycle_text}
use code_assist_harness.ProviderSession.SoundRuns.{session_text}

abbrev never : ℕ → Bool
never n = false

abbrev always : ℕ → Bool
always n = true

abbrev noon : ℕ → String
noon n = "2026-07-16T12:00:00.000Z"

abbrev start : ProviderSession
start = new_session "cmd_1" "ses_1" (codes "explain") default_loop_limits

abbrev answer : List Operation
answer =
    start_run
    ∷ start_operation true
    ∷ observe (text_delta (codes "Hi"))
    ∷ observe (text_completed (codes "Hi"))
    ∷ observe provider_completed
    ∷ []

abbrev late : List Operation
late = request_cancellation "cmd_2" ∷ finish ∷ []

session_text_example : IsSound (perform_all never always noon answer start)
session_text_example =
    session_text never always noon answer "cmd_1" "ses_1" (codes "explain") default_loop_limits

lifecycle_text_example :
    IsShown (perform_all never always noon (attach_observer always ∷ answer) start)
lifecycle_text_example =
    lifecycle_text never always noon (attach_observer always ∷ answer) "cmd_1" "ses_1"
      (codes "explain") default_loop_limits ((λ n. refl), (tt, (tt, (tt, (tt, (tt, tt))))))

answered : (perform_all never always noon answer start).selection ≡ some (completed_selection start)
unfolding perform_all perform publish_started publish accept_lifecycle notify_lifecycle
    accept_deferred start_provider_operation deadline_due admit_model_turn accept_observation
    select_deadline_if_due accept_branch reserve_delta reserve_bytes publish_delta select_candidate
    select encode encode_char join_texts text_eq opt_eq reduce_session_state reduce_active
    reduce_session_event reduce_identified reduce_payload sequenced is_legal is_terminal
    expected_correlation
answered = refl

answer_runs :
    (perform_all never always noon late
      (perform_all never always noon answer start)).lifecycle_state.status
    ≡ completed
unfolding perform_all perform publish_started publish accept_lifecycle notify_lifecycle
    accept_deferred start_provider_operation deadline_due admit_model_turn accept_observation
    select_deadline_if_due accept_branch reserve_delta reserve_bytes publish_delta select_candidate
    select encode encode_char join_texts text_eq opt_eq reduce_session_state reduce_active
    reduce_session_event reduce_identified reduce_payload sequenced is_legal is_terminal
    expected_correlation select_user_cancellation finalize emit_outcome publish_completion
    publish_terminal notify_loop_limits for_session
answer_runs = refl

first_outcome_wins_example :
    (perform_all never always noon late (perform_all never always noon answer start)).selection
    ≡ some (completed_selection start)
first_outcome_wins_example =
    first_outcome_wins never always noon late (perform_all never always noon answer start)
      (completed_selection start) answered

-- The deadline passes after a delta, and the rest of the answer comes too late.
abbrev before_deadline : ProviderSession
before_deadline =
    perform_all never always noon
      (start_run ∷ start_operation true ∷ observe (text_delta (codes "Hi")) ∷ []) start

abbrev too_late : List Operation
too_late =
    deadline_passes
    ∷ request_cancellation "cmd_2"
    ∷ observe (text_delta (codes "!"))
    ∷ observe provider_completed
    ∷ finish
    ∷ []
