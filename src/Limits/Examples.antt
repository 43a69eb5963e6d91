-- ===== src/Limits/Examples.antt =====
-- A session under the default limits that runs out of its output budget, and one under small ones.
use code_assist_harness.Prelude.{
  ◌+◌, ◌≤◌, String, Bool, true, false, some, List, [], ◌∷◌, ◌≡◌, ◌≢◌, ◌⊎◌, ◌↔◌, refl, arith, nat,
  boolean, ok, type_error,
}
use code_assist_harness.Limits.{
  assistant_output, tool_calls, default_loop_limits, make_loop_limits, require_configured_limit,
}
use code_assist_harness.Limits.Validation.{IsConfigured, make_loop_limits_iff}
use code_assist_harness.Limits.Tracker.{
  LoopLimitTracker, fresh_tracker, snapshot, make_tracker, exhaustion_value,
}
use code_assist_harness.Limits.Budget.{
  Operation, admit, reserve, observe, expire, perform, perform_all, granted, session_budgets,
  first_winner, charged_exactly,
}
use code_assist_harness.Limits.Evidence.{observed, make_tracker_round_trip, session_snapshot}

defaults : IsConfigured default_loop_limits
defaults = omega arith

abbrev work : List Operation
work = reserve 4000 ∷ reserve 96 ∷ reserve 1 ∷ observe ∷ []

abbrev worn : LoopLimitTracker
worn = record (fresh_tracker default_loop_limits) {
  model_turns_started = 1;
  assistant_output_bytes = 4096;
  exhausted = some assistant_output;
}

worn_out : perform_all (fresh_tracker default_loop_limits) (admit ∷ work) ≡ worn
unfolding perform_all perform
worn_out = refl

booleans_refused : make_loop_limits (boolean true) (nat 1) (nat 1) (nat 1) ≡ type_error
unfolding make_loop_limits require_configured_limit
booleans_refused = refl

make_loop_limits_iff_example :
    (make_loop_limits (nat 1) (nat 120) (nat 4096) (nat 1) ≡ ok default_loop_limits) ↔ (
      IsConfigured default_loop_limits
      × (nat 1 ≡ nat 1)
      × (nat 120 ≡ nat 120)
      × (nat 4096 ≡ nat 4096)
      × (nat 1 ≡ nat 1))
make_loop_limits_iff_example =
    make_loop_limits_iff (nat 1) (nat 120) (nat 4096) (nat 1) default_loop_limits

session_budgets_example :
    let t = perform_all (fresh_tracker default_loop_limits) (admit ∷ work) in
    (t.limits ≡ default_loop_limits)
    × (t.model_turns_started ≤ 1)
    × (t.assistant_output_bytes ≤ 4096)
    × ((t.exhausted ≡ some tool_calls) × (t.tool_calls_observed ≡ 1 + 1)
        ⊎ (t.exhausted ≢ some tool_calls) × (t.tool_calls_observed ≤ 1))
session_budgets_example = session_budgets default_loop_limits work defaults

first_winner_example :
    ((perform worn admit).1 ≡ false) × (perform_all worn (admit ∷ expire ∷ []) ≡ worn)
first_winner_example = first_winner worn admit (expire ∷ []) refl

charged_exactly_example :
    (perform_all (fresh_tracker default_loop_limits) (admit ∷ work)).assistant_output_bytes
    ≡ 0 + granted (fresh_tracker default_loop_limits) (admit ∷ work)
charged_exactly_example = charged_exactly (fresh_tracker default_loop_limits) (admit ∷ work)

make_tracker_round_trip_example :
    make_tracker default_loop_limits (nat 1) (nat 4096) (nat 0) (exhaustion_value worn.exhausted)
    ≡ ok worn
make_tracker_round_trip_example = make_tracker_round_trip worn (ground arith)

abbrev any_id : String → Bool
any_id s = true

session_snapshot_example :
    let t = perform_all (fresh_tracker default_loop_limits) (admit ∷ work) in
    snapshot any_id t "ses_1"
    ≡ ok (record (observed any_id t "ses_1") { limits = default_loop_limits })
session_snapshot_example = session_snapshot any_id default_loop_limits work "ses_1" defaults refl
