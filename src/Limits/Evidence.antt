-- ===== src/Limits/Evidence.antt =====
-- The snapshot that a session publishes of its tracker is always accepted.
use code_assist_harness.Prelude.{
  String, Bool, true, Option, none, some, List, ◌∷◌, ◌≡◌, refl, arith, nat, ok,
}
use code_assist_harness.Limits.{
  LoopLimitExhaustion, model_turns, provider_work, assistant_output, tool_calls, LoopLimits,
  require_exhaustion, check_counters, Counters,
}
use code_assist_harness.Limits.Validation.{IsConfigured, limits_accept}
use code_assist_harness.Limits.Tracker.{
  LoopLimitTracker, LoopLimitsObserved, fresh_tracker, exhaustion_value, make_tracker, snapshot,
}
use code_assist_harness.Limits.Budget.{
  IsValid, Operation, admit, perform_all, session-IsValid, limits-perform_all,
}

exhaustion_round_trip :
    (x : Option LoopLimitExhaustion) → require_exhaustion (exhaustion_value x) ≡ ok x
unfolding require_exhaustion
exhaustion_round_trip none = refl
exhaustion_round_trip (some model_turns) = refl
exhaustion_round_trip (some provider_work) = refl
exhaustion_round_trip (some assistant_output) = refl
exhaustion_round_trip (some tool_calls) = refl

abbrev pub counters : LoopLimitTracker → Counters
counters t = record {
  model_turns_started = t.model_turns_started;
  assistant_output_bytes = t.assistant_output_bytes;
  tool_calls_observed = t.tool_calls_observed;
}

counters_accept :
    (t : LoopLimitTracker)
    → IsValid t
    → check_counters t.limits t.exhausted
        (nat t.model_turns_started)
        (nat t.assistant_output_bytes)
        (nat t.tool_calls_observed)
      ≡ ok (counters t)
unfolding check_counters
counters_accept t v = ground arith

-- The seeded constructor rebuilds every valid tracker from its counters and its classification.
pub make_tracker_round_trip :
    (t : LoopLimitTracker)
    → IsValid t
    → make_tracker t.limits
        (nat t.model_turns_started)
        (nat t.assistant_output_bytes)
        (nat t.tool_calls_observed)
        (exhaustion_value t.exhausted)
      ≡ ok t
unfolding make_tracker
make_tracker_round_trip t v = rw (exhaustion_round_trip t.exhausted, counters_accept t v)

module _ (is_session_id : String → Bool) where
  abbrev pub observed : LoopLimitTracker → String → LoopLimitsObserved
  observed t i = record {
    session_id = i;
    limits = t.limits;
    model_turns_started = t.model_turns_started;
    assistant_output_bytes = t.assistant_output_bytes;
    tool_calls_observed = t.tool_calls_observed;
    exhausted = t.exhausted;
  }

  pub snapshot-IsValid :
      (t : LoopLimitTracker) (i : String)
      → is_session_id i ≡ true
      → IsValid t
      → snapshot is_session_id t i ≡ ok (observed t i)
  unfolding snapshot
  snapshot-IsValid t i h v = rw (
    h,
    limits_accept t.limits v.configured,
    exhaustion_round_trip t.exhausted,
    counters_accept t v,
  )

  -- Evidence never fails: after the first turn of a session under configured limits and any further
  -- operations, the snapshot passes every check of its constructor, and holds the configured limits,
  -- the counters and the first exhausted budget of the tracker.
  pub session_snapshot :
      (l : LoopLimits) (os : List Operation) (i : String)
      → IsConfigured l
      → is_session_id i ≡ true
      → let t = perform_all (fresh_tracker l) (admit ∷ os) in
        snapshot is_session_id t i ≡ ok (record (observed t i) { limits = l })
  session_snapshot l os i c h = ground (
    arith,
    snapshot-IsValid (perform_all (fresh_tracker l) (admit ∷ os)) i h (session-IsValid l os c),
    limits-perform_all (fresh_tracker l) (admit ∷ os),
  )
