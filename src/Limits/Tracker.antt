-- ===== src/Limits/Tracker.antt =====
-- `LoopLimitTracker` and `LoopLimitsObserved` of loop_limits.py. A method that mutates the tracker
-- returns the new tracker beside its result.
use code_assist_harness.Prelude.{
  ℕ, ◌+◌, String, Option, none, some, Bool, true, false, is_some, ltb, leb, if◌then◌else◌, PyValue,
  null, string, nat, pos, negsuc, Checked, ok, value_error, ◌>>=◌, ◌>>◌, require,
}
use code_assist_harness.Limits.{
  LoopLimitExhaustion, model_turns, provider_work, assistant_output, tool_calls, LoopLimits,
  make_loop_limits, Counters, require_strict_integer, require_exhaustion, check_counters,
}

pub record LoopLimitTracker : Type 0 where
  pub limits : LoopLimits
  pub model_turns_started : ℕ
  pub assistant_output_bytes : ℕ
  pub tool_calls_observed : ℕ
  pub exhausted : Option LoopLimitExhaustion

abbrev pub tracker_of : LoopLimits → Option LoopLimitExhaustion → Counters → LoopLimitTracker
tracker_of l x c = record {
  limits = l;
  model_turns_started = c.model_turns_started;
  assistant_output_bytes = c.assistant_output_bytes;
  tool_calls_observed = c.tool_calls_observed;
  exhausted = x;
}

-- `LoopLimitTracker.__init__`, with its seed arguments.
unfoldable pub make_tracker :
    LoopLimits → PyValue → PyValue → PyValue → PyValue → Checked LoopLimitTracker
make_tracker limits turns bytes calls exhausted = do
  x ← require_exhaustion exhausted
  c ← check_counters limits x turns bytes calls
  ok (tracker_of limits x c)

-- `LoopLimitTracker(limits)`.
abbrev pub fresh_tracker : LoopLimits → LoopLimitTracker
fresh_tracker limits = record {
  limits = limits;
  model_turns_started = 0;
  assistant_output_bytes = 0;
  tool_calls_observed = 0;
  exhausted = none;
}

unfoldable pub admit_model_turn : LoopLimitTracker → LoopLimitTracker × Bool
admit_model_turn t =
    if is_some t.exhausted
    then (t, false)
    else if leb t.limits.max_model_turns t.model_turns_started
    then (record t { exhausted = some model_turns }, false)
    else (record t { model_turns_started = t.model_turns_started + 1 }, true)

-- The branches below the argument check. `candidate > maximum - used` is written without the
-- difference, which could be negative.
unfoldable pub reserve_bytes : LoopLimitTracker → ℕ → LoopLimitTracker × Bool
reserve_bytes t candidate =
    if is_some t.exhausted
    then (t, false)
    else if ltb t.limits.max_assistant_output_bytes (t.assistant_output_bytes + candidate)
    then (record t { exhausted = some assistant_output }, false)
    else (record t { assistant_output_bytes = t.assistant_output_bytes + candidate }, true)

unfoldable pub reserve_assistant_output :
    LoopLimitTracker → PyValue → Checked (LoopLimitTracker × Bool)
unfolding require_strict_integer reserve_bytes
reserve_assistant_output t byte_count = do
  i ← require_strict_integer byte_count
  elim i [ pos n ↦ ok (reserve_bytes t n) | negsuc n ↦ value_error ]

unfoldable pub observe_tool_call : LoopLimitTracker → LoopLimitTracker × Bool
observe_tool_call t =
    let t' = record t { tool_calls_observed = t.tool_calls_observed + 1 } in
    if is_some t.exhausted
    then (t, false)
    else if ltb t'.limits.max_observed_tool_calls t'.tool_calls_observed
    then (record t' { exhausted = some tool_calls }, false)
    else (t', true)

unfoldable pub mark_provider_work_exhausted : LoopLimitTracker → LoopLimitTracker
mark_provider_work_exhausted t =
    if is_some t.exhausted then t else record t { exhausted = some provider_work }

pub record LoopLimitsObserved : Type 0 where
  pub session_id : String
  pub limits : LoopLimits
  pub model_turns_started : ℕ
  pub assistant_output_bytes : ℕ
  pub tool_calls_observed : ℕ
  pub exhausted : Option LoopLimitExhaustion

-- A classification as the string, or `None`, that is handed to the validating constructor.
abbrev pub exhaustion_value : Option LoopLimitExhaustion → PyValue
exhaustion_value none = null
exhaustion_value (some model_turns) = string "model_turns"
exhaustion_value (some provider_work) = string "provider_work"
exhaustion_value (some assistant_output) = string "assistant_output"
exhaustion_value (some tool_calls) = string "tool_calls"

-- Whether pydantic's adapter accepts a session identifier.
module _ (is_session_id : String → Bool) where
  -- The constructor of `LoopLimitsObserved` with `__post_init__`.
  unfoldable pub make_observation :
      String
      → (turns seconds bytes calls : PyValue) → (t b c x : PyValue) → Checked LoopLimitsObserved
  make_observation session_id turns seconds bytes calls t b c x = do
    require (is_session_id session_id)
    limits ← make_loop_limits turns seconds bytes calls
    exhaustion ← require_exhaustion x
    counters ← check_counters limits exhaustion t b c
    ok (record {
      session_id = session_id;
      limits = limits;
      model_turns_started = counters.model_turns_started;
      assistant_output_bytes = counters.assistant_output_bytes;
      tool_calls_observed = counters.tool_calls_observed;
      exhausted = exhaustion;
    })

  unfoldable pub snapshot : LoopLimitTracker → String → Checked LoopLimitsObserved
  unfolding make_observation
  snapshot t session_id =
      make_observation session_id (nat t.limits.max_model_turns)
        (nat t.limits.provider_work_timeout_seconds) (nat t.limits.max_assistant_output_bytes)
        (nat t.limits.max_observed_tool_calls) (nat t.model_turns_started)
        (nat t.assistant_output_bytes) (nat t.tool_calls_observed) (exhaustion_value t.exhausted)
