-- ===== src/Limits.antt =====
-- loop_limits.py: the budgets of one provider-backed session, and how they are validated. The
-- exceptions are told apart by their class; their messages are not modelled.
pub mod Tracker
pub mod Validation
pub mod Budget
pub mod Evidence
mod Examples
use code_assist_harness.Prelude.{
  ℕ, zero, ◌+◌, String, Option, none, some, Bool, true, false, not, ◌&&◌, ◌||◌, ltb, leb, ◌==◌,
  if◌then◌else◌, str_eq, ℤ, pos, negsuc, PyValue, null, integer, string, Checked, ok, type_error,
  value_error, ◌>>=◌, ◌>>◌, require,
}

abbrev pub max_model_turns_limit : ℕ
max_model_turns_limit = 16

abbrev pub max_provider_work_timeout_seconds : ℕ
max_provider_work_timeout_seconds = 3600

abbrev pub max_assistant_output_bytes_limit : ℕ
max_assistant_output_bytes_limit = 8192

abbrev pub max_observed_tool_calls_limit : ℕ
max_observed_tool_calls_limit = 64

pub data LoopLimitExhaustion : Type 0 where
  model_turns provider_work assistant_output tool_calls : LoopLimitExhaustion

abbrev pub model_turn_limit_exceeded_code : String
model_turn_limit_exceeded_code = "model_turn_limit_exceeded"

abbrev pub provider_work_deadline_exceeded_code : String
provider_work_deadline_exceeded_code = "provider_work_deadline_exceeded"

abbrev pub assistant_output_limit_exceeded_code : String
assistant_output_limit_exceeded_code = "assistant_output_limit_exceeded"

abbrev pub tool_call_limit_exceeded_code : String
tool_call_limit_exceeded_code = "tool_call_limit_exceeded"

-- `_LOOP_LIMIT_FAILURE_CODES_BY_EXHAUSTION`, a total dictionary on the closed classification.
unfoldable pub loop_limit_failure_code : LoopLimitExhaustion → String
loop_limit_failure_code model_turns = model_turn_limit_exceeded_code
loop_limit_failure_code provider_work = provider_work_deadline_exceeded_code
loop_limit_failure_code assistant_output = assistant_output_limit_exceeded_code
loop_limit_failure_code tool_calls = tool_call_limit_exceeded_code

-- Membership in `LOOP_LIMIT_FAILURE_CODES`.
unfoldable pub is_loop_limit_failure_code : String → Bool
is_loop_limit_failure_code code =
    str_eq code model_turn_limit_exceeded_code
    || str_eq code provider_work_deadline_exceeded_code
    || str_eq code assistant_output_limit_exceeded_code
    || str_eq code tool_call_limit_exceeded_code

-- `type(value) is not int` excludes `bool`, which is a subclass of `int`.
unfoldable pub require_strict_integer : PyValue → Checked ℤ
require_strict_integer (integer i) = ok i
require_strict_integer _ = type_error

-- `lower <= integer <= upper` for natural bounds, with the integer as a natural number.
unfoldable pub within : ℕ → ℕ → ℤ → Checked ℕ
within lower upper (pos n) = if ltb n lower || ltb upper n then value_error else ok n
within lower upper (negsuc n) = value_error

unfoldable pub require_configured_limit : PyValue → ℕ → Checked ℕ
unfolding require_strict_integer within
require_configured_limit value maximum = do i ← require_strict_integer value; within 1 maximum i

unfoldable pub require_counter : PyValue → ℕ → Checked ℕ
unfolding require_strict_integer within
require_counter value maximum = do i ← require_strict_integer value; within 0 maximum i

unfoldable pub require_exhaustion : PyValue → Checked (Option LoopLimitExhaustion)
require_exhaustion null = ok none
require_exhaustion (string s) =
    if str_eq s "model_turns"
    then ok (some model_turns)
    else if str_eq s "provider_work"
    then ok (some provider_work)
    else if str_eq s "assistant_output"
    then ok (some assistant_output)
    else if str_eq s "tool_calls"
    then ok (some tool_calls)
    else value_error
require_exhaustion _ = type_error

pub record LoopLimits : Type 0 where
  pub max_model_turns : ℕ
  pub provider_work_timeout_seconds : ℕ
  pub max_assistant_output_bytes : ℕ
  pub max_observed_tool_calls : ℕ

abbrev pub default_loop_limits : LoopLimits
default_loop_limits = record {
  max_model_turns = 1;
  provider_work_timeout_seconds = 120;
  max_assistant_output_bytes = 4096;
  max_observed_tool_calls = 1;
}

-- The constructor of `LoopLimits` with `__post_init__`.
unfoldable pub make_loop_limits : PyValue → PyValue → PyValue → PyValue → Checked LoopLimits
make_loop_limits turns seconds bytes calls = do
  t ← require_configured_limit turns max_model_turns_limit
  s ← require_configured_limit seconds max_provider_work_timeout_seconds
  b ← require_configured_limit bytes max_assistant_output_bytes_limit
  c ← require_configured_limit calls max_observed_tool_calls_limit
  ok (record {
    max_model_turns = t;
    provider_work_timeout_seconds = s;
    max_assistant_output_bytes = b;
    max_observed_tool_calls = c;
  })

pub record Counters : Type 0 where
  pub model_turns_started : ℕ
  pub assistant_output_bytes : ℕ
  pub tool_calls_observed : ℕ

abbrev pub is_tool_calls : Option LoopLimitExhaustion → Bool
is_tool_calls (some tool_calls) = true
is_tool_calls _ = false

abbrev pub is_model_turns : Option LoopLimitExhaustion → Bool
is_model_turns (some model_turns) = true
is_model_turns _ = false

abbrev pub is_assistant_output : Option LoopLimitExhaustion → Bool
is_assistant_output (some assistant_output) = true
is_assistant_output _ = false

-- The tests on counters that `LoopLimitsObserved.__post_init__` and `LoopLimitTracker.__init__`
-- both make, after the classification has been read.
unfoldable pub check_counters :
    LoopLimits → Option LoopLimitExhaustion → PyValue → PyValue → PyValue → Checked Counters
unfolding require_counter
check_counters limits exhaustion turns bytes calls = do
  t ← require_counter turns limits.max_model_turns
  b ← require_counter bytes limits.max_assistant_output_bytes
  let maximum = limits.max_observed_tool_calls + (if is_tool_calls exhaustion then 1 else 0)
  c ← require_counter calls maximum
  require (not (is_tool_calls exhaustion && not (c == maximum)))
  require (not (is_model_turns exhaustion && not (t == limits.max_model_turns)))
  require (
      not (
        t == 0
        && (ltb 0 b || ltb 0 c || is_assistant_output exhaustion || is_tool_calls exhaustion)))
  ok (record { model_turns_started = t; assistant_output_bytes = b; tool_calls_observed = c })
