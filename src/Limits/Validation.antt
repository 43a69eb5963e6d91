-- ===== src/Limits/Validation.antt =====
-- Which configurations and seeds the validating constructors accept.
use code_assist_harness.Prelude.{
  ℕ, ◌≤◌, ◌≡◌, ◌↔◌, arith, PyValue, boolean, integer, nat, pos, negsuc, ok,
}
use code_assist_harness.Limits.{
  max_model_turns_limit, max_provider_work_timeout_seconds, max_assistant_output_bytes_limit,
  max_observed_tool_calls_limit, LoopLimits, require_configured_limit, require_counter,
  make_loop_limits,
}

pub record IsConfigured (l : LoopLimits) : Type 0 where
  pub turns : (1 ≤ l.max_model_turns) × (l.max_model_turns ≤ max_model_turns_limit)
  pub seconds :
      (1 ≤ l.provider_work_timeout_seconds)
      × (l.provider_work_timeout_seconds ≤ max_provider_work_timeout_seconds)
  pub bytes :
      (1 ≤ l.max_assistant_output_bytes)
      × (l.max_assistant_output_bytes ≤ max_assistant_output_bytes_limit)
  pub calls :
      (1 ≤ l.max_observed_tool_calls) × (l.max_observed_tool_calls ≤ max_observed_tool_calls_limit)

pub configured_limit_ok :
    (v : PyValue) (maximum n : ℕ)
    → require_configured_limit v maximum ≡ ok n
    → (v ≡ nat n) × (1 ≤ n) × (n ≤ maximum)
unfolding require_configured_limit
configured_limit_ok (integer (pos m)) maximum n h = ground arith
configured_limit_ok (integer (negsuc m)) maximum n h = ground arith
configured_limit_ok (boolean b) maximum n h = ground arith
configured_limit_ok _ maximum n h = ground arith

pub configured_limit_accepts :
    (n maximum : ℕ) → 1 ≤ n → n ≤ maximum → require_configured_limit (nat n) maximum ≡ ok n
unfolding require_configured_limit
configured_limit_accepts n maximum p q = ground arith

pub counter_accepts : (n maximum : ℕ) → n ≤ maximum → require_counter (nat n) maximum ≡ ok n
unfolding require_counter
counter_accepts n maximum q = ground arith

pub limits_accept :
    (l : LoopLimits)
    → IsConfigured l
    → make_loop_limits
        (nat l.max_model_turns)
        (nat l.provider_work_timeout_seconds)
        (nat l.max_assistant_output_bytes)
        (nat l.max_observed_tool_calls)
      ≡ ok l
unfolding make_loop_limits
limits_accept l c = ground (
  arith,
  configured_limit_accepts l.max_model_turns max_model_turns_limit,
  configured_limit_accepts l.provider_work_timeout_seconds max_provider_work_timeout_seconds,
  configured_limit_accepts l.max_assistant_output_bytes max_assistant_output_bytes_limit,
  configured_limit_accepts l.max_observed_tool_calls max_observed_tool_calls_limit,
)

limits_ok :
    (t s b c : PyValue) (l : LoopLimits)
    → make_loop_limits t s b c ≡ ok l
    → IsConfigured l
      × (t ≡ nat l.max_model_turns)
      × (s ≡ nat l.provider_work_timeout_seconds)
      × (b ≡ nat l.max_assistant_output_bytes)
      × (c ≡ nat l.max_observed_tool_calls)
unfolding make_loop_limits
limits_ok t s b c l h = ground (
  arith,
  configured_limit_ok t max_model_turns_limit l.max_model_turns,
  configured_limit_ok s max_provider_work_timeout_seconds l.provider_work_timeout_seconds,
  configured_limit_ok b max_assistant_output_bytes_limit l.max_assistant_output_bytes,
  configured_limit_ok c max_observed_tool_calls_limit l.max_observed_tool_calls,
)

-- The constructor of `LoopLimits` accepts four values with the limits l exactly when l is within
-- the locked ranges and the values are the four integers of l: no boolean, no other type and no
-- integer out of range is accepted, and none is changed.
pub make_loop_limits_iff :
    (t s b c : PyValue) (l : LoopLimits)
    → (make_loop_limits t s b c ≡ ok l) ↔ (
        IsConfigured l
        × (t ≡ nat l.max_model_turns)
        × (s ≡ nat l.provider_work_timeout_seconds)
        × (b ≡ nat l.max_assistant_output_bytes)
        × (c ≡ nat l.max_observed_tool_calls))
make_loop_limits_iff t s b c l = (limits_ok t s b c l, λ h. ground (arith, limits_accept l h.0))
