-- ===== src/Limits/Budget.antt =====
-- What a tracker keeps over any sequence of its operations.
use code_assist_harness.Prelude.{
  ℕ, ◌+◌, ◌≤◌, Bool, true, false, some, is_some, List, [], ◌∷◌, ◌≡◌, ◌≢◌, ◌⊎◌, ◌∙◌, refl, arith,
  if◌then◌else◌,
}
use code_assist_harness.Limits.{
  model_turns, assistant_output, tool_calls, LoopLimits, is_tool_calls,
}
use code_assist_harness.Limits.Validation.{IsConfigured}
use code_assist_harness.Limits.Tracker.{
  LoopLimitTracker, fresh_tracker, admit_model_turn, reserve_bytes, observe_tool_call,
  mark_provider_work_exhausted,
}

-- The calls that a session makes on its tracker.
pub data Operation : Type 0 where
  admit : Operation
  reserve : ℕ → Operation
  observe : Operation
  expire : Operation

-- `expire` has no result: false stands for the refusal of all further work.
unfoldable pub perform : LoopLimitTracker → Operation → LoopLimitTracker × Bool
unfolding admit_model_turn reserve_bytes observe_tool_call mark_provider_work_exhausted
perform t admit = admit_model_turn t
perform t (reserve n) = reserve_bytes t n
perform t observe = observe_tool_call t
perform t expire = (mark_provider_work_exhausted t, false)

unfoldable pub perform_all : LoopLimitTracker → List Operation → LoopLimitTracker
perform_all t [] = t
perform_all t (o ∷ os) = perform_all (perform t o).0 os

pub record IsValid (t : LoopLimitTracker) : Type 0 where
  pub configured : IsConfigured t.limits
  pub turns_capped : t.model_turns_started ≤ t.limits.max_model_turns
  pub bytes_capped : t.assistant_output_bytes ≤ t.limits.max_assistant_output_bytes
  pub calls_capped :
      t.tool_calls_observed
      ≤ t.limits.max_observed_tool_calls + (if is_tool_calls t.exhausted then 1 else 0)
  pub call_rejected :
      t.exhausted ≡ some tool_calls → t.tool_calls_observed ≡ t.limits.max_observed_tool_calls + 1
  pub turn_rejected :
      t.exhausted ≡ some model_turns → t.model_turns_started ≡ t.limits.max_model_turns
  pub admitted :
      (1 ≤ t.model_turns_started)
      ⊎ ((t.assistant_output_bytes ≡ 0)
          × (t.tool_calls_observed ≡ 0)
          × (t.exhausted ≢ some assistant_output)
          × (t.exhausted ≢ some tool_calls))

pub fresh-IsValid : (l : LoopLimits) → IsConfigured l → IsValid (fresh_tracker l)
fresh-IsValid l c = ground arith

-- Output and tool calls are charged only to a turn that has begun.
abbrev pub IsTimely : LoopLimitTracker → Operation → Type 0
IsTimely t (reserve n) = 1 ≤ t.model_turns_started
IsTimely t observe = 1 ≤ t.model_turns_started
IsTimely t _ = Unit

pub perform-IsValid :
    (t : LoopLimitTracker) (o : Operation) → IsTimely t o → IsValid t → IsValid (perform t o).0
unfolding perform
perform-IsValid t admit w v = ground arith
perform-IsValid t (reserve n) w v = ground arith
perform-IsValid t observe w v = ground arith
perform-IsValid t expire w v = ground arith

turns_grow :
    (t : LoopLimitTracker) (o : Operation)
    → 1 ≤ t.model_turns_started
    → 1 ≤ (perform t o).0.model_turns_started
unfolding perform
turns_grow t admit w = ground arith
turns_grow t _ w = ground arith

timely : (t : LoopLimitTracker) (o : Operation) → 1 ≤ t.model_turns_started → IsTimely t o
timely t admit w = tt
timely t (reserve n) w = w
timely t observe w = w
timely t expire w = tt

-- Once a turn has begun, every sequence of operations keeps the tracker valid.
pub perform_all-IsValid :
    (t : LoopLimitTracker) (os : List Operation)
    → 1 ≤ t.model_turns_started
    → IsValid t
    → IsValid (perform_all t os)
unfolding perform_all
perform_all-IsValid t [] w v = v
perform_all-IsValid t (o ∷ os) w v =
    perform_all-IsValid (perform t o).0 os (turns_grow t o w) (perform-IsValid t o (timely t o w) v)

-- The first turn of a fresh tracker is always admitted.
pub first_turn :
    (l : LoopLimits)
    → IsConfigured l
    → admit_model_turn (fresh_tracker l)
      ≡ (record (fresh_tracker l) { model_turns_started = 1 }, true)
unfolding admit_model_turn
first_turn l c = ground arith

pub session-IsValid :
    (l : LoopLimits) (os : List Operation)
    → IsConfigured l
    → IsValid (perform_all (fresh_tracker l) (admit ∷ os))
unfolding perform_all perform
session-IsValid l os c = rw (first_turn l c) (
    perform_all-IsValid (record (fresh_tracker l) { model_turns_started = 1 }) os (omega arith)
      (ground arith))

limits-perform : (t : LoopLimitTracker) (o : Operation) → (perform t o).0.limits ≡ t.limits
unfolding perform
limits-perform t admit = ground arith
limits-perform t _ = ground arith

pub limits-perform_all :
    (t : LoopLimitTracker) (os : List Operation) → (perform_all t os).limits ≡ t.limits
unfolding perform_all
limits-perform_all t [] = refl
limits-perform_all t (o ∷ os) = limits-perform_all (perform t o).0 os ∙ limits-perform t o

-- The budgets hold over a whole session: after its first turn and any further operations, turns and
-- output bytes are within the configured maxima, tool calls exceed theirs by exactly one when that
-- budget is the exhausted one and not at all otherwise, and the limits are as configured.
pub session_budgets :
    (l : LoopLimits) (os : List Operation)
    → IsConfigured l
    → let t = perform_all (fresh_tracker l) (admit ∷ os) in
      (t.limits ≡ l)
      × (t.model_turns_started ≤ l.max_model_turns)
      × (t.assistant_output_bytes ≤ l.max_assistant_output_bytes)
      × ((t.exhausted ≡ some tool_calls) × (t.tool_calls_observed ≡ l.max_observed_tool_calls + 1)
          ⊎ (t.exhausted ≢ some tool_calls) × (t.tool_calls_observed ≤ l.max_observed_tool_calls))
session_budgets l os c =
    ground (arith, session-IsValid l os c, limits-perform_all (fresh_tracker l) (admit ∷ os))

absorbed :
    (t : LoopLimitTracker) (o : Operation) → is_some t.exhausted ≡ true → perform t o ≡ (t, false)
unfolding perform
absorbed t admit e = ground arith
absorbed t _ e = ground arith

-- The first exhausted budget wins: after it every operation is refused, and no sequence of
-- operations changes a counter or the classification.
pub first_winner :
    (t : LoopLimitTracker) (o : Operation) (os : List Operation)
    → is_some t.exhausted ≡ true
    → ((perform t o).1 ≡ false) × (perform_all t (o ∷ os) ≡ t)
unfolding perform_all
first_winner t o [] e = ground (arith, absorbed t o e)
first_winner t o (p ∷ os) e = ground (arith, absorbed t o e, first_winner t p os e)

-- The bytes of the reservations that were granted.
unfoldable pub granted : LoopLimitTracker → List Operation → ℕ
granted t [] = 0
granted t (reserve n ∷ os) =
    let rest = granted (perform t (reserve n)).0 os in
    if (perform t (reserve n)).1 then n + rest else rest
granted t (o ∷ os) = granted (perform t o).0 os

charge :
    (t : LoopLimitTracker) (n : ℕ)
    → (perform t (reserve n)).0.assistant_output_bytes
      ≡ t.assistant_output_bytes + (if (perform t (reserve n)).1 then n else 0)
unfolding perform
charge t n = ground arith

abbrev charges_nothing : Operation → Bool
charges_nothing (reserve n) = false
charges_nothing _ = true

no_charge :
    (t : LoopLimitTracker) (o : Operation)
    → charges_nothing o ≡ true
    → (perform t o).0.assistant_output_bytes ≡ t.assistant_output_bytes
unfolding perform
no_charge t admit h = ground arith
no_charge t _ h = ground arith

-- A reservation is charged whole or not at all: over any sequence of operations the counted bytes
-- grow by exactly the sizes of the granted reservations.
pub charged_exactly :
    (t : LoopLimitTracker) (os : List Operation)
    → (perform_all t os).assistant_output_bytes ≡ t.assistant_output_bytes + granted t os
unfolding perform_all granted
charged_exactly t [] = omega arith
charged_exactly t (reserve n ∷ os) =
    ground (arith, charge t n, charged_exactly (perform t (reserve n)).0 os)
charged_exactly t (o ∷ os) = ground (arith, no_charge t o refl, charged_exactly (perform t o).0 os)
