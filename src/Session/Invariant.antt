-- ===== src/Session/Invariant.antt =====
-- What holds of a session's state between two updates.
use code_assist_harness.Prelude.{◌≤◌, none, is_some, true, false, [], ◌≡◌, ◌⊎◌, ◌↔◌, arith}
use code_assist_harness.Protocol.{session_started}
use code_assist_harness.Session.{
  idle, starting, cancelling, completed, cancelled, failed, SessionState, initial_session_state,
  SessionUpdate, task_submitted, event,
}
use code_assist_harness.Session.Reducer.{reduce_session_state}

abbrev pub IsUnnumbered : SessionState → Type 0
IsUnnumbered s = (s.status ≡ idle) ⊎ (s.status ≡ starting)

pub record IsValid (s : SessionState) : Type 0 where
  -- Before the first event nothing of the session is known.
  pub fresh :
      IsUnnumbered s
      → (s.session_id ≡ none)
        × (s.last_sequence ≡ 0)
        × (s.assistant_text ≡ [])
        × (s.assistant_completed ≡ false)
  pub established : IsUnnumbered s ⊎ ((is_some s.session_id ≡ true) × (1 ≤ s.last_sequence))
  pub submitted :
      (s.status ≡ idle) ⊎ ((is_some s.start_command_id ≡ true) × (is_some s.task ≡ true))
  pub cancel_known :
      (s.status ≡ cancelling) ⊎ (s.status ≡ cancelled) → is_some s.cancel_command_id ≡ true
  pub text_reconciled : s.status ≡ completed → s.assistant_completed ≡ true
  pub failure_known : (is_some s.session_failure ≡ true) ↔ (s.status ≡ failed)

pub initial-IsValid : IsValid initial_session_state
initial-IsValid = ground arith

-- Every update, accepted or rejected, leaves a valid state valid.
pub reduce-IsValid :
    (s : SessionState) (u : SessionUpdate) → IsValid s → IsValid (reduce_session_state s u).state
unfolding reduce_session_state
reduce-IsValid s (task_submitted c task) v = ground arith
reduce-IsValid s (event (session_started e)) v = ground arith
reduce-IsValid s (event _) v = ground arith
reduce-IsValid s _ v = ground arith
