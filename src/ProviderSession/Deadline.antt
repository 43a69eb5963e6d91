-- ===== src/ProviderSession/Deadline.antt =====
-- The provider's deadline: once it has passed, nothing else decides the outcome of a session.
use code_assist_harness.Prelude.{none, some, true, List, Text, ◌⊎◌, ◌≡◌}
use code_assist_harness.ProviderSession.{
  ProviderSession, SelectedOutcome, Observation, provider_deadline_outcome,
}
use code_assist_harness.ProviderSession.Operations.{
  Operation, observe, end_stream, request_teardown,
}
use code_assist_harness.ProviderSession.Stays.{Stays}

-- Operations that select an outcome without a further update of the lifecycle.
pub data IsDecided : Operation → Type 0 where
  observation_IsDecided : {o : Observation} → IsDecided (observe o)
  end_IsDecided : IsDecided end_stream
  teardown_IsDecided : IsDecided request_teardown

-- The deadline has passed: there is no outcome or the deadline's, and the text is as it was.
record IsLate (d : SelectedOutcome) (texts : List Text) (s : ProviderSession) : Type 0 where
  pub latched : s.deadline_latched ≡ true
  pub outcome : (s.selection ≡ none) ⊎ (s.selection ≡ some d)
  pub expired : provider_deadline_outcome s ≡ d
  pub text : s.accepted_text ≡ texts
