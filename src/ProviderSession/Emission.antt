-- ===== src/ProviderSession/Emission.antt =====
-- What a session publishes for its outcome.
use code_assist_harness.Prelude.{
  ℕ, String, Option, some, Bool, [], Text, ◌≡◌, refl, ◌⊎◌, inl, inr, arith, Option-cases,
}
use code_assist_harness.Protocol.{Envelope, SessionEvent, session_cancelled, session_failed}
use code_assist_harness.Session.{event}
use code_assist_harness.Session.Tape.{delta}
use code_assist_harness.ProviderSession.{
  OutcomeKind, completed_outcome, failed_outcome, cancelled_outcome, teardown_outcome,
  ProviderSession, SelectedOutcome,
}
use code_assist_harness.ProviderSession.Decisions.{raised}
use code_assist_harness.ProviderSession.Operations.{
  publish_terminal, publish_completion, emit_outcome,
}

OutcomeKind-cases :
    (k : OutcomeKind)
    → (k ≡ completed_outcome)
      ⊎ (k ≡ failed_outcome)
      ⊎ (k ≡ cancelled_outcome)
      ⊎ (k ≡ teardown_outcome)
OutcomeKind-cases completed_outcome = inl refl
OutcomeKind-cases failed_outcome = inr (inl refl)
OutcomeKind-cases cancelled_outcome = inr (inr (inl refl))
OutcomeKind-cases teardown_outcome = inr (inr (inr refl))

module _ (is_due writes : ℕ → Bool) (timestamp : ℕ → String) where
  -- Nothing is published, or a completion, or one terminal event, which adds no text.
  pub emit_outcome-cases :
      (o : SelectedOutcome) (s : ProviderSession)
      → (emit_outcome is_due writes timestamp o s ≡ raised s)
        ⊎ ((text : Text) × (emit_outcome is_due writes timestamp o s
              ≡ publish_completion is_due writes timestamp text s))
        ⊎ ((c : Option String) × (f : Envelope → SessionEvent) × ((e : Envelope)
              → delta (event (f e)) ≡ [])
            × (emit_outcome is_due writes timestamp o s
                ≡ publish_terminal is_due writes timestamp c f s))
  unfolding emit_outcome
  emit_outcome-cases o s = elim (OutcomeKind-cases o.kind) [
    | inl k ↦ elim (Option-cases s.completed_text) [
      | inl e ↦ inl (ground (arith, k, e))
      | inr (t, e) ↦ inr (inl (t, ground (arith, k, e)))
    ]
    | inr (inl k) ↦ elim (Option-cases o.failure_code) [
      | inl e ↦ inl (ground (arith, k, e))
      | inr (c, e) ↦ elim (Option-cases o.failure_message) [
        | inl f ↦ inl (ground (arith, k, e, f))
        | inr (m, f) ↦ inr (
            inr (
              some s.command_id,
              (λ v. session_failed v c m),
              (λ v. refl),
              ground (arith, k, e, f),
            ))
      ]
    ]
    | inr (inr (inl k)) ↦ elim (Option-cases o.correlation_id) [
      | inl e ↦ inl (ground (arith, k, e))
      | inr (c, e) ↦ inr (inr (some c, session_cancelled, (λ v. refl), ground (arith, k, e)))
    ]
    | inr (inr (inr k)) ↦ inl (ground (arith, k))
  ]
