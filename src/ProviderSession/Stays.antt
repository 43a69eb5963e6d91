-- ===== src/ProviderSession/Stays.antt =====
-- The operations that touch neither the outcome of a session nor its text.
use code_assist_harness.Prelude.{
  ℕ, String, Option, some, Bool, true, ◌≡◌, inl, inr, arith, Option-cases,
}
use code_assist_harness.Protocol.{
  Envelope, SessionEvent, session_started, session_completed, assistant_completed,
}
use code_assist_harness.Session.{SessionUpdate}
use code_assist_harness.ProviderSession.{ProviderSession, SelectedOutcome}
use code_assist_harness.ProviderSession.Decisions.{
  call_observer, notify_loop_limits, notify_lifecycle, after, accept_lifecycle, publish,
}
use code_assist_harness.ProviderSession.Operations.{
  publish_terminal, publish_completion, attach_lifecycle_observer, accept_deferred, publish_started,
  emit_outcome, finalize,
}
use code_assist_harness.ProviderSession.Emission.{emit_outcome-cases}

-- Two sessions of the same command with the same outcome and text, and both late or neither.
pub record Stays (s t : ProviderSession) : Type 0 where
  pub same_command : t.command_id ≡ s.command_id
  pub same_latch : t.deadline_latched ≡ s.deadline_latched
  pub same_selection : t.selection ≡ s.selection
  pub same_text : t.accepted_text ≡ s.accepted_text

pub accept_lifecycle-Stays :
    (u : SessionUpdate) (s : ProviderSession) → Stays s (after (accept_lifecycle u s))
unfolding accept_lifecycle notify_lifecycle call_observer
accept_lifecycle-Stays u s = ground arith

pub attach-Stays :
    (f : ℕ → Bool) (s : ProviderSession) → Stays s (after (attach_lifecycle_observer f s))
unfolding attach_lifecycle_observer notify_lifecycle call_observer
attach-Stays f s = ground arith

module _ (is_due writes : ℕ → Bool) (timestamp : ℕ → String) where
  pub publish-Stays :
      (c : Option String) (f : Envelope → SessionEvent) (s : ProviderSession)
      → Stays s (after (publish is_due writes timestamp c f s))
  unfolding publish accept_lifecycle notify_lifecycle call_observer
  publish-Stays c f s = ground arith

  pub accept_deferred-Stays :
      (s : ProviderSession) → Stays s (after (accept_deferred is_due writes timestamp s))
  unfolding accept_deferred accept_lifecycle notify_lifecycle call_observer
  accept_deferred-Stays s = ground arith

  pub publish_started-Stays :
      (s : ProviderSession) → Stays s (after (publish_started is_due writes timestamp s))
  unfolding publish_started
  publish_started-Stays s = ground (
    arith,
    publish-Stays (some s.command_id) session_started (record s { run_started = true }),
    accept_deferred-Stays (
        after (
          publish is_due writes timestamp (some s.command_id) session_started
            (record s { run_started = true }))),
  )

  pub publish_terminal-Stays :
      (c : Option String) (f : Envelope → SessionEvent) (s : ProviderSession)
      → Stays s (after (publish_terminal is_due writes timestamp c f s))
  unfolding publish_terminal notify_loop_limits call_observer
  publish_terminal-Stays c f s =
      ground (arith, publish-Stays c f s, publish-Stays c f (after (notify_loop_limits s)))

  pub emit_outcome-Stays :
      (o : SelectedOutcome) (s : ProviderSession)
      → Stays s (after (emit_outcome is_due writes timestamp o s))
  emit_outcome-Stays o s = elim (emit_outcome-cases is_due writes timestamp o s) [
    | inl e ↦ rw e (ground arith)
    | inr (inr (c, f, d, e)) ↦ rw e (publish_terminal-Stays c f s)
    | inr (inl (text, e)) ↦
        let p =
          publish is_due writes timestamp (some s.command_id) (λ v. assistant_completed v text) s in
        let a = publish-Stays (some s.command_id) (λ v. assistant_completed v text) s in
        let b = publish_terminal-Stays (some (after p).command_id) session_completed (after p) in
        rw e (unfold publish_completion in ground (arith, a, b))
  ]

  pub finalize-Stays : (s : ProviderSession) → Stays s (after (finalize is_due writes timestamp s))
  finalize-Stays s = elim (Option-cases s.selection) [
    | inl e ↦ unfold finalize in ground (arith, e)
    | inr (o, e) ↦ unfold finalize in ground (arith, e, emit_outcome-Stays o s)
  ]
