-- ===== src/ProviderSession/Streamed.antt =====
-- The text that a session takes from its provider.
use code_assist_harness.Prelude.{
  ℕ, ◌+◌, ◌≤◌, String, Option, none, some, Bool, true, false, [], ◌∷◌, ◌++◌, Text, ◌≡◌, ◌≢◌, refl,
  ◌⊎◌, inl, inr, arith, subst,
}
use code_assist_harness.Protocol.{
  Envelope, SessionEvent, assistant_delta, session_completed, assistant_completed,
}
use code_assist_harness.Limits.Tracker.{
  reserve_bytes, mark_provider_work_exhausted, observe_tool_call, admit_model_turn,
}
use code_assist_harness.Session.{SessionUpdate}
use code_assist_harness.ProviderSession.{
  ProviderSession, SelectedOutcome, completed_outcome, provider_deadline_outcome, join_texts,
  max_provider_turn_output_bytes,
}
use code_assist_harness.ProviderSession.Decisions.{
  call_observer, notify_loop_limits, notify_lifecycle, Effect, done, raised, after, select,
  latch_provider_deadline, accept_lifecycle, no_text, deadline_due, expire, select_candidate,
  select_deadline_if_due, publish, publish_delta,
}
use code_assist_harness.ProviderSession.Operations.{
  emit_outcome, publish_terminal, publish_completion,
}
use code_assist_harness.ProviderSession.Emission.{emit_outcome-cases}

-- The taken text is within the turn's ceiling and the budget, a reconciled text is the taken text, and
-- a session is completed only with one that is not empty.
pub record IsSound (s : ProviderSession) : Type 0 where
  pub under_ceiling : s.accepted_text_bytes ≤ max_provider_turn_output_bytes
  pub charged : s.accepted_text_bytes ≤ s.limit_tracker.assistant_output_bytes
  pub in_budget :
      s.limit_tracker.assistant_output_bytes ≤ s.limit_tracker.limits.max_assistant_output_bytes
  pub reconciled : (t : Text) → s.completed_text ≡ some t → t ≡ join_texts s.accepted_text
  pub complete :
      (o : SelectedOutcome)
      → s.selection ≡ some o
      → o.kind ≡ completed_outcome
      → (s.completed_text ≡ some (join_texts s.accepted_text)) × (no_text s.accepted_text ≡ false)

-- Two sessions with the same text, the same outcome and the same charges.
pub record Agree (s t : ProviderSession) : Type 0 where
  pub same_bytes : t.accepted_text_bytes ≡ s.accepted_text_bytes
  pub same_text : t.accepted_text ≡ s.accepted_text
  pub same_completion : t.completed_text ≡ s.completed_text
  pub same_selection : t.selection ≡ s.selection
  pub same_charge : t.limit_tracker.assistant_output_bytes ≡ s.limit_tracker.assistant_output_bytes
  pub same_limits : t.limit_tracker.limits ≡ s.limit_tracker.limits

pub Agree-IsSound : (s t : ProviderSession) → Agree s t → IsSound s → IsSound t
Agree-IsSound s t a i = ground (arith, a, i)

pub accept_lifecycle-Agree :
    (u : SessionUpdate) (s : ProviderSession) → Agree s (after (accept_lifecycle u s))
unfolding accept_lifecycle notify_lifecycle call_observer
accept_lifecycle-Agree u s = ground arith

pub observer-Agree :
    (f : Option (ℕ → Bool)) (s : ProviderSession) → Agree s (after (call_observer f s))
unfolding call_observer
observer-Agree f s = ground arith

pub latch-Agree : (s : ProviderSession) → Agree s (latch_provider_deadline s)
unfolding latch_provider_deadline mark_provider_work_exhausted
latch-Agree s = ground arith

pub select-IsSound :
    (o : SelectedOutcome) (s : ProviderSession)
    → o.kind ≢ completed_outcome
    → IsSound s
    → IsSound (select o s)
unfolding select
select-IsSound o s k i = ground (arith, k, i)

pub select_completed-IsSound :
    (o : SelectedOutcome) (s : ProviderSession) (t : Text)
    → s.completed_text ≡ some t
    → no_text s.accepted_text ≡ false
    → IsSound s
    → IsSound (select o s)
unfolding select
select_completed-IsSound o s t e n i = ground (arith, e, n, i.reconciled t e, i)

pub Effect-cases :
    (e : Effect) → ((t : ProviderSession) × (e ≡ done t)) ⊎ ((t : ProviderSession) × (e ≡ raised t))
Effect-cases (done t) = inl (t, refl)
Effect-cases (raised t) = inr (t, refl)

-- A session to which more text is added.
more_text-IsSound :
    (s t : ProviderSession) (text : Text) (n : ℕ)
    → Agree s t
    → IsSound s
    → s.selection ≡ none
    → s.completed_text ≡ none
    → s.accepted_text_bytes + n ≤ max_provider_turn_output_bytes
    → s.accepted_text_bytes + n ≤ s.limit_tracker.assistant_output_bytes
    → IsSound (record t {
      accepted_text = t.accepted_text ++ text ∷ [];
      accepted_text_bytes = t.accepted_text_bytes + n;
    })
more_text-IsSound s t text n a i h c l m = ground (arith, a, i, h, c, l, m)

-- Bytes that are reserved are charged, and stay in the budget.
pub reserved-IsSound :
    (s : ProviderSession) (n : ℕ)
    → IsSound s
    → IsSound (record s { limit_tracker = (reserve_bytes s.limit_tracker n).0 })
      × ((reserve_bytes s.limit_tracker n).1 ≡ true
          → s.accepted_text_bytes + n ≤ (reserve_bytes s.limit_tracker n).0.assistant_output_bytes)
unfolding reserve_bytes
reserved-IsSound s n i = ground (arith, i)

pub observed-IsSound :
    (s : ProviderSession)
    → IsSound s
    → IsSound (record s { limit_tracker = (observe_tool_call s.limit_tracker).0 })
unfolding observe_tool_call
observed-IsSound s i = ground (arith, i)

pub admitted-IsSound :
    (s : ProviderSession)
    → IsSound s
    → IsSound (record s { limit_tracker = (admit_model_turn s.limit_tracker).0 })
unfolding admit_model_turn
admitted-IsSound s i = ground (arith, i)

module _ (is_due writes : ℕ → Bool) (timestamp : ℕ → String) where
  pub publish-Agree :
      (c : Option String) (f : Envelope → SessionEvent) (s : ProviderSession)
      → Agree s (after (publish is_due writes timestamp c f s))
  unfolding publish accept_lifecycle notify_lifecycle call_observer
  publish-Agree c f s = ground arith

  pub deadline_due-Agree :
      (s : ProviderSession) → Agree s (deadline_due is_due writes timestamp s).0
  unfolding deadline_due
  deadline_due-Agree s = ground arith

  pub expire-IsSound :
      (s : ProviderSession) → IsSound s → IsSound (expire is_due writes timestamp s)
  expire-IsSound s i =
      select-IsSound (provider_deadline_outcome s) (latch_provider_deadline s) (ground arith)
        (Agree-IsSound s (latch_provider_deadline s) (latch-Agree s) i)

  pub select_candidate-IsSound :
      (o : SelectedOutcome) (s : ProviderSession)
      → o.kind ≢ completed_outcome
      → IsSound s
      → IsSound (select_candidate is_due writes timestamp o s)
  unfolding select_candidate
  select_candidate-IsSound o s k i =
      let r = (deadline_due is_due writes timestamp s).0 in
      let j = Agree-IsSound s r (deadline_due-Agree s) i in
      ground (arith, i, expire-IsSound r j, select-IsSound o r k j)

  pub select_deadline_if_due-IsSound :
      (s : ProviderSession)
      → IsSound s
      → IsSound (select_deadline_if_due is_due writes timestamp s).0
  unfolding select_deadline_if_due
  select_deadline_if_due-IsSound s i =
      let r = (deadline_due is_due writes timestamp s).0 in
      let j = Agree-IsSound s r (deadline_due-Agree s) i in ground (arith, i, expire-IsSound r j)

  publish_terminal-Agree :
      (c : Option String) (f : Envelope → SessionEvent) (s : ProviderSession)
      → Agree s (after (publish_terminal is_due writes timestamp c f s))
  unfolding publish_terminal notify_loop_limits call_observer
  publish_terminal-Agree c f s =
      ground (arith, publish-Agree c f s, publish-Agree c f (after (notify_loop_limits s)))

  pub emit_outcome-Agree :
      (o : SelectedOutcome) (s : ProviderSession)
      → Agree s (after (emit_outcome is_due writes timestamp o s))
  emit_outcome-Agree o s = elim (emit_outcome-cases is_due writes timestamp o s) [
    | inl e ↦ rw e (ground arith)
    | inr (inr (c, f, d, e)) ↦ rw e (publish_terminal-Agree c f s)
    | inr (inl (text, e)) ↦
        let p =
          publish is_due writes timestamp (some s.command_id) (λ v. assistant_completed v text) s in
        let a = publish-Agree (some s.command_id) (λ v. assistant_completed v text) s in
        let b = publish_terminal-Agree (some (after p).command_id) session_completed (after p) in
        rw e (unfold publish_completion in ground (arith, a, b))
  ]

  pub publish_delta-IsSound :
      (text : Text) (n : ℕ) (s : ProviderSession)
      → IsSound s
      → s.selection ≡ none
      → s.completed_text ≡ none
      → s.accepted_text_bytes + n ≤ max_provider_turn_output_bytes
      → s.accepted_text_bytes + n ≤ s.limit_tracker.assistant_output_bytes
      → IsSound (after (publish_delta is_due writes timestamp text n s))
  unfolding publish_delta
  publish_delta-IsSound text n s i h c l m =
      let p = publish is_due writes timestamp (some s.command_id) (λ e. assistant_delta e text) s in
      let a = publish-Agree (some s.command_id) (λ e. assistant_delta e text) s in
      elim (Effect-cases p) [
        | inl (t, e) ↦
            rw (publish_delta, e)
              (select_deadline_if_due-IsSound
                (record t {
                  accepted_text = t.accepted_text ++ text ∷ [];
                  accepted_text_bytes = t.accepted_text_bytes + n;
                })
                (more_text-IsSound s t text n (subst (λ q. Agree s (after q)) e a) i h c l m))
        | inr (t, e) ↦
            rw (publish_delta, e) (Agree-IsSound s t (subst (λ q. Agree s (after q)) e a) i)
      ]
