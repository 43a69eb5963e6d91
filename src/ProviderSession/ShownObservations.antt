-- ===== src/ProviderSession/ShownObservations.antt =====
-- An observation that publishes a delta adds it to the taken text; no other one changes either.
use code_assist_harness.Prelude.{
  ℕ, ◌+◌, String, Bool, ◌||◌, true, Text, is_some, ◌≡◌, ◌≢◌, refl, ◌⊎◌, inl, inr, arith,
  Option-cases, Bool-cases, length, ltb,
}
use code_assist_harness.Utf8.{encode}
use code_assist_harness.Limits.Tracker.{reserve_bytes}
use code_assist_harness.ProviderSession.{
  ProviderSession, Observation, text_delta, text_completed, usage_reported, provider_completed,
  provider_failed, tool_call_requested, unsupported, completed_selection, wait_closed,
  failure_outcome, provider_failure_code, invalid_response_outcome, max_provider_turn_output_bytes,
}
use code_assist_harness.ProviderSession.Decisions.{
  and_then, call_observer, done, after, select, latch_provider_deadline, deadline_due,
  select_deadline_if_due, accept_observation, accept_branch, reserve_delta, publish_delta,
}
use code_assist_harness.ProviderSession.Shown.{
  IsShown, observer-Same, Same, Same-IsShown, deadline_due-Same, select_candidate-Same,
  select_deadline_if_due-Same, accept_tool_call-Same, publish_delta-IsShown,
}

module _ (is_due writes : ℕ → Bool) (timestamp : ℕ → String) where
  reserve_delta-cases :
      (text : Text) (n : ℕ) (s : ProviderSession)
      → Same s (after (reserve_delta is_due writes timestamp text n s))
        ⊎ ((t : ProviderSession) × Same s t
            × (reserve_delta is_due writes timestamp text n s
                ≡ publish_delta is_due writes timestamp text n t))
  unfolding reserve_delta deadline_due select latch_provider_deadline
  reserve_delta-cases text n s =
      let r = (deadline_due is_due writes timestamp s).0 in
      let t : ProviderSession = record r { limit_tracker = (reserve_bytes r.limit_tracker n).0 } in
      let a : Same s t = ground (arith, deadline_due-Same is_due writes timestamp s) in
      let c = select_candidate-Same is_due writes timestamp (invalid_response_outcome s) t in
      elim (Bool-cases (is_some s.selection)) [
        | inl e ↦ inl (ground (arith, e))
        | inr e ↦ elim (Bool-cases (deadline_due is_due writes timestamp s).1) [
          | inl f ↦ inl (ground (arith, e, f))
          | inr f ↦ elim (Bool-cases (reserve_bytes r.limit_tracker n).1) [
            | inr g ↦ inl (ground (arith, e, f, g))
            | inl g ↦
                elim (Bool-cases (ltb max_provider_turn_output_bytes (s.accepted_text_bytes + n))) [
                  | inl h ↦ inl (ground (arith, e, f, g, h, a, c))
                  | inr h ↦ inr (t, a, ground (arith, e, f, g, h))
                ]
          ]
        ]
      ]

  reserve_delta-IsShown :
      (text : Text) (n : ℕ) (s : ProviderSession)
      → IsShown s
      → IsShown (after (reserve_delta is_due writes timestamp text n s))
  reserve_delta-IsShown text n s i = elim (reserve_delta-cases text n s) [
    | inl a ↦ Same-IsShown s (after (reserve_delta is_due writes timestamp text n s)) a i
    | inr (t, a, e) ↦
        rw e (publish_delta-IsShown is_due writes timestamp text n t (Same-IsShown s t a i))
  ]

  reported-Same :
      (s : ProviderSession)
      → Same s (
          after (
            and_then (call_observer s.usage_observer s) (λ t.
              done
                (select_deadline_if_due is_due writes timestamp
                  (record t { usage_observed = true })).0)))
  reported-Same s =
      let t = after (call_observer s.usage_observer s) in
      ground (
        arith,
        observer-Same s.usage_observer s,
        select_deadline_if_due-Same is_due writes timestamp (record t { usage_observed = true }),
      )

  -- Every other observation leaves the lifecycle and the text.
  accept_branch-Same :
      (o : Observation) (s : ProviderSession)
      → ((t : Text) → o ≢ text_delta t)
      → Same s (after (accept_branch is_due writes timestamp o s))
  unfolding accept_branch
  accept_branch-Same (text_delta t) s d = absurd (d t refl)
  accept_branch-Same (text_completed t) s d =
      ground (arith, select_candidate-Same is_due writes timestamp (invalid_response_outcome s) s)
  accept_branch-Same (usage_reported x y) s d = ground (
    arith,
    select_candidate-Same is_due writes timestamp (invalid_response_outcome s) s,
    reported-Same s,
  )
  accept_branch-Same provider_completed s d = ground (
    arith,
    select_candidate-Same is_due writes timestamp (invalid_response_outcome s) s,
    select_candidate-Same is_due writes timestamp (completed_selection s) s,
  )
  accept_branch-Same (provider_failed c m) s d =
      select_candidate-Same is_due writes timestamp
        (failure_outcome s wait_closed (provider_failure_code c) m) s
  accept_branch-Same tool_call_requested s d = accept_tool_call-Same is_due writes timestamp s
  accept_branch-Same unsupported s d =
      select_candidate-Same is_due writes timestamp (invalid_response_outcome s) s

  accept_branch-IsShown :
      (o : Observation) (s : ProviderSession)
      → IsShown s
      → IsShown (after (accept_branch is_due writes timestamp o s))
  accept_branch-IsShown (text_delta text) s i =
      elim (Bool-cases (is_some s.completed_text || s.usage_observed)) [
        | inl e ↦
            Same-IsShown s (after (accept_branch is_due writes timestamp (text_delta text) s))
              (unfold accept_branch in
                ground (
                  arith,
                  e,
                  select_candidate-Same is_due writes timestamp (invalid_response_outcome s) s,
                ))
              i
        | inr e ↦ elim (Option-cases (encode text)) [
          | inl f ↦
              Same-IsShown s (after (accept_branch is_due writes timestamp (text_delta text) s))
                (unfold accept_branch in
                  ground (
                    arith,
                    e,
                    f,
                    select_candidate-Same is_due writes timestamp (invalid_response_outcome s) s,
                  ))
                i
          | inr (bs, f) ↦
              unfold accept_branch in
              ground (arith, e, f, reserve_delta-IsShown text (length bs) s i)
        ]
      ]
  accept_branch-IsShown o s i =
      Same-IsShown s (after (accept_branch is_due writes timestamp o s))
        (accept_branch-Same o s (λ t. ground arith)) i

  accept_observation-cases :
      (o : Observation) (s : ProviderSession)
      → (accept_observation is_due writes timestamp o s ≡ done s)
        ⊎ (accept_observation is_due writes timestamp o s
            ≡ done (select_deadline_if_due is_due writes timestamp s).0)
        ⊎ (accept_observation is_due writes timestamp o s
            ≡ accept_branch is_due writes timestamp o
                (select_deadline_if_due is_due writes timestamp s).0)
  unfolding accept_observation
  accept_observation-cases o s = ground arith

  pub accept_observation-IsShown :
      (o : Observation) (s : ProviderSession)
      → IsShown s
      → IsShown (after (accept_observation is_due writes timestamp o s))
  accept_observation-IsShown o s i =
      let r = (select_deadline_if_due is_due writes timestamp s).0 in
      let j = Same-IsShown s r (select_deadline_if_due-Same is_due writes timestamp s) i in
      elim (accept_observation-cases o s) [
        | inl e ↦ rw e i
        | inr (inl e) ↦ rw e j
        | inr (inr e) ↦ rw e (accept_branch-IsShown o r j)
      ]
