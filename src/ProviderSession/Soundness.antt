-- ===== src/ProviderSession/Soundness.antt =====
-- Every observation keeps the text of a session sound.
use code_assist_harness.Prelude.{
  ℕ, String, none, some, Bool, true, false, Text, ◌≡◌, ◌∙◌, inl, inr, arith, Option-cases,
  text_eq_iff, ap, length,
}
use code_assist_harness.Utf8.{encode}
use code_assist_harness.Limits.Tracker.{reserve_bytes, observe_tool_call}
use code_assist_harness.ProviderSession.{
  ProviderSession, Observation, text_delta, text_completed, usage_reported, provider_completed,
  provider_failed, tool_call_requested, unsupported, completed_selection, wait_closed,
  failure_outcome, provider_failure_code, invalid_response_outcome, output_limit_outcome,
  tool_call_limit_outcome, tool_unavailable_outcome, join_texts,
}
use code_assist_harness.ProviderSession.Decisions.{
  and_then, done, call_observer, after, no_text, deadline_due, select_candidate,
  select_deadline_if_due, accept_observation, accept_branch, accept_tool_call, reserve_delta,
}
use code_assist_harness.ProviderSession.Streamed.{
  IsSound, Agree-IsSound, select-IsSound, select_completed-IsSound, reserved-IsSound,
  observed-IsSound, deadline_due-Agree, expire-IsSound, observer-Agree, select_candidate-IsSound,
  select_deadline_if_due-IsSound, publish_delta-IsSound,
}

completed_text-IsSound :
    (s : ProviderSession) (text : Text)
    → IsSound s
    → s.selection ≡ none
    → text ≡ join_texts s.accepted_text
    → IsSound (record s { completed_text = some text })
completed_text-IsSound s text i n e = ground (arith, i, n, e)

usage-IsSound : (s : ProviderSession) → IsSound s → IsSound (record s { usage_observed = true })
usage-IsSound s i = ground (arith, i)

module _ (is_due writes : ℕ → Bool) (timestamp : ℕ → String) where
  pub invalid-IsSound :
      (s : ProviderSession)
      → IsSound s
      → IsSound (select_candidate is_due writes timestamp (invalid_response_outcome s) s)
  invalid-IsSound s i =
      select_candidate-IsSound is_due writes timestamp (invalid_response_outcome s) s (ground arith)
        i

  reserve_delta-IsSound :
      (text : Text) (n : ℕ) (s : ProviderSession)
      → IsSound s
      → s.completed_text ≡ none
      → IsSound (after (reserve_delta is_due writes timestamp text n s))
  unfolding reserve_delta
  reserve_delta-IsSound text n s i c =
      let r = (deadline_due is_due writes timestamp s).0 in
      let a = deadline_due-Agree is_due writes timestamp s in
      let j = Agree-IsSound s r a i in
      let t = record r { limit_tracker = (reserve_bytes r.limit_tracker n).0 } in
      let (k, l) = reserved-IsSound r n j in
      ground (
        arith,
        i,
        c,
        a,
        expire-IsSound is_due writes timestamp r j,
        k,
        l,
        select-IsSound (output_limit_outcome s) t (ground arith) k,
        select_candidate-IsSound is_due writes timestamp (invalid_response_outcome s) t
            (ground arith) k,
        publish_delta-IsSound is_due writes timestamp text n t k,
      )

  accept_tool_call-IsSound :
      (s : ProviderSession) → IsSound s → IsSound (accept_tool_call is_due writes timestamp s)
  unfolding accept_tool_call
  accept_tool_call-IsSound s i =
      let r = (deadline_due is_due writes timestamp s).0 in
      let j = Agree-IsSound s r (deadline_due-Agree is_due writes timestamp s) i in
      let t = record r { limit_tracker = (observe_tool_call r.limit_tracker).0 } in
      let k = observed-IsSound r j in
      ground (
        arith,
        i,
        expire-IsSound is_due writes timestamp r j,
        select-IsSound (tool_unavailable_outcome s) t (ground arith) k,
        select-IsSound (tool_call_limit_outcome s) t (ground arith) k,
      )

  completed_candidate-IsSound :
      (s : ProviderSession) (t : Text)
      → s.completed_text ≡ some t
      → no_text s.accepted_text ≡ false
      → IsSound s
      → IsSound (select_candidate is_due writes timestamp (completed_selection s) s)
  unfolding select_candidate
  completed_candidate-IsSound s t e n i =
      let r = (deadline_due is_due writes timestamp s).0 in
      let a = deadline_due-Agree is_due writes timestamp s in
      let j = Agree-IsSound s r a i in
      ground (
        arith,
        i,
        expire-IsSound is_due writes timestamp r j,
        select_completed-IsSound (completed_selection s) r t (a.same_completion ∙ e)
            (ap no_text a.same_text ∙ n) j,
      )

  -- The observer of the usage is called first.
  reported-IsSound :
      (s : ProviderSession)
      → IsSound s
      → IsSound (
          after (
            and_then (call_observer s.usage_observer s) (λ t.
              done
                (select_deadline_if_due is_due writes timestamp
                  (record t { usage_observed = true })).0)))
  reported-IsSound s i =
      let j =
        Agree-IsSound s (after (call_observer s.usage_observer s))
          (observer-Agree s.usage_observer s) i in
      let t = after (call_observer s.usage_observer s) in
      ground (
        arith,
        j,
        select_deadline_if_due-IsSound is_due writes timestamp (record t { usage_observed = true })
            (usage-IsSound t j),
      )

  accept_branch-IsSound :
      (o : Observation) (s : ProviderSession)
      → IsSound s
      → s.selection ≡ none
      → IsSound (after (accept_branch is_due writes timestamp o s))
  unfolding accept_branch
  accept_branch-IsSound (text_delta text) s i n = elim (Option-cases (encode text)) [
    | inl e ↦ ground (arith, e, invalid-IsSound s i)
    | inr (bs, e) ↦
        ground (arith, e, invalid-IsSound s i, reserve_delta-IsSound text (length bs) s i)
  ]
  accept_branch-IsSound (text_completed text) s i n = ground (
    arith,
    invalid-IsSound s i,
    text_eq_iff text (join_texts s.accepted_text),
    completed_text-IsSound s text i n,
  )
  accept_branch-IsSound (usage_reported x y) s i n =
      ground (arith, invalid-IsSound s i, reported-IsSound s i)
  accept_branch-IsSound provider_completed s i n = elim (Option-cases s.completed_text) [
    | inl e ↦ ground (arith, e, invalid-IsSound s i)
    | inr (t, e) ↦ ground (
      arith,
      e,
      invalid-IsSound s i,
      λ (k : no_text s.accepted_text ≡ false). completed_candidate-IsSound s t e k i,
    )
  ]
  accept_branch-IsSound (provider_failed code message) s i n =
      select_candidate-IsSound is_due writes timestamp
        (failure_outcome s wait_closed (provider_failure_code code) message) s (ground arith) i
  accept_branch-IsSound tool_call_requested s i n = accept_tool_call-IsSound s i
  accept_branch-IsSound unsupported s i n = invalid-IsSound s i

  still_unselected :
      (s : ProviderSession)
      → s.selection ≡ none
      → (select_deadline_if_due is_due writes timestamp s).1 ≡ false
      → (select_deadline_if_due is_due writes timestamp s).0.selection ≡ none
  unfolding select_deadline_if_due
  still_unselected s n e =
      ground (arith, n, e, (deadline_due-Agree is_due writes timestamp s).same_selection)

  pub accept_observation-IsSound :
      (o : Observation) (s : ProviderSession)
      → IsSound s
      → IsSound (after (accept_observation is_due writes timestamp o s))
  unfolding accept_observation
  accept_observation-IsSound o s i =
      let r = (select_deadline_if_due is_due writes timestamp s).0 in
      let j = select_deadline_if_due-IsSound is_due writes timestamp s i in
      ground (arith, i, j, still_unselected s, accept_branch-IsSound o r j)
