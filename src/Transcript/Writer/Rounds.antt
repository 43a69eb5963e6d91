-- ===== src/Transcript/Writer/Rounds.antt =====
-- One round of the replay, on a record that a transcript has written: evidence, or an update.
use code_assist_harness.Prelude.{
  ℕ, ◌≤◌, String, none, some, ok, Bool, true, false, List, [], ◌∷◌, ◌++◌, length, opt_eq, ◌≡◌, refl,
  sym, ap, ◌∙◌, arith,
}
use code_assist_harness.Utf8.{encode}
use code_assist_harness.Session.{SessionState, SessionUpdate, running}
use code_assist_harness.Session.Reducer.{reduce_session_state, is_terminal, is_status, accept}
use code_assist_harness.Session.Tape.{delta}
use code_assist_harness.Limits.Tracker.{LoopLimitsObserved}
use code_assist_harness.Transcript.{
  TranscriptRecord, no_evidence, build_body, record_matches_session, loop_limits_observation,
  max_replay_assistant_bytes, model_usage_observed, loop_limits_observed,
}
use code_assist_harness.Transcript.Replay.{
  replayed, Progress, check_pending, replay_usage, replay_limits, replay_update, replay_record,
  replay_body, ◌>>=◌, no_text,
}
use code_assist_harness.Transcript.Writer.Checks.{contradicts_evidence, limits_fields}
use code_assist_harness.Transcript.Writer.Steps.{
  Scoped, IsEstablished, SameContents, Advances, scope_step, pending_step, count_step, apply_step,
  body_update,
}

module _ (is_session_id : String → Bool) (n : ℕ) (r : TranscriptRecord) (p : Progress)
    (order : r.record_order ≡ n) (version : r.version ≡ 3)
    (scope : Scoped r.workspace_id r.session_id p) where
  begin_step :
      record_matches_session r.session_id r.body ≡ true
      → (q : Progress) × (replay_record is_session_id none n r p
          ≡ (check_pending n r q >>= replay_body is_session_id n r r.body))
        × IsEstablished r.workspace_id r.session_id q
        × SameContents p q
  unfolding replay_record
  begin_step h =
      let (q, e, x, s) = scope_step n r p version scope in (q, ground (arith, order, e, h), x, s)

  pub usage_step :
      (i o : ℕ)
      → r.body ≡ model_usage_observed i o
      → p.evidence ≡ no_evidence
      → p.pending_loop_limits ≡ none
      → is_status p.state.status running ≡ true
      → no_text p.state.assistant_text ≡ false
      → p.state.assistant_completed ≡ false
      → (q : Progress) × (replay_record is_session_id none n r p ≡ replayed q)
        × Advances p r p.state
            (record {
              model_usage =
                  some (record { session_id = r.session_id; input_tokens = i; output_tokens = o });
              loop_limits = none;
            })
            p.assistant_content_bytes
            none
            q
  unfolding record_matches_session check_pending replay_body replay_usage
  usage_step i o b e l s t c =
      let (q, f, x, m) = begin_step (rw b refl) in
      (
        record q {
          records = q.records ++ r ∷ [];
          evidence = record {
            model_usage =
                some (record { session_id = r.session_id; input_tokens = i; output_tokens = o });
            loop_limits = none;
          };
        },
        ground (arith, f, b, e, l, s, t, c, m),
        (x, ground (arith, m), m.1, refl, m.3, ground (arith, m, l)),
      )

  pub limits_step :
      (l : LoopLimitsObserved)
      → r.body ≡ loop_limits_observed (limits_fields l)
      → loop_limits_observation is_session_id r.session_id (limits_fields l) ≡ ok l
      → p.evidence.loop_limits ≡ none
      → p.pending_loop_limits ≡ none
      → opt_eq p.state.session_id (some r.session_id) ≡ true
      → is_terminal p.state.status ≡ false
      → (q : Progress) × (replay_record is_session_id none n r p ≡ replayed q)
        × Advances p r p.state
            (record { model_usage = p.evidence.model_usage; loop_limits = some l })
            p.assistant_content_bytes
            (some l)
            q
  unfolding record_matches_session check_pending replay_body replay_limits
  limits_step l b o e k s t =
      let (q, f, x, m) = begin_step (rw b refl) in
      (
        record q {
          records = q.records ++ r ∷ [];
          evidence = record { model_usage = q.evidence.model_usage; loop_limits = some l };
          pending_loop_limits = some l;
        },
        ground (arith, f, b, o, e, k, s, t, m),
        (x, ground (arith, m), m.1, ground (arith, m), m.3, refl),
      )

  pub update_step :
      (u : SessionUpdate) (m : SessionState) (x b : List ℕ)
      → r.body ≡ build_body u
      → record_matches_session r.session_id r.body ≡ true
      → contradicts_evidence p.evidence u ≡ false
      → p.pending_loop_limits ≡ p.evidence.loop_limits
      → reduce_session_state p.state u ≡ accept m
      → m.assistant_text ≡ p.state.assistant_text ++ delta u
      → encode p.state.assistant_text ≡ some x
      → length x ≡ p.assistant_content_bytes
      → encode m.assistant_text ≡ some b
      → length b ≤ max_replay_assistant_bytes
      → (q : Progress) × (replay_record is_session_id none n r p ≡ replayed q)
        × Advances p r m p.evidence (length b) none q
  update_step u m x b h matches c l a t f z k e =
      let (q, g, s, (mr, ms, me, mb, mp)) = begin_step matches in
      let pending : check_pending n r q ≡ replayed (record q { pending_loop_limits = none }) =
        pending_step n r q u h (rw me c) (mp ∙ l ∙ ap (λ v. v.loop_limits) (sym me)) in
      let settled = record q { pending_loop_limits = none } in
      let counted = record settled { assistant_content_bytes = length b } in
      let runs : replay_update n r u settled
          ≡ replayed (record counted { state = m; records = q.records ++ r ∷ [] }) =
        apply_step n r u m settled counted
          (count_step n u settled m b (rw me c) (rw ms t) k e x (rw ms f) (z ∙ sym mb)) (rw ms a) in
      (
        record counted { state = m; records = q.records ++ r ∷ [] },
        g
            ∙ ap (λ v. v >>= replay_body is_session_id n r r.body) pending
            ∙ ap (λ v. replay_body is_session_id n r v settled) h
            ∙ body_update is_session_id n r u settled
            ∙ runs,
        (s, ground (arith, mr), refl, me, refl, refl),
      )
