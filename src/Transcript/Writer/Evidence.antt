-- ===== src/Transcript/Writer/Evidence.antt =====
-- Requests to record evidence keep the records in agreement with the transcript.
use code_assist_harness.Prelude.{
  ℕ, ◌+◌, String, str_eq, str_eq_iff, Option, none, some, Bool, false, not, ◌||◌, List, [], ◌∷◌,
  ◌++◌, length, append-nil, opt_eq, is_some, ok, ◌≡◌, refl, sym, ap, ◌∙◌, subst, inl, inr, arith,
  Bool-cases,
}
use code_assist_harness.Limits.Tracker.{LoopLimitsObserved}
use code_assist_harness.Session.{running}
use code_assist_harness.Session.Reducer.{is_terminal, is_status}
use code_assist_harness.Transcript.{
  TranscriptRecord, TranscriptEvidence, ModelUsageObserved, RecordBody, loop_limits_observation,
  model_usage_observed, loop_limits_observed,
}
use code_assist_harness.Transcript.Replay.{Progress, replayed, replay_record, no_text}
use code_assist_harness.Transcript.Writer.{
  PersistenceFailureCode, transcript_write_failed, TranscriptFileOperations, OpenFile,
  SessionTranscript, make_record, append_record,
}
use code_assist_harness.Transcript.Writer.Requests.{attempt_usage, attempt_limits}
use code_assist_harness.Transcript.Writer.Checks.{limits_fields}
use code_assist_harness.Transcript.Writer.Steps.{Scoped, Advances}
use code_assist_harness.Transcript.Writer.Rounds.{usage_step, limits_step}
use code_assist_harness.Transcript.Writer.Records.{Agrees, lines, lines-snoc, append_record-cases}
use code_assist_harness.Transcript.Writer.Leaves.{
  Leaves, Leaves-equal, unchanged, not_appended, committed, appended,
}

module _ {R : Type 0} (is_session_id : String → Bool) (clock : ℕ → String)
    (is_valid_record : TranscriptRecord → Bool) (dump : TranscriptRecord → Option (List ℕ))
    (operations : TranscriptFileOperations) (rs : List TranscriptRecord) (w : SessionTranscript R)
    (a : Agrees is_session_id is_valid_record dump rs w) (open_file : w.closed ≡ false)
    (stored : w.file.bytes ≡ lines dump rs) where
  abbrev LeavesHere : SessionTranscript R × Option PersistenceFailureCode → Type 0
  LeavesHere = Leaves is_session_id is_valid_record dump

  -- The attempts to record evidence share this form.
  evidence-Leaves :
      (body : RecordBody) (evidence : TranscriptEvidence) (pending : Option LoopLimitsObserved)
      → ((p : Progress)
          → Scoped w.workspace_id w.session_id p
          → p.state ≡ w.state
          → p.evidence ≡ w.evidence
          → p.pending_loop_limits ≡ w.evidence.loop_limits
          → (q : Progress) × (replay_record is_session_id none w.next_record_order
                (make_record clock w body)
                p
              ≡ replayed q)
            × Advances p
                (make_record clock w body)
                w.state
                evidence
                p.assistant_content_bytes
                pending
                q)
      → pending ≡ evidence.loop_limits
      → (now : SessionTranscript R × Option PersistenceFailureCode)
      → ((line : List ℕ) (file : OpenFile)
          → append_record is_valid_record dump operations (make_record clock w body) w ≡ (
            record w {
              file = file;
              next_record_order = w.next_record_order + 1;
              committed_bytes = w.committed_bytes + length line;
            },
            none,
          )
          → now ≡ (committed w file line w.state evidence, none))
      → ((code : PersistenceFailureCode) (file : OpenFile)
          → append_record is_valid_record dump operations (make_record clock w body) w
            ≡ (record w { file = file }, some code)
          → now ≡ (record w { file = file }, some code))
      → LeavesHere now
  evidence-Leaves body evidence pending step l now on_success on_failure =
      elim (append_record-cases is_valid_record dump operations (make_record clock w body) w) [
        | inl (line, file, e, j, v, d, k, z) ↦
            let (p, pe, i, s, y, sc, (t, te, tb), pend, ok_state, x) = a in
            let (q, replay, adv) = step p sc s y (pend open_file) in
            let all = rs ++ make_record clock w body ∷ [] in
            Leaves-equal is_session_id is_valid_record dump now
              (committed w file line w.state evidence, none) (on_success line file e)
              (
                all,
                [],
                appended is_session_id clock is_valid_record dump rs w file line t w.state evidence
                    pending body p q pe i x v d k z replay
                    (subst (λ n. Advances p (make_record clock w body) w.state evidence n pending q)
                      (sym tb) adv)
                    te (λ _. l) ok_state,
                j
                    ∙ ap (λ bs. bs ++ line) stored
                    ∙ sym (lines-snoc dump rs (make_record clock w body) line d)
                    ∙ sym (append-nil (lines dump all)),
                λ _. refl,
              )
        | inr (code, file, left, e, j) ↦
            Leaves-equal is_session_id is_valid_record dump now
              (record w { file = file }, some code) (on_failure code file e)
              (not_appended is_session_id is_valid_record dump rs w code file left a stored j)
      ]

  pub attempt_usage-Leaves :
      (observation : ModelUsageObserved)
      → LeavesHere (attempt_usage clock is_valid_record dump operations observation w)
  unfolding attempt_usage
  attempt_usage-Leaves observation =
      let now = attempt_usage clock is_valid_record dump operations observation w in
      let guard =
        not (str_eq observation.session_id w.session_id)
        || is_some w.evidence.model_usage
        || is_some w.evidence.loop_limits
        || not (is_status w.state.status running)
        || no_text w.state.assistant_text
        || w.state.assistant_completed in
      elim (Bool-cases guard) [
        | inl g ↦
            Leaves-equal is_session_id is_valid_record dump now (w, some transcript_write_failed)
              (ground (arith, g))
              (unchanged is_session_id is_valid_record dump rs w transcript_write_failed a stored)
        | inr g ↦
            evidence-Leaves
              (model_usage_observed observation.input_tokens observation.output_tokens)
              (record { model_usage = some observation; loop_limits = w.evidence.loop_limits }) none
              (λ p sc s y l.
                let r =
                  make_record clock w
                    (model_usage_observed observation.input_tokens observation.output_tokens) in
                let (q, e, (x, ar, st, ae, ab, pe)) =
                  usage_step is_session_id w.next_record_order r p refl refl sc
                    observation.input_tokens observation.output_tokens refl (y ∙ ground (arith, g))
                    (l ∙ ground (arith, g))
                    (ap (λ v. is_status v.status running) s ∙ ground (arith, g))
                    (ap (λ v. no_text v.assistant_text) s ∙ ground (arith, g))
                    (ap (λ v. v.assistant_completed) s ∙ ground (arith, g)) in
                (
                  q,
                  e,
                  (
                    x,
                    ar,
                    st ∙ s,
                    ae ∙ ground (arith, g, str_eq_iff observation.session_id w.session_id),
                    ab,
                    pe,
                  ),
                ))
              (ground (arith, g)) now (λ line file e. ground (arith, g, e))
              (λ code file e. ground (arith, g, e))
      ]

  pub attempt_limits-Leaves :
      (observation : LoopLimitsObserved)
      → loop_limits_observation is_session_id observation.session_id (limits_fields observation)
        ≡ ok observation
      → LeavesHere (attempt_limits clock is_valid_record dump operations observation w)
  unfolding attempt_limits
  attempt_limits-Leaves observation m =
      let now = attempt_limits clock is_valid_record dump operations observation w in
      let guard =
        not (str_eq observation.session_id w.session_id)
        || is_some w.evidence.loop_limits
        || not (opt_eq w.state.session_id (some w.session_id))
        || is_terminal w.state.status in
      elim (Bool-cases guard) [
        | inl g ↦
            Leaves-equal is_session_id is_valid_record dump now (w, some transcript_write_failed)
              (ground (arith, g))
              (unchanged is_session_id is_valid_record dump rs w transcript_write_failed a stored)
        | inr g ↦
            evidence-Leaves (loop_limits_observed (limits_fields observation))
              (record { model_usage = w.evidence.model_usage; loop_limits = some observation })
              (some observation)
              (λ p sc s y l.
                let r = make_record clock w (loop_limits_observed (limits_fields observation)) in
                let here : observation.session_id ≡ w.session_id =
                  ground (arith, g, str_eq_iff observation.session_id w.session_id) in
                let (q, e, (x, ar, st, ae, ab, pe)) =
                  limits_step is_session_id w.next_record_order r p refl refl sc observation refl
                    (subst
                      (λ v.
                        loop_limits_observation is_session_id v (limits_fields observation)
                        ≡ ok observation)
                      here m)
                    (ap (λ v. v.loop_limits) y ∙ ground (arith, g)) (l ∙ ground (arith, g))
                    (ap (λ v. opt_eq v.session_id (some w.session_id)) s ∙ ground (arith, g))
                    (ap (λ v. is_terminal v.status) s ∙ ground (arith, g)) in
                (
                  q,
                  e,
                  (
                    x,
                    ar,
                    st ∙ s,
                    ae
                        ∙ ap
                            (λ v. record {
                              model_usage = v.model_usage;
                              loop_limits = some observation;
                            })
                            y,
                    ab,
                    pe,
                  ),
                ))
              refl now (λ line file e. ground (arith, g, e)) (λ code file e. ground (arith, g, e))
      ]
