-- ===== src/Transcript/Replay.antt =====
-- `replay_transcript`: the checks on one record, and the loop over the lines of a file.
use code_assist_harness.Prelude.{
  ℕ, suc, ◌+◌, String, Option, none, some, Bool, true, false, ◌&&◌, ◌||◌, not, List, [], ◌∷◌, ◌++◌,
  Text, ltb, ◌==◌, length, opt_eq, is_some, if◌then◌else◌, ok, type_error, value_error,
}
use code_assist_harness.Utf8.{encode}
use code_assist_harness.Protocol.{assistant_delta}
use code_assist_harness.Limits.Tracker.{LoopLimitsObserved}
use code_assist_harness.Session.{SessionState, SessionUpdate, event, initial_session_state, running}
use code_assist_harness.Session.Reducer.{reduce_session_state, is_terminal, is_status}
use code_assist_harness.Transcript.{
  TranscriptRecord, RecordBody, session_event, model_usage_observed, loop_limits_observed,
  LimitsFields, TranscriptEvidence, no_evidence, record_update, record_matches_session,
  is_terminal_update, loop_limits_match_terminal, uses_loop_limit_failure_code,
  loop_limits_observation, max_replay_assistant_bytes,
}

pub data ReplayFailureCode : Type 0 where
  transcript_open_failed invalid_framing line_too_large invalid_utf8 : ReplayFailureCode
  invalid_record transcript_version_mismatch record_order_mismatch : ReplayFailureCode
  workspace_mismatch session_mismatch lifecycle_invariant_failed : ReplayFailureCode
  not_regular_file transcript_too_large : ReplayFailureCode

-- A value, a `TranscriptReplayError` with its line, or an exception of another kind.
pub data Replayed {ℓ} (A : Type ℓ) : Type ℓ where
  replayed : A → Replayed A
  replay_error : ReplayFailureCode → Option ℕ → Replayed A
  uncaught : Replayed A

infixl 5 ◌>>=◌
abbrev pub ◌>>=◌ {ℓ κ} : {A : Type ℓ} {B : Type κ} → Replayed A → (A → Replayed B) → Replayed B
replayed a >>= k = k a
replay_error c n >>= k = replay_error c n
uncaught >>= k = uncaught

-- The variables of the loop.
pub record Progress : Type 0 where
  pub records : List TranscriptRecord
  pub state : SessionState
  pub evidence : TranscriptEvidence
  pub expected_version : Option ℕ
  pub expected_workspace_id : Option String
  pub expected_session_id : Option String
  pub assistant_content_bytes : ℕ
  pub pending_loop_limits : Option LoopLimitsObserved

abbrev pub no_progress : Progress
no_progress = record {
  records = [];
  state = initial_session_state;
  evidence = no_evidence;
  expected_version = none;
  expected_workspace_id = none;
  expected_session_id = none;
  assistant_content_bytes = 0;
  pending_loop_limits = none;
}

abbrev version_agrees : Option ℕ → ℕ → Bool
version_agrees none v = true
version_agrees (some w) v = v == w

-- The version is the same in every record.
unfoldable pub check_version : ℕ → TranscriptRecord → Progress → Replayed Progress
check_version n r p =
    if version_agrees p.expected_version r.version
    then replayed (record p { expected_version = some r.version })
    else replay_error transcript_version_mismatch (some n)

-- The first record establishes the workspace, which may be given, and the session.
unfoldable pub check_scope : Option String → ℕ → TranscriptRecord → Progress → Replayed Progress
check_scope scoped n r p =
    if not (is_some p.expected_workspace_id)
    then if is_some scoped && not (opt_eq (some r.workspace_id) scoped)
      then replay_error workspace_mismatch (some n)
      else replayed (record p {
        expected_workspace_id = some r.workspace_id;
        expected_session_id = some r.session_id;
      })
    else if not (opt_eq (some r.workspace_id) p.expected_workspace_id)
    then replay_error workspace_mismatch (some n)
    else if not (opt_eq (some r.session_id) p.expected_session_id)
    then replay_error session_mismatch (some n)
    else replayed p

-- A record right after a snapshot of the limits must be the terminal event that agrees with it.
abbrev pub settles : LoopLimitsObserved → RecordBody → Bool
settles l (session_event e) =
    is_terminal_update (event e) && loop_limits_match_terminal l.exhausted (event e)
settles l _ = false

abbrev pub uses_code : RecordBody → Bool
uses_code (session_event e) = uses_loop_limit_failure_code (event e)
uses_code _ = false

abbrev is_version_three : Option ℕ → Bool
is_version_three none = false
is_version_three (some v) = v == 3

unfoldable pub check_pending : ℕ → TranscriptRecord → Progress → Replayed Progress
check_pending n r p = elim p.pending_loop_limits [
  | some l ↦
      if settles l r.body
      then replayed (record p { pending_loop_limits = none })
      else replay_error lifecycle_invariant_failed (some n)
  | none ↦
      if is_version_three p.expected_version && uses_code r.body
      then replay_error lifecycle_invariant_failed (some n)
      else replayed p
]

abbrev pub no_text : Text → Bool
no_text [] = true
no_text (c ∷ cs) = false

-- The branch for a record of model usage. `ModelUsageObserved` is made of values in range.
unfoldable pub replay_usage : ℕ → TranscriptRecord → ℕ → ℕ → Progress → Replayed Progress
replay_usage n r i o p =
    if is_some p.evidence.model_usage
      || is_some p.evidence.loop_limits
      || not (is_status p.state.status running)
      || no_text p.state.assistant_text
      || p.state.assistant_completed
    then replay_error lifecycle_invariant_failed (some n)
    else replayed (record p {
      records = p.records ++ r ∷ [];
      evidence = record {
        model_usage =
            some (record { session_id = r.session_id; input_tokens = i; output_tokens = o });
        loop_limits = p.evidence.loop_limits;
      };
    })

-- The bytes of a delta; the text of a record can always be encoded, or the exception is not caught.
unfoldable pub count_delta : ℕ → SessionUpdate → Progress → Replayed Progress
count_delta n (event (assistant_delta e text)) p =
    if is_some p.evidence.model_usage
    then replay_error lifecycle_invariant_failed (some n)
    else elim (encode text) [
      | none ↦ uncaught
      | some bytes ↦
          if ltb max_replay_assistant_bytes (p.assistant_content_bytes + length bytes)
          then replay_error transcript_too_large (some n)
          else replayed
              (record p { assistant_content_bytes = p.assistant_content_bytes + length bytes })
    ]
count_delta n u p = replayed p

-- The end of the loop for a record that holds an update.
unfoldable pub replay_update : ℕ → TranscriptRecord → SessionUpdate → Progress → Replayed Progress
replay_update n r u p = count_delta n u p >>= λ q.
    let reduction = reduce_session_state q.state u in
    elim reduction.failure [
      | some f ↦ replay_error lifecycle_invariant_failed (some n)
      | none ↦ replayed (record q { state = reduction.state; records = q.records ++ r ∷ [] })
    ]

module _ (is_session_id : String → Bool) where
  -- The branch for a snapshot of the loop limits.
  unfoldable pub replay_limits : ℕ → TranscriptRecord → LimitsFields → Progress → Replayed Progress
  replay_limits n r l p =
      if is_some p.evidence.loop_limits
        || not (opt_eq p.state.session_id (some r.session_id))
        || is_terminal p.state.status
      then replay_error lifecycle_invariant_failed (some n)
      else elim (loop_limits_observation is_session_id r.session_id l) [
        | type_error ↦ replay_error invalid_record (some n)
        | value_error ↦ replay_error invalid_record (some n)
        | ok observation ↦ replayed (record p {
          records = p.records ++ r ∷ [];
          evidence = record {
            model_usage = p.evidence.model_usage;
            loop_limits = some observation;
          };
          pending_loop_limits = some observation;
        })
      ]

  -- The branches for the kinds of a record.
  unfoldable pub replay_body : ℕ → TranscriptRecord → RecordBody → Progress → Replayed Progress
  replay_body n r (model_usage_observed i o) p = replay_usage n r i o p
  replay_body n r (loop_limits_observed l) p = replay_limits n r l p
  replay_body n r body p = elim (record_update body) [
    | none ↦ uncaught
    | some u ↦ replay_update n r u p
  ]

  -- One round of the loop, from the parsed record on.
  unfoldable pub replay_record : Option String → ℕ → TranscriptRecord → Progress → Replayed Progress
  replay_record scoped n r p =
      if not (r.record_order == n)
      then replay_error record_order_mismatch (some n)
      else check_version n r p >>= check_scope scoped n r >>= λ q.
          if not (record_matches_session r.session_id r.body)
          then replay_error session_mismatch (some n)
          else check_pending n r q >>= replay_body n r r.body

  -- The rounds for records one after the other.
  unfoldable pub replay_records :
      Option String → ℕ → List TranscriptRecord → Progress → Replayed Progress
  replay_records scoped n [] p = replayed p
  replay_records scoped n (r ∷ rs) p =
      replay_record scoped n r p >>= replay_records scoped (suc n) rs
