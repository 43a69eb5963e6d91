-- ===== src/Transcript/Writer/Steps.antt =====
-- What the parts of a round of the replay do with a record that a transcript has written.
use code_assist_harness.Prelude.{
  ℕ, ◌≤◌, String, str_eq_refl, Option, none, some, Bool, false, List, [], ◌∷◌, ◌++◌, length, opt_eq,
  ◌≡◌, refl, sym, ap, ◌∙◌, append-nil, ◌⊎◌, inl, inr, arith, Option-cases,
}
use code_assist_harness.Utf8.{encode}
use code_assist_harness.Utf8.RoundTrip.{encode_suffix}
use code_assist_harness.Protocol.{assistant_delta}
use code_assist_harness.Session.{SessionState, SessionUpdate, event}
use code_assist_harness.Session.Reducer.{reduce_session_state, accept}
use code_assist_harness.Session.Tape.{delta}
use code_assist_harness.Limits.Tracker.{LoopLimitsObserved}
use code_assist_harness.Transcript.{
  TranscriptRecord, TranscriptEvidence, build_body, is_terminal_update,
  uses_loop_limit_failure_code, record_update, max_replay_assistant_bytes,
}
use code_assist_harness.Transcript.Replay.{
  replayed, Progress, check_version, check_scope, check_pending, count_delta, replay_update,
  replay_body, ◌>>=◌,
}
use code_assist_harness.Transcript.Writer.Checks.{contradicts_evidence}

-- Nothing is established yet, or what the records of this session establish.
abbrev pub Scoped : String → String → Progress → Type 0
Scoped ws sid p =
    (p.expected_version ≡ none) × (p.expected_workspace_id ≡ none)
    ⊎ (p.expected_version ≡ some 3)
      × (p.expected_workspace_id ≡ some ws)
      × (p.expected_session_id ≡ some sid)

abbrev pub IsEstablished : String → String → Progress → Type 0
IsEstablished ws sid p =
    (p.expected_version ≡ some 3)
    × (p.expected_workspace_id ≡ some ws)
    × (p.expected_session_id ≡ some sid)

-- What two points of a replay share beside the scope.
abbrev pub SameContents : Progress → Progress → Type 0
SameContents p q =
    (q.records ≡ p.records)
    × (q.state ≡ p.state)
    × (q.evidence ≡ p.evidence)
    × (q.assistant_content_bytes ≡ p.assistant_content_bytes)
    × (q.pending_loop_limits ≡ p.pending_loop_limits)

pub scope_step :
    (n : ℕ) (r : TranscriptRecord) (p : Progress)
    → r.version ≡ 3
    → Scoped r.workspace_id r.session_id p
    → (q : Progress) × ((check_version n r p >>= check_scope none n r) ≡ replayed q)
      × IsEstablished r.workspace_id r.session_id q
      × SameContents p q
unfolding check_version check_scope opt_eq
scope_step n r p v (inl (e, f)) = (
  record p {
    expected_version = some r.version;
    expected_workspace_id = some r.workspace_id;
    expected_session_id = some r.session_id;
  },
  ground (arith, e, f, v),
  (ground (arith, v), refl, refl),
  (refl, refl, refl, refl, refl),
)
scope_step n r p v (inr (e, f, g)) = (
  record p { expected_version = some r.version },
  ground (arith, e, f, g, v, str_eq_refl r.workspace_id, str_eq_refl r.session_id),
  (ground (arith, v), f, g),
  (refl, refl, refl, refl, refl),
)

-- A replay goes on after a record: it holds these values, and the record as its last one.
abbrev pub Advances :
    Progress
    → TranscriptRecord
    → SessionState
    → TranscriptEvidence
    → ℕ
    → Option LoopLimitsObserved
    → Progress
    → Type 0
Advances p r state evidence bytes pending q =
    IsEstablished r.workspace_id r.session_id q
    × (q.records ≡ p.records ++ r ∷ [])
    × (q.state ≡ state)
    × (q.evidence ≡ evidence)
    × (q.assistant_content_bytes ≡ bytes)
    × (q.pending_loop_limits ≡ pending)

-- The terminal event after a snapshot of the limits settles it.
pub pending_step :
    (n : ℕ) (r : TranscriptRecord) (q : Progress) (u : SessionUpdate)
    → r.body ≡ build_body u
    → contradicts_evidence q.evidence u ≡ false
    → q.pending_loop_limits ≡ q.evidence.loop_limits
    → check_pending n r q ≡ replayed (record q { pending_loop_limits = none })
unfolding build_body contradicts_evidence check_pending uses_loop_limit_failure_code
    is_terminal_update
pending_step n r q (event e) b c l = elim (Option-cases q.evidence.loop_limits) [
  | inl h ↦ ground (arith, b, c, l, h)
  | inr (x, h) ↦ ground (arith, b, c, l, h)
]
pending_step n r q u b c l = elim (Option-cases q.evidence.loop_limits) [
  | inl h ↦ ground (arith, b, c, l, h)
  | inr (x, h) ↦ ground (arith, b, c, l, h)
]

-- The bytes of the deltas are those of the text.
pub count_step :
    (n : ℕ) (u : SessionUpdate) (q : Progress) (m : SessionState) (b : List ℕ)
    → contradicts_evidence q.evidence u ≡ false
    → m.assistant_text ≡ q.state.assistant_text ++ delta u
    → encode m.assistant_text ≡ some b
    → length b ≤ max_replay_assistant_bytes
    → (x : List ℕ) → encode q.state.assistant_text ≡ some x
    → length x ≡ q.assistant_content_bytes
    → count_delta n u q ≡ replayed (record q { assistant_content_bytes = length b })
unfolding contradicts_evidence count_delta
count_step n (event (assistant_delta e text)) q m b c d h k x f z =
    let (x', y, f', g, j) = encode_suffix q.state.assistant_text text b (ap encode (sym d) ∙ h) in
    ground (arith, c, g, j, k, z, f, f')
count_step n u q m b c d h k x f z =
    ap (λ k. replayed (record q { assistant_content_bytes = k }))
      (same_text (sym h ∙ ap encode (d ∙ append-nil q.state.assistant_text) ∙ f))
  where
    same_text : some b ≡ some x → q.assistant_content_bytes ≡ length b
    same_text e = ground (arith, e, z)

pub apply_step :
    (n : ℕ) (r : TranscriptRecord) (u : SessionUpdate) (m : SessionState) (q c : Progress)
    → count_delta n u q ≡ replayed c
    → reduce_session_state c.state u ≡ accept m
    → replay_update n r u q ≡ replayed (record c { state = m; records = c.records ++ r ∷ [] })
unfolding replay_update
apply_step n r u m q c e f = ground (arith, e, f)

-- A record of an update is replayed as that update.
module _ (is_session_id : String → Bool) where
  pub body_update :
      (n : ℕ) (r : TranscriptRecord) (u : SessionUpdate) (q : Progress)
      → replay_body is_session_id n r (build_body u) q ≡ replay_update n r u q
  unfolding replay_body build_body record_update
  body_update n r (event e) q = refl
  body_update n r u q = refl
