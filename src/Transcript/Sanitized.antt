-- ===== src/Transcript/Sanitized.antt =====
-- Sanitized updates against the lifecycle reducer: what a session's own state accepts, the safe state
-- of its transcript accepts as well.
use code_assist_harness.Prelude.{
  Option, some, true, String, [], ◌∷◌, ◌++◌, Text, ◌≡◌, ◌≢◌, refl, inl, inr, arith, Option-cases,
  opt_eq, opt_eq_iff, text_eq_iff, text_eq_refl,
}
use code_assist_harness.Protocol.{
  session_started, assistant_delta, assistant_completed, session_failed,
}
use code_assist_harness.Session.{SessionState, SessionUpdate, task_submitted, event}
use code_assist_harness.Session.Invariant.{IsValid, reduce-IsValid}
use code_assist_harness.Session.Reducer.{accept, reduce_session_state, is_status}
use code_assist_harness.Transcript.Sanitizer.{
  TranscriptSanitizer, sanitize_update, bounded, bounded_assistant_fragment, or_omission,
}
use code_assist_harness.Transcript.Bounds.{IsBounded, fragment-IsSafeDelta}
use code_assist_harness.Transcript.Writer.Checks.{same_lifecycle_invariants, failure_code}

-- The safe state beside the session's: alike but for the texts. The safe text is the sanitizer's, and
-- there is some as soon as the session has some.
abbrev pub Mirrors : {R : Type 0} → TranscriptSanitizer R → SessionState → SessionState → Type 0
Mirrors z live safe =
    (safe.status ≡ live.status)
    × (safe.start_command_id ≡ live.start_command_id)
    × (safe.session_id ≡ live.session_id)
    × (safe.cancel_command_id ≡ live.cancel_command_id)
    × (safe.last_sequence ≡ live.last_sequence)
    × (safe.assistant_completed ≡ live.assistant_completed)
    × (failure_code safe.session_failure ≡ failure_code live.session_failure)
    × (safe.assistant_text ≡ z.safe_assistant_text)
    × (z.safe_assistant_text ≡ [] → live.assistant_text ≡ [])

-- The text of a completion is not empty, as its payload's type has it.
abbrev pub CarriesText : SessionUpdate → Type 0
CarriesText (event (assistant_completed e text)) = text ≢ []
CarriesText _ = Unit

is_status_refl : (live : SessionState) → is_status live.status live.status ≡ true
is_status_refl live = ground arith

opt_eq_refl : (o : Option String) → opt_eq o o ≡ true
opt_eq_refl o = (opt_eq_iff o o).1 refl

lifecycle_agrees :
    {R : Type 0} (z : TranscriptSanitizer R) (live safe : SessionState)
    → Mirrors z live safe
    → same_lifecycle_invariants safe live ≡ true
unfolding same_lifecycle_invariants
lifecycle_agrees z live safe (a, b, c, d, e, f, g, _, _) = ground (
  arith,
  a,
  b,
  c,
  d,
  e,
  f,
  g,
  is_status_refl live,
  opt_eq_refl live.start_command_id,
  opt_eq_refl live.session_id,
  opt_eq_refl live.cancel_command_id,
  opt_eq_refl (failure_code live.session_failure),
)

append_nonempty : (xs ys : Text) → ys ≢ [] → xs ++ ys ≢ []
append_nonempty [] ys h e = h e
append_nonempty (x ∷ xs) ys h e = absurd (ground arith)

nonempty : (t : Text) → t ≢ [] → or_omission t ≡ t
nonempty [] h = absurd (h refl)
nonempty (c ∷ cs) h = refl

module _ {R : Type 0} (redact : Text → Text) (redact_stream : R → Text → R × Text) where
  abbrev Step : TranscriptSanitizer R → SessionState → SessionUpdate → SessionState → Type 0
  Step z live v safe =
      (next : SessionState) × (reduce_session_state safe v ≡ accept next) × Mirrors z live next

  step :
      (z t : TranscriptSanitizer R) (live safe after : SessionState) (u v : SessionUpdate)
      → IsBounded z
      → IsValid safe
      → Mirrors z live safe
      → reduce_session_state live u ≡ accept after
      → CarriesText u
      → sanitize_update redact redact_stream z u ≡ some (t, v)
      → (reduce_session_state safe v ≡ accept (reduce_session_state safe v).state)
        × Mirrors t after (reduce_session_state safe v).state
  unfolding reduce_session_state sanitize_update
  step z t live safe after (task_submitted c task) v k y m a h s =
      elim (Option-cases (bounded redact redact_stream z task)) [
        | inl e ↦ absurd (ground (arith, e, s))
        | inr (x, e) ↦ ground (arith, e, s, a, m, y.fresh)
      ]
  step z t live safe after (event (session_started e)) v k y m a h s = ground (arith, s, a, m)
  step z t live safe after (event (assistant_delta e text)) v k y m a h s =
      let start : TranscriptSanitizer R = record z { tail = (redact_stream z.tail text).0 } in
      elim (Option-cases
        (bounded_assistant_fragment redact redact_stream start (redact_stream z.tail text).1)) [
          | inl f ↦ absurd (ground (arith, f, s))
          | inr ((n, w), f) ↦
              let (b, _, ne, _, same) =
                fragment-IsSafeDelta redact redact_stream start (redact_stream z.tail text).1 (n, w)
                  k f in
              ground (arith, f, s, a, m, same, append_nonempty n.safe_assistant_text w ne)
        ]
  step z t live safe after (event (assistant_completed e text)) v k y m a h s = ground (
    arith,
    s,
    a,
    m,
    text_eq_iff text live.assistant_text,
    text_eq_refl safe.assistant_text,
    nonempty z.safe_assistant_text,
    h,
  )
  step z t live safe after (event (session_failed e code message)) v k y m a h s =
      elim (Option-cases (bounded redact redact_stream z message)) [
        | inl e ↦ absurd (ground (arith, e, s))
        | inr (x, e) ↦ ground (arith, e, s, a, m)
      ]
  step z t live safe after (event _) v k y m a h s = ground (arith, s, a, m)
  step z t live safe after _ v k y m a h s = ground (arith, s, a, m)

  sanitize-IsBounded :
      (z t : TranscriptSanitizer R) (u v : SessionUpdate)
      → IsBounded z
      → sanitize_update redact redact_stream z u ≡ some (t, v)
      → IsBounded t
  unfolding sanitize_update
  sanitize-IsBounded z t (task_submitted c task) v k s =
      elim (Option-cases (bounded redact redact_stream z task)) [
        | inl e ↦ absurd (ground (arith, e, s))
        | inr (x, e) ↦ ground (arith, e, s)
      ]
  sanitize-IsBounded z t (event (assistant_delta e text)) v k s =
      let start : TranscriptSanitizer R = record z { tail = (redact_stream z.tail text).0 } in
      elim (Option-cases
        (bounded_assistant_fragment redact redact_stream start (redact_stream z.tail text).1)) [
          | inl f ↦ absurd (ground (arith, f, s))
          | inr ((n, w), f) ↦
              let (b, _, _, _, _) =
                fragment-IsSafeDelta redact redact_stream start (redact_stream z.tail text).1 (n, w)
                  k f in
              ground (arith, f, s, b)
        ]
  sanitize-IsBounded z t (event (session_failed e code message)) v k s =
      elim (Option-cases (bounded redact redact_stream z message)) [
        | inl e ↦ absurd (ground (arith, e, s))
        | inr (x, e) ↦ ground (arith, e, s)
      ]
  sanitize-IsBounded z t (event _) v k s = ground (arith, s)
  sanitize-IsBounded z t _ v k s = ground (arith, s)

  -- When the session's state accepts an update, the safe state beside it accepts the sanitized update,
  -- with the same lifecycle values, and both states and the sanitizer stay as the next update needs
  -- them. The sanitizer's limit has room for the marker, its content keeps to the limit, the safe state
  -- is a valid one, and a completion carries some text.
  pub sanitized_accepted :
      (z t : TranscriptSanitizer R) (live safe after : SessionState) (u v : SessionUpdate)
      → IsBounded z
      → IsValid safe
      → Mirrors z live safe
      → reduce_session_state live u ≡ accept after
      → CarriesText u
      → sanitize_update redact redact_stream z u ≡ some (t, v)
      → (next : SessionState) × (reduce_session_state safe v ≡ accept next)
        × (same_lifecycle_invariants next after ≡ true)
        × Mirrors t after next
        × IsValid next
        × IsBounded t
  sanitized_accepted z t live safe after u v k y m a h s =
      let (e, n) = step z t live safe after u v k y m a h s in
      let next = (reduce_session_state safe v).state in
      (
        next,
        e,
        lifecycle_agrees t after next n,
        n,
        reduce-IsValid safe v y,
        sanitize-IsBounded z t u v k s,
      )
