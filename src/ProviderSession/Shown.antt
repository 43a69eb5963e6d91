-- ===== src/ProviderSession/Shown.antt =====
-- The text of the lifecycle state is the text that the session has taken from its provider.
use code_assist_harness.Prelude.{
  ℕ, ◌+◌, String, Option, none, some, Bool, true, List, [], ◌∷◌, ◌++◌, Text, ◌≡◌, ◌∙◌, ◌⊎◌, inl,
  inr, arith, Option-cases, Bool-cases, sym, ap, length, subst, ltb, append-nil, append_assoc,
}
use code_assist_harness.Protocol.{Envelope, SessionEvent, assistant_delta}
use code_assist_harness.Protocol.Writer.{max_safe_sequence}
use code_assist_harness.Session.{SessionUpdate, SessionState, event}
use code_assist_harness.Session.Reducer.{reduce_session_state}
use code_assist_harness.Session.Invariant.{IsValid, reduce-IsValid}
use code_assist_harness.Session.Tape.{delta, text-delta}
use code_assist_harness.ProviderSession.{ProviderSession, SelectedOutcome, join_texts}
use code_assist_harness.ProviderSession.Decisions.{
  call_observer, notify_loop_limits, notify_lifecycle, Effect, done, raised, after, and_then,
  select, latch_provider_deadline, accept_lifecycle, deadline_due, select_candidate,
  select_deadline_if_due, publish, accept_tool_call, publish_delta,
}
use code_assist_harness.ProviderSession.Operations.{start_provider_operation}

-- An observer that returns whenever it is called, or none.
abbrev pub Returns : Option (ℕ → Bool) → Type 0
Returns none = Unit {0}
Returns (some returns) = (n : ℕ) → returns n ≡ true

-- The observer returns; the lifecycle state is valid, and shows the taken text.
pub record IsShown (s : ProviderSession) : Type 0 where
  pub heard : Returns s.lifecycle_observer
  pub valid : IsValid s.lifecycle_state
  pub shown : s.lifecycle_state.assistant_text ≡ join_texts s.accepted_text

-- The observer, the lifecycle and the taken text are the same in both sessions.
pub record Same (s t : ProviderSession) : Type 0 where
  pub same_observer : t.lifecycle_observer ≡ s.lifecycle_observer
  pub same_lifecycle : t.lifecycle_state ≡ s.lifecycle_state
  pub same_text : t.accepted_text ≡ s.accepted_text

pub Same-IsShown : (s t : ProviderSession) → Same s t → IsShown s → IsShown t
Same-IsShown s t a i = record {
  heard = subst Returns (sym a.same_observer) i.heard;
  valid = subst IsValid (sym a.same_lifecycle) i.valid;
  shown = ap (λ l. l.assistant_text) a.same_lifecycle ∙ i.shown ∙ sym (ap join_texts a.same_text);
}

join_texts-append : (ts : List Text) (t : Text) → join_texts (ts ++ t ∷ []) ≡ join_texts ts ++ t
unfolding join_texts
join_texts-append [] t = append-nil t
join_texts-append (u ∷ ts) t =
    ap (λ r. u ++ r) (join_texts-append ts t) ∙ sym (append_assoc u (join_texts ts) t)

-- An accepted update leaves a valid state, and adds its text.
accepted_update :
    (l : SessionState) (u : SessionUpdate)
    → IsValid l
    → (reduce_session_state l u).failure ≡ none
    → IsValid (reduce_session_state l u).state
      × ((reduce_session_state l u).state.assistant_text ≡ l.assistant_text ++ delta u)
accepted_update l u v e =
    (reduce-IsValid l u v, text-delta l (reduce_session_state l u).state v u (ground (arith, e)))

-- What an update makes of the session: nothing, or the next lifecycle state.
accept_lifecycle-cases :
    (u : SessionUpdate) (s : ProviderSession)
    → Returns s.lifecycle_observer
    → (accept_lifecycle u s ≡ raised s)
      ⊎ ((n : ℕ) × ((reduce_session_state s.lifecycle_state u).failure ≡ none)
          × (accept_lifecycle u s
              ≡ done (record s {
                lifecycle_state = (reduce_session_state s.lifecycle_state u).state;
                calls = n;
              })))
unfolding accept_lifecycle notify_lifecycle call_observer
accept_lifecycle-cases u s q =
    elim (Option-cases (reduce_session_state s.lifecycle_state u).failure) [
      | inr (f, e) ↦ inl (ground (arith, e))
      | inl e ↦ elim (Option-cases s.lifecycle_observer) [
        | inl o ↦ inr (s.calls, e, ground (arith, e, o))
        | inr (f, o) ↦ inr (s.calls + 1, e, ground (arith, e, o, subst Returns o q s.calls))
      ]
    ]

pub accept_lifecycle-IsShown :
    (u : SessionUpdate) (s : ProviderSession)
    → delta u ≡ []
    → IsShown s
    → IsShown (after (accept_lifecycle u s))
accept_lifecycle-IsShown u s d i = elim (accept_lifecycle-cases u s i.heard) [
  | inl e ↦ rw e i
  | inr (n, e, f) ↦
      let (v, t) = accepted_update s.lifecycle_state u i.valid e in
      rw f (record {
        heard = i.heard;
        valid = v;
        shown =
            t
            ∙ ap (λ r. s.lifecycle_state.assistant_text ++ r) d
            ∙ append-nil s.lifecycle_state.assistant_text
            ∙ i.shown;
      })
]

pub notify_loop_limits-Same : (s : ProviderSession) → Same s (after (notify_loop_limits s))
unfolding notify_loop_limits call_observer
notify_loop_limits-Same s = ground arith

pub observer-Same :
    (f : Option (ℕ → Bool)) (s : ProviderSession) → Same s (after (call_observer f s))
unfolding call_observer
observer-Same f s = ground arith

pub latch-Same : (s : ProviderSession) → Same s (latch_provider_deadline s)
unfolding latch_provider_deadline
latch-Same s = ground arith

module _ (is_due writes : ℕ → Bool) (timestamp : ℕ → String) where
  pub deadline_due-Same : (s : ProviderSession) → Same s (deadline_due is_due writes timestamp s).0
  unfolding deadline_due
  deadline_due-Same s = ground arith

  pub select_candidate-Same :
      (o : SelectedOutcome) (s : ProviderSession)
      → Same s (select_candidate is_due writes timestamp o s)
  unfolding select_candidate deadline_due select latch_provider_deadline
  select_candidate-Same o s = ground arith

  pub select_deadline_if_due-Same :
      (s : ProviderSession) → Same s (select_deadline_if_due is_due writes timestamp s).0
  unfolding select_deadline_if_due deadline_due select latch_provider_deadline
  select_deadline_if_due-Same s = ground arith

  pub accept_tool_call-Same :
      (s : ProviderSession) → Same s (accept_tool_call is_due writes timestamp s)
  unfolding accept_tool_call deadline_due select latch_provider_deadline
  accept_tool_call-Same s = ground arith

  pub start_provider_operation-Same :
      (returns : Bool) (s : ProviderSession)
      → Same s (start_provider_operation is_due writes timestamp returns s)
  unfolding start_provider_operation deadline_due select latch_provider_deadline
  start_provider_operation-Same returns s = ground arith

  -- A publication: it fails before the lifecycle sees the event, or the event is accepted or refused.
  publish-cases :
      (c : Option String) (f : Envelope → SessionEvent) (s : ProviderSession)
      → ((t : ProviderSession) × Same s t × (publish is_due writes timestamp c f s ≡ raised t))
        ⊎ ((t : ProviderSession) × (e : Envelope) × Same s t
            × (publish is_due writes timestamp c f s ≡ accept_lifecycle (event (f e)) t))
  unfolding publish
  publish-cases c f s =
      let e : Envelope = record {
        session_id = s.session_id;
        sequence = length s.published + 1;
        timestamp = timestamp s.calls;
        correlation_id = c;
      } in
      elim (Bool-cases (ltb max_safe_sequence (length s.published + 1))) [
        | inl b ↦ inl (s, ground arith, ground (arith, b))
        | inr b ↦ elim (Bool-cases (writes s.calls)) [
          | inl w ↦ inr (
            record s { calls = s.calls + 1; published = s.published ++ f e ∷ [] },
            e,
            ground arith,
            ground (arith, b, w),
          )
          | inr w ↦ inl (record s { calls = s.calls + 1 }, ground arith, ground (arith, b, w))
        ]
      ]

  pub publish-IsShown :
      (c : Option String) (f : Envelope → SessionEvent) (s : ProviderSession)
      → ((e : Envelope) → delta (event (f e)) ≡ [])
      → IsShown s
      → IsShown (after (publish is_due writes timestamp c f s))
  publish-IsShown c f s d i = elim (publish-cases c f s) [
    | inl (t, a, h) ↦ rw h (Same-IsShown s t a i)
    | inr (t, e, a, h) ↦
        rw h (accept_lifecycle-IsShown (event (f e)) t (d e) (Same-IsShown s t a i))
  ]

  pub and_then-IsShown :
      (e : Effect) (k : ProviderSession → Effect)
      → IsShown (after e)
      → ((t : ProviderSession) → IsShown t → IsShown (after (k t)))
      → IsShown (after (and_then e k))
  and_then-IsShown (done t) k i h = h t i
  and_then-IsShown (raised t) k i h = i

  -- A published delta is added to the taken text as well.
  pub publish_delta-IsShown :
      (text : Text) (n : ℕ) (s : ProviderSession)
      → IsShown s
      → IsShown (after (publish_delta is_due writes timestamp text n s))
  unfolding publish_delta
  publish_delta-IsShown text n s i =
      elim (publish-cases (some s.command_id) (λ e. assistant_delta e text) s) [
        | inl (t, a, h) ↦ rw h (Same-IsShown s t a i)
        | inr (t, e, a, h) ↦
            let j = Same-IsShown s t a i in
            let u = event (assistant_delta e text) in
            elim (accept_lifecycle-cases u t j.heard) [
              | inl r ↦ rw (h, r) j
              | inr (m, g, r) ↦
                  let (v, w) = accepted_update t.lifecycle_state u j.valid g in
                  let next = record t {
                    lifecycle_state = (reduce_session_state t.lifecycle_state u).state;
                    calls = m;
                    accepted_text = t.accepted_text ++ text ∷ [];
                    accepted_text_bytes = t.accepted_text_bytes + n;
                  } in
                  rw (h, r)
                    (Same-IsShown next (select_deadline_if_due is_due writes timestamp next).0
                      (select_deadline_if_due-Same next)
                      (record {
                        heard = j.heard;
                        valid = v;
                        shown =
                            w
                            ∙ ap (λ x. x ++ text) j.shown
                            ∙ sym (join_texts-append t.accepted_text text);
                      }))
            ]
      ]
