-- ===== src/Session/Replay.antt =====
-- `replay_session_updates`: what an accepted and a refused stream of updates mean.
use code_assist_harness.Prelude.{
  some, is_some, true, List, [], ◌∷◌, ◌++◌, ◌≡◌, refl, ap, ◌∙◌, subst, sym, ◌↔◌, inl, inr, arith,
}
use code_assist_harness.Session.{SessionState, SessionUpdate, SessionInvariantFailure}
use code_assist_harness.Session.Reducer.{
  accept, is_terminal, reduce_session_state, replay_session_updates,
}
use code_assist_harness.Session.Step.{Step, reduce-iff-Step, reduce-cases}
use code_assist_harness.Session.Invariant.{IsValid, reduce-IsValid}

-- A stream of updates each of which is a legal step.
pub data Steps : SessionState → List SessionUpdate → SessionState → Type 0 where
  stay : {s : SessionState} → Steps s [] s
  step :
      {s m t : SessionState} {u : SessionUpdate} {us : List SessionUpdate}
      → Step s m u
      → Steps m us t
      → Steps s (u ∷ us) t

pub replay-cons :
    (u : SessionUpdate) (us : List SessionUpdate) (s m : SessionState)
    → reduce_session_state s u ≡ accept m
    → replay_session_updates (u ∷ us) s ≡ replay_session_updates us m
unfolding replay_session_updates
replay-cons u us s m e = ground (arith, e)

pub replay-cons_rejected :
    (u : SessionUpdate) (us : List SessionUpdate) (s : SessionState) (f : SessionInvariantFailure)
    → reduce_session_state s u ≡ record { state = s; failure = some f }
    → replay_session_updates (u ∷ us) s ≡ record { state = s; failure = some f }
unfolding replay_session_updates
replay-cons_rejected u us s f e = ground (arith, e)

-- The first update of an accepted stream is accepted, and so is the rest after it.
pub replay-accept :
    (u : SessionUpdate) (us : List SessionUpdate) (s t : SessionState)
    → replay_session_updates (u ∷ us) s ≡ accept t
    → (m : SessionState) × (reduce_session_state s u ≡ accept m)
      × (replay_session_updates us m ≡ accept t)
replay-accept u us s t h = elim (reduce-cases s u) [
  | inl (m, e) ↦ (m, e, ground (arith, replay-cons u us s m e))
  | inr (f, e) ↦ absurd (ground (arith, replay-cons_rejected u us s f e))
]

Steps-replay :
    (us : List SessionUpdate) (s t : SessionState)
    → replay_session_updates us s ≡ accept t
    → Steps s us t
unfolding replay_session_updates
Steps-replay [] s t h = let e : s ≡ t = ground arith in subst (λ x. Steps s [] x) e stay
Steps-replay (u ∷ us) s t h =
    let (m, e, r) = replay-accept u us s t h in
    step ((reduce-iff-Step s m u).0 e) (Steps-replay us m t r)

replay-Steps :
    {s t : SessionState} {us : List SessionUpdate}
    → Steps s us t
    → replay_session_updates us s ≡ accept t
unfolding replay_session_updates
replay-Steps stay = refl
replay-Steps (step {s = s} {m = m} {u = u} {us = us} x r) =
    replay-cons u us s m ((reduce-iff-Step s m u).1 x) ∙ replay-Steps r

-- A stream of updates is accepted from s with the final state t exactly when every update in it is
-- a legal step, in order, and the last of them leads to t.
pub replay-iff-Steps :
    (us : List SessionUpdate) (s t : SessionState)
    → (replay_session_updates us s ≡ accept t) ↔ Steps s us t
replay-iff-Steps us s t = (Steps-replay us s t, λ h. replay-Steps h)

-- Replay in two parts is replay of the whole: after an accepted first part, the second part starts
-- from the state that the first left.
pub replay-append :
    (us vs : List SessionUpdate) (s t : SessionState)
    → replay_session_updates us s ≡ accept t
    → replay_session_updates (us ++ vs) s ≡ replay_session_updates vs t
unfolding replay_session_updates
replay-append [] vs s t h = let e : s ≡ t = ground arith in ap (λ x. replay_session_updates vs x) e
replay-append (u ∷ us) vs s t h =
    let (m, e, r) = replay-accept u us s t h in
    replay-cons u (us ++ vs) s m e ∙ replay-append us vs m t r

-- What a refused stream returns: an accepted prefix, and the state after it with the failure of
-- the update that follows it. Nothing of what comes later is read.
pub replay-rejected :
    (us : List SessionUpdate) (s : SessionState) (f : SessionInvariantFailure)
    → (replay_session_updates us s).failure ≡ some f
    → (prefix : List SessionUpdate) × (u : SessionUpdate) × (rest : List SessionUpdate)
      × (m : SessionState) × (us ≡ prefix ++ u ∷ rest)
      × (replay_session_updates prefix s ≡ accept m)
      × (reduce_session_state m u ≡ record { state = m; failure = some f })
      × (replay_session_updates us s ≡ record { state = m; failure = some f })
unfolding replay_session_updates
replay-rejected [] s f h = absurd (ground arith)
replay-rejected (u ∷ us) s f h = elim (reduce-cases s u) [
  | inl (m, e) ↦
      let (p, v, rest, n, split, before, at, whole) =
        replay-rejected us m f (ground (arith, replay-cons u us s m e)) in
      (
        u ∷ p,
        v,
        rest,
        n,
        ap (λ l. u ∷ l) split,
        replay-cons u p s m e ∙ before,
        at,
        replay-cons u us s m e ∙ whole,
      )
  | inr (g, e) ↦
      let same : f ≡ g = ground (arith, replay-cons_rejected u us s g e) in
      ([], u, us, s, refl, refl, rw same e, rw same (replay-cons_rejected u us s g e))
]

-- Replay keeps the invariant, whether it accepts the whole stream or stops in the middle.
pub replay-IsValid :
    (us : List SessionUpdate) (s : SessionState)
    → IsValid s
    → IsValid (replay_session_updates us s).state
unfolding replay_session_updates
replay-IsValid [] s v = v
replay-IsValid (u ∷ us) s v = elim (reduce-cases s u) [
  | inl (m, e) ↦ rw (replay-cons u us s m e) (replay-IsValid us m (rw e at (reduce-IsValid s u v)))
  | inr (f, e) ↦ rw (replay-cons_rejected u us s f e) v
]

reduce-absorbed :
    (s : SessionState) (u : SessionUpdate)
    → is_terminal s.status ≡ true
    → is_some (reduce_session_state s u).failure ≡ true
unfolding reduce_session_state
reduce-absorbed s u h = ground arith

ends_replay :
    (vs : List SessionUpdate) (m t : SessionState)
    → is_terminal m.status ≡ true
    → replay_session_updates vs m ≡ accept t
    → (vs ≡ []) × (t ≡ m)
unfolding replay_session_updates
ends_replay [] m t e w = (refl, ground arith)
ends_replay (v ∷ vs) m t e w =
    let (n, a, r) = replay-accept v vs m t w in absurd (ground (arith, reduce-absorbed m v e, a))

-- After a terminal state nothing more is accepted: a stream that replays to the end, with a
-- terminal state before its last part, has nothing in that last part.
pub terminal_ends_replay :
    (us vs : List SessionUpdate) (s m t : SessionState)
    → replay_session_updates us s ≡ accept m
    → is_terminal m.status ≡ true
    → replay_session_updates (us ++ vs) s ≡ accept t
    → (vs ≡ []) × (t ≡ m)
terminal_ends_replay us vs s m t h e w = ends_replay vs m t e (sym (replay-append us vs s m h) ∙ w)
