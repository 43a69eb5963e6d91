-- ===== src/Workspace/Boundary/Escape.antt =====
-- Paths that leave the root on the way, and roots that are replaced during a resolution.
use code_assist_harness.Prelude.{
  ℕ, ◌+◌, none, some, true, false, List, [], ◌∷◌, ◌++◌, Text, ◌≡◌, ◌≢◌, ◌⊎◌, ◌↔◌, inl, inr, refl,
  ap, ◌∙◌, sym, arith, text_eq_refl, Bool-cases, Option-cases,
}
use code_assist_harness.Workspace.{
  Result, ok, boundary_error, zip_error, label, normalize_workspace_relative_path,
  stale_workspace_root, workspace_path_outside,
}
use code_assist_harness.Workspace.Labels.{normalize_outcomes}
use code_assist_harness.Workspace.Boundary.{
  FileSystem, WorkspaceBoundary, relative_to, is_relative_to, is_current_root, resolution_failure,
  resolve_target, snapshot_of, settle, resolve_existing,
}
use code_assist_harness.Workspace.Boundary.Containment.{Walk, stop, step, resolve_inside}

relative_to-own : (root rel : List Text) → relative_to (root ++ rel) root ≡ some rel
unfolding relative_to
relative_to-own [] rel = refl
relative_to-own (q ∷ root) rel = ground (arith, text_eq_refl q, relative_to-own root rel)

inside : (path root rel : List Text) → path ≡ root ++ rel → is_relative_to path root ≡ true
inside path root rel e = rw (e, is_relative_to, relative_to-own root rel) refl

-- A resolution that has walked on to a directory goes on from there.
resolve_target-along :
    (fs : FileSystem) (b : WorkspaceBoundary) (n m : ℕ) (target pre end rest : List Text)
    → Walk fs b n target pre end m
    → resolve_target fs b n target (pre ++ rest) ≡ resolve_target fs b m end rest
resolve_target-along fs b n m target [] end rest stop = refl
resolve_target-along fs b n m target (c ∷ pre) end rest (step {candidate} rel e f w) =
    resolve_inside fs b n target c (pre ++ rest) candidate e (inside candidate b.root rel f)
    ∙ resolve_target-along fs b (n + 1) m candidate pre end rest w

resolve_outside :
    (fs : FileSystem) (b : WorkspaceBoundary) (n : ℕ) (target : List Text) (c : Text)
    (rest out : List Text)
    → fs.resolve_strict n (target ++ c ∷ []) ≡ some out
    → is_relative_to out b.root ≡ false
    → resolve_target fs b n target (c ∷ rest) ≡ (boundary_error workspace_path_outside, n + 1)
unfolding resolve_target
resolve_outside fs b n target c rest out e f = ground (arith, e, f)

-- The outcome of a resolution, once the value is normalized.
resolve_existing-settle :
    (fs : FileSystem) (b : WorkspaceBoundary) (n : ℕ) (value : Text) (comps : List Text)
    → normalize_workspace_relative_path value ≡ ok comps
    → is_current_root fs b n ≡ true
    → resolve_existing fs b n value ≡ settle fs b (resolve_target fs b (n + 2) b.root comps)
unfolding resolve_existing
resolve_existing-settle fs b n value comps e h = ground (arith, e, h)

settle-error :
    (fs : FileSystem) (b : WorkspaceBoundary) (m : ℕ)
    → is_current_root fs b m ≡ true
    → settle fs b (boundary_error workspace_path_outside, m) ≡ boundary_error workspace_path_outside
unfolding settle
settle-error fs b m h = ground (arith, h)

-- When the components up to some point stay below the root and the next one resolves to a place that
-- is not below it, the path is outside, whatever components follow and wherever they would lead; the
-- root has to be current before the resolution and after that component.
pub escape_is_outside :
    (fs : FileSystem) (b : WorkspaceBoundary) (n m : ℕ) (value : Text)
    (pre rest inner out : List Text) (c : Text)
    → normalize_workspace_relative_path value ≡ ok (pre ++ c ∷ rest)
    → is_current_root fs b n ≡ true
    → Walk fs b (n + 2) b.root pre inner m
    → fs.resolve_strict m (inner ++ c ∷ []) ≡ some out
    → is_relative_to out b.root ≡ false
    → is_current_root fs b (m + 1) ≡ true
    → resolve_existing fs b n value ≡ boundary_error workspace_path_outside
escape_is_outside fs b n m value pre rest inner out c e h w r o l =
    resolve_existing-settle fs b n value (pre ++ c ∷ rest) e h
    ∙ ap (settle fs b) (
        resolve_target-along fs b (n + 2) m b.root pre inner (c ∷ rest) w
        ∙ resolve_outside fs b m inner c rest out r o)
    ∙ settle-error fs b (m + 1) l

resolve_missing :
    (fs : FileSystem) (b : WorkspaceBoundary) (n : ℕ) (target : List Text) (c : Text)
    (rest : List Text)
    → fs.resolve_strict n (target ++ c ∷ []) ≡ none
    → resolve_target fs b n target (c ∷ rest)
      ≡ (resolution_failure fs b (n + 1) (target ++ c ∷ []), n + 2)
unfolding resolve_target
resolve_missing fs b n target c rest e = ground (arith, e)

failure_not_stale :
    (fs : FileSystem) (b : WorkspaceBoundary) (n : ℕ) (path : List Text)
    → resolution_failure fs b n path ≢ boundary_error stale_workspace_root
unfolding resolution_failure
failure_not_stale fs b n path = ground arith

target_not_stale :
    (fs : FileSystem) (b : WorkspaceBoundary) (n : ℕ) (target comps : List Text)
    → (resolve_target fs b n target comps).0 ≢ boundary_error stale_workspace_root
target_not_stale fs b n target [] = unfold resolve_target in ground arith
target_not_stale fs b n target (c ∷ comps) =
    elim (Option-cases (fs.resolve_strict n (target ++ c ∷ []))) [
      | inl e ↦
          rw (resolve_missing fs b n target c comps e)
            (failure_not_stale fs b (n + 1) (target ++ c ∷ []))
      | inr (candidate, e) ↦ elim (Bool-cases (is_relative_to candidate b.root)) [
        | inl f ↦
            rw (resolve_inside fs b n target c comps candidate e f)
              (target_not_stale fs b (n + 1) candidate comps)
        | inr f ↦ rw (resolve_outside fs b n target c comps candidate e f) (ground arith)
      ]
    ]

snapshot_not_stale :
    (fs : FileSystem) (b : WorkspaceBoundary) (target : List Text)
    → snapshot_of fs b target ≢ boundary_error stale_workspace_root
snapshot_not_stale fs b target = elim (Option-cases (relative_to target b.root)) [
  | inl e ↦ unfold snapshot_of in ground (arith, e)
  | inr (parts, e) ↦ unfold snapshot_of in ground (arith, e, normalize_outcomes (label parts))
]

-- An outcome is settled as stale exactly when the root is not current any more.
settle-stale :
    (fs : FileSystem) (b : WorkspaceBoundary) (outcome : Result (List Text) × ℕ)
    → outcome.0 ≢ boundary_error stale_workspace_root
    → (settle fs b outcome ≡ boundary_error stale_workspace_root)
      ↔ (is_current_root fs b outcome.1 ≡ false)
unfolding settle
settle-stale fs b (ok target, m) n = ground (arith, snapshot_not_stale fs b target)
settle-stale fs b (boundary_error e, m) n = ground (arith, n)
settle-stale fs b (zip_error, m) n = ground arith

-- The root is reported as stale exactly when the value normalizes and the root is not current either
-- before the components are resolved or after that, whether they were resolved or not.
pub stale_root_iff :
    (fs : FileSystem) (b : WorkspaceBoundary) (n : ℕ) (value : Text)
    → (resolve_existing fs b n value ≡ boundary_error stale_workspace_root)
      ↔ (comps : List Text) × (normalize_workspace_relative_path value ≡ ok comps)
        × ((is_current_root fs b n ≡ false)
            ⊎ (is_current_root fs b (resolve_target fs b (n + 2) b.root comps).1 ≡ false))
stale_root_iff fs b n value = elim (normalize_outcomes value) [
  | inl e ↦ (
    λ h. absurd (unfold resolve_existing in ground (arith, e, h)),
    λ (comps, f, g). absurd (ground (arith, e, f)),
  )
  | inr (comps, e) ↦ elim (Bool-cases (is_current_root fs b n)) [
    | inl c ↦
        let j = resolve_existing-settle fs b n value comps e c in
        let (k, l) =
          settle-stale fs b (resolve_target fs b (n + 2) b.root comps)
            (target_not_stale fs b (n + 2) b.root comps) in
        (λ h. (comps, e, inr (k (sym j ∙ h))), λ (other, f, g). j ∙ l (ground (arith, c, e, f, g)))
    | inr c ↦
        (λ h. (comps, e, inl c), λ (other, f, g). unfold resolve_existing in ground (arith, e, c))
  ]
]
