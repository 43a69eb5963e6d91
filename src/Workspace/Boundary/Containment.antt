-- ===== src/Workspace/Boundary/Containment.antt =====
-- Resolved paths are below the root, and what makes the resolution fail.
use code_assist_harness.Prelude.{
  ℕ, ◌+◌, some, true, List, [], ◌∷◌, ◌++◌, Text, ◌≡◌, inl, inr, refl, ◌∙◌, sym, subst, arith,
  text_eq_iff, Bool-cases, Option-cases,
}
use code_assist_harness.Workspace.{
  Result, ok, boundary_error, zip_error, label, normalize_workspace_relative_path,
}
use code_assist_harness.Workspace.Labels.{normalize_outcomes, IsPath, normalize-IsPath}
use code_assist_harness.Workspace.Boundary.{
  FileSystem, WorkspaceBoundary, ResolvedWorkspacePath, relative_to, is_relative_to,
  is_current_root, resolution_failure, resolve_target, snapshot_of, settle, resolve_existing,
}

relative_to-append : (ps qs rest : List Text) → relative_to ps qs ≡ some rest → ps ≡ qs ++ rest
unfolding relative_to
relative_to-append ps [] rest h = ground (arith, h)
relative_to-append [] (q ∷ qs) rest h = absurd (ground (arith, h))
relative_to-append (p ∷ ps) (q ∷ qs) rest h =
    ground (arith, h, text_eq_iff p q, relative_to-append ps qs rest)

-- A walk from a directory: every step is a strict resolution that stays below the root.
module _ (fs : FileSystem) (b : WorkspaceBoundary) where
  pub data Walk : ℕ → List Text → List Text → List Text → ℕ → Type 0 where
    stop : {n : ℕ} {target : List Text} → Walk n target [] target n
    step :
        {n m : ℕ} {target candidate end rest : List Text} {component : Text} (rel : List Text)
        → fs.resolve_strict n (target ++ component ∷ []) ≡ some candidate
        → candidate ≡ b.root ++ rel
        → Walk (n + 1) candidate rest end m
        → Walk n target (component ∷ rest) end m

below_root :
    (path root : List Text)
    → is_relative_to path root ≡ true
    → (rel : List Text) × (path ≡ root ++ rel)
below_root path root h = elim (Option-cases (relative_to path root)) [
  | inl e ↦ absurd (ground (arith, e, h))
  | inr (rel, e) ↦ (rel, relative_to-append path root rel e)
]

pub resolve_inside :
    (fs : FileSystem) (b : WorkspaceBoundary) (n : ℕ) (target : List Text) (c : Text)
    (comps candidate : List Text)
    → fs.resolve_strict n (target ++ c ∷ []) ≡ some candidate
    → is_relative_to candidate b.root ≡ true
    → resolve_target fs b n target (c ∷ comps) ≡ resolve_target fs b (n + 1) candidate comps
unfolding resolve_target
resolve_inside fs b n target c comps candidate e f = ground (arith, e, f)

-- How a resolution goes on when the whole of it succeeds.
resolve_target-cons :
    (fs : FileSystem) (b : WorkspaceBoundary) (n m : ℕ) (target : List Text) (c : Text)
    (comps end : List Text)
    → resolve_target fs b n target (c ∷ comps) ≡ (ok end, m)
    → (candidate : List Text) × (fs.resolve_strict n (target ++ c ∷ []) ≡ some candidate)
      × (is_relative_to candidate b.root ≡ true)
      × (resolve_target fs b (n + 1) candidate comps ≡ (ok end, m))
resolve_target-cons fs b n m target c comps end h =
    elim (Option-cases (fs.resolve_strict n (target ++ c ∷ []))) [
      | inl e ↦ absurd (unfold resolve_target resolution_failure in ground (arith, e, h))
      | inr (candidate, e) ↦ elim (Bool-cases (is_relative_to candidate b.root)) [
        | inl f ↦ (candidate, e, f, sym (resolve_inside fs b n target c comps candidate e f) ∙ h)
        | inr f ↦ absurd (unfold resolve_target in ground (arith, e, f, h))
      ]
    ]

resolve_target-Walk :
    (fs : FileSystem) (b : WorkspaceBoundary) (n m : ℕ) (target comps end : List Text)
    → resolve_target fs b n target comps ≡ (ok end, m)
    → Walk fs b n target comps end m
unfolding resolve_target
resolve_target-Walk fs b n m target [] end h =
    subst (λ e. Walk fs b n target [] e m) {x = target} {y = end} (ground (arith, h))
      (subst (λ k. Walk fs b n target [] target k) {x = n} {y = m} (ground (arith, h)) stop)
resolve_target-Walk fs b n m target (c ∷ comps) end h =
    let (candidate, e, f, r) = resolve_target-cons fs b n m target c comps end h in
    let (rel, g) = below_root candidate b.root f in
    step rel e g (resolve_target-Walk fs b (n + 1) m candidate comps end r)

-- What is known of a resolved path: the value names the components, the root was current before and
-- after they were walked, the target is below the root, and its label is that of a path.
pub data Contained (fs : FileSystem) (b : WorkspaceBoundary) (n : ℕ) (value : Text)
    (r : ResolvedWorkspacePath) : Type 0 where
  contained :
      (comps rel : List Text) (m : ℕ)
      → normalize_workspace_relative_path value ≡ ok comps
      → is_current_root fs b n ≡ true
      → Walk fs b (n + 2) b.root comps r.absolute_path m
      → is_current_root fs b m ≡ true
      → r.absolute_path ≡ b.root ++ rel
      → label r.relative_path ≡ label rel
      → IsPath r.relative_path
      → Contained fs b n value r

snapshot_fields :
    (fs : FileSystem) (b : WorkspaceBoundary) (target parts canonical : List Text)
    (r : ResolvedWorkspacePath)
    → relative_to target b.root ≡ some parts
    → normalize_workspace_relative_path (label parts) ≡ ok canonical
    → snapshot_of fs b target ≡ ok r
    → (r.absolute_path ≡ target) × (r.relative_path ≡ canonical) × (label canonical ≡ label parts)
unfolding snapshot_of
snapshot_fields fs b target parts canonical r e f h =
    ground (arith, e, f, h, text_eq_iff (label canonical) (label parts))

snapshot_of-ok :
    (fs : FileSystem) (b : WorkspaceBoundary) (target : List Text) (r : ResolvedWorkspacePath)
    → snapshot_of fs b target ≡ ok r
    → (rel : List Text) × (r.absolute_path ≡ target)
      × (target ≡ b.root ++ rel)
      × (label r.relative_path ≡ label rel)
      × IsPath r.relative_path
snapshot_of-ok fs b target r h = elim (Option-cases (relative_to target b.root)) [
  | inl e ↦ absurd (unfold snapshot_of in ground (arith, e, h))
  | inr (parts, e) ↦ elim (normalize_outcomes (label parts)) [
    | inl f ↦ absurd (unfold snapshot_of in ground (arith, e, f, h))
    | inr (canonical, f) ↦
        let (j, k, l) = snapshot_fields fs b target parts canonical r e f h in
        (
          parts,
          j,
          relative_to-append target b.root parts e,
          rw k l,
          rw k (normalize-IsPath (label parts) canonical f),
        )
  ]
]

-- What a resolution that succeeds went through.
resolve_existing-steps :
    (fs : FileSystem) (b : WorkspaceBoundary) (n : ℕ) (value : Text) (comps : List Text)
    (r : ResolvedWorkspacePath)
    → normalize_workspace_relative_path value ≡ ok comps
    → resolve_existing fs b n value ≡ ok r
    → (is_current_root fs b n ≡ true)
      × (settle fs b (resolve_target fs b (n + 2) b.root comps) ≡ ok r)
unfolding resolve_existing
resolve_existing-steps fs b n value comps r e h = ground (arith, e, h)

settle-ok :
    (fs : FileSystem) (b : WorkspaceBoundary) (outcome : Result (List Text) × ℕ)
    (r : ResolvedWorkspacePath)
    → settle fs b outcome ≡ ok r
    → (target : List Text) × (m : ℕ) × (outcome ≡ (ok target, m))
      × (is_current_root fs b m ≡ true)
      × (snapshot_of fs b target ≡ ok r)
unfolding settle
settle-ok fs b (ok target, m) r h = (target, m, refl, ground (arith, h), ground (arith, h))
settle-ok fs b (boundary_error e, m) r h = absurd (ground (arith, h))
settle-ok fs b (zip_error, m) r h = absurd (ground (arith, h))

-- When `resolve_existing` gives a path, the value normalizes to components, the root was current
-- before and after they were resolved one by one, each to a place below the root, the absolute path
-- is the last of these places and below the root, and the relative path is a normalized path with
-- the same label as the rest of the absolute path.
pub resolve_existing-Contained :
    (fs : FileSystem) (b : WorkspaceBoundary) (n : ℕ) (value : Text) (r : ResolvedWorkspacePath)
    → resolve_existing fs b n value ≡ ok r
    → Contained fs b n value r
resolve_existing-Contained fs b n value r h = elim (normalize_outcomes value) [
  | inl e ↦ absurd (unfold resolve_existing in ground (arith, e, h))
  | inr (comps, e) ↦
      let (now, s) = resolve_existing-steps fs b n value comps r e h in
      let (target, m, o, later, t) =
        settle-ok fs b (resolve_target fs b (n + 2) b.root comps) r s in
      let (rel, j, k, l, p) = snapshot_of-ok fs b target r t in
      contained comps rel m e now (rw j (resolve_target-Walk fs b (n + 2) m b.root comps target o))
        later (j ∙ k) l p
]
