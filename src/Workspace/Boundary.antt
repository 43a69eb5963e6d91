-- ===== src/Workspace/Boundary.antt =====
-- workspace.py: the boundary that is captured for a workspace root, and the resolution of existing
-- paths below it. The file system is a parameter. A path is the list of its parts; the path "/" has
-- none.
pub mod Containment
pub mod Escape
mod Examples
use code_assist_harness.Prelude.{
  ℕ, suc, ◌+◌, Option, none, some, Bool, true, false, ◌||◌, not, List, [], ◌∷◌, ◌++◌, Text, ◌==◌,
  text_eq, if◌then◌else◌,
}
use code_assist_harness.Workspace.{
  Result, ok, boundary_error, zip_error, label, normalize_workspace_relative_path,
  invalid_workspace_root, stale_workspace_root, invalid_workspace_path, workspace_path_not_found,
  workspace_path_outside,
}

-- What `Path.stat` says of a file.
pub record FileStatus : Type 0 where
  is_directory : Bool
  device : ℕ
  inode : ℕ

-- `Path.resolve(strict=True)`, `Path.resolve(strict=False)` and `Path.stat`. Anything may change the
-- file system between two calls, so that each answer depends on the number of calls before it;
-- `none` is an OSError, RuntimeError or ValueError.
pub record FileSystem : Type 0 where
  resolve_strict : ℕ → List Text → Option (List Text)
  resolve_lenient : ℕ → List Text → Option (List Text)
  status : ℕ → List Text → Option FileStatus

pub record WorkspaceBoundary : Type 0 where
  root : List Text
  root_device : ℕ
  root_inode : ℕ

-- A target, with the parts of its canonical label.
pub record ResolvedWorkspacePath : Type 0 where
  absolute_path : List Text
  relative_path : List Text

unfoldable pub path_eq : List Text → List Text → Bool
path_eq [] [] = true
path_eq (p ∷ ps) (q ∷ qs) = elim (text_eq p q) [ true ↦ path_eq ps qs | false ↦ false ]
path_eq _ _ = false

-- `path.relative_to(root)`; `none` is the ValueError of a path that is not below the root.
unfoldable pub relative_to : List Text → List Text → Option (List Text)
relative_to ps [] = some ps
relative_to (p ∷ ps) (q ∷ qs) = elim (text_eq p q) [ true ↦ relative_to ps qs | false ↦ none ]
relative_to [] (q ∷ qs) = none

abbrev pub is_relative_to : List Text → List Text → Bool
is_relative_to path root = elim (relative_to path root) [ none ↦ false | some rest ↦ true ]

-- `WorkspaceBoundary.from_path`, with the expanded value.
unfoldable pub from_path : FileSystem → List Text → Result WorkspaceBoundary
from_path fs value = elim (fs.resolve_strict 0 value) [
  | none ↦ boundary_error invalid_workspace_root
  | some root ↦ elim (fs.status 1 root) [
    | none ↦ boundary_error invalid_workspace_root
    | some s ↦
        if not s.is_directory
        then boundary_error invalid_workspace_root
        else ok record { root = root; root_device = s.device; root_inode = s.inode }
  ]
]

module _ (fs : FileSystem) (b : WorkspaceBoundary) where
  -- `_assert_current_root`, which makes the calls `n` and `n + 1`.
  unfoldable pub is_current_root : ℕ → Bool
  is_current_root n = elim (fs.resolve_strict n b.root) [
    | none ↦ false
    | some observed ↦ elim (fs.status (n + 1) observed) [
      | none ↦ false
      | some s ↦
          if not (path_eq observed b.root)
            || not s.is_directory
            || not (s.device == b.root_device)
            || not (s.inode == b.root_inode)
          then false
          else true
    ]
  ]

  -- `_raise_resolution_failure`.
  unfoldable pub resolution_failure : ℕ → List Text → Result (List Text)
  resolution_failure n candidate = elim (fs.resolve_lenient n candidate) [
    | none ↦ boundary_error workspace_path_not_found
    | some unresolved ↦
        if not (is_relative_to unresolved b.root)
        then boundary_error workspace_path_outside
        else boundary_error workspace_path_not_found
  ]

  -- `_resolve_target`, from the call `n` on; the result comes with the number of the next call.
  unfoldable pub resolve_target : ℕ → List Text → List Text → Result (List Text) × ℕ
  resolve_target n target [] = (ok target, n)
  resolve_target n target (component ∷ rest) =
      elim (fs.resolve_strict n (target ++ component ∷ [])) [
        | none ↦ (resolution_failure (n + 1) (target ++ component ∷ []), n + 2)
        | some candidate ↦ elim (is_relative_to candidate b.root) [
          | false ↦ (boundary_error workspace_path_outside, n + 1)
          | true ↦ resolve_target (n + 1) candidate rest
        ]
      ]

  -- The end of `resolve_existing`: the label of a target, normalized again.
  unfoldable pub snapshot_of : List Text → Result ResolvedWorkspacePath
  snapshot_of target = elim (relative_to target b.root) [
    | none ↦ boundary_error workspace_path_outside
    | some parts ↦ elim (normalize_workspace_relative_path (label parts)) [
      | zip_error ↦ zip_error
      | boundary_error e ↦ boundary_error e
      | ok canonical ↦
          if not (text_eq (label canonical) (label parts))
          then boundary_error invalid_workspace_path
          else ok record { absolute_path = target; relative_path = canonical }
    ]
  ]

  -- What `resolve_existing` does with the outcome of `_resolve_target`.
  unfoldable pub settle : Result (List Text) × ℕ → Result ResolvedWorkspacePath
  settle (outcome, n) =
      if not (is_current_root n) then boundary_error stale_workspace_root else elim outcome [
        | zip_error ↦ zip_error
        | boundary_error e ↦ boundary_error e
        | ok target ↦ snapshot_of target
      ]

  -- `resolve_existing`, of an exact string, with the number of the first call.
  unfoldable pub resolve_existing : ℕ → Text → Result ResolvedWorkspacePath
  resolve_existing n value = elim (normalize_workspace_relative_path value) [
    | zip_error ↦ zip_error
    | boundary_error e ↦ boundary_error e
    | ok components ↦
        if not (is_current_root n)
        then boundary_error stale_workspace_root
        else settle (resolve_target (n + 2) b.root components)
  ]
