-- ===== src/Repository/Admission.antt =====
-- `RepositoryReadPolicy`: the calls that a decision makes of the boundary and of the file system.
use code_assist_harness.Prelude.{
  ℕ, ◌+◌, Option, none, some, Bool, true, false, ◌&&◌, ◌||◌, not, List, [], ◌∷◌, ◌++◌, Text, codes,
  ltb, leb, ◌==◌, length, if◌then◌else◌,
}
use code_assist_harness.Workspace.{
  Result, ok, boundary_error, zip_error, invalid_workspace_path, workspace_path_not_found, label,
  join, normalize_workspace_relative_path,
}
use code_assist_harness.Workspace.Boundary.{path_eq}
use code_assist_harness.Repository.{
  invalid_repository_path, repository_path_not_found, repository_path_unavailable,
  repository_policy_invalid, RepositoryPathKind, file, directory, max_policy_source_bytes,
  max_policy_sources, max_policy_bytes, is_hard_denied_path, found, PolicyRules, Act, give, refuse,
  crash, ◌>>=◌, ◌>>◌, refuse_if,
}

-- `os.stat` of a target: what it is, with the size of a file and the identity of a directory.
pub data FileStatus : Type 0 where
  regular_file : ℕ → FileStatus
  directory_file : ℕ → ℕ → FileStatus
  special_file : FileStatus

-- `stat(follow_symlinks=False)` of a leaf.
pub data LeafStatus : Type 0 where
  leaf_missing leaf_unreadable leaf_symlink leaf_other : LeafStatus

-- The calls on the boundary and on the file system, told apart by how many there were before. A
-- canonical path is given by its components.
pub record RepositoryHost : Type 0 where
  pub resolve : ℕ → Text → Result (List Text)
  pub status : ℕ → List Text → Option FileStatus
  pub leaf : ℕ → List Text → Text → LeafStatus
  pub read : ℕ → List Text → Option (List ℕ)

pub record CapturedOwner : Type 0 where
  pub components : List Text
  pub canonical_path : List Text
  pub identity : ℕ × ℕ

abbrev pub same_identity : ℕ × ℕ → ℕ × ℕ → Bool
same_identity (a, b) (c, d) = a == c && b == d

-- `text.split("\n")`.
unfoldable pub split_lines : Text → List Text
split_lines [] = [] ∷ []
split_lines (c ∷ cs) = elim (split_lines cs) [
  | [] ↦ []
  | l ∷ ls ↦ if c == 10 then [] ∷ l ∷ ls else (c ∷ l) ∷ ls
]

abbrev pub gitignore : Text
gitignore = codes ".gitignore"

abbrev pub child_label : List Text → Text → Text
child_label owner basename = join (owner ++ basename ∷ [])

module _ {P : Type 0} where
  -- A call of the host.
  unfoldable pub call : {A : Type 0} → (ℕ → A) → Act P A
  call f s = (record s { calls = s.calls + 1 }, found (f s.calls))

  unfoldable pub lookup : List (List Text × PolicyRules P) → List Text → Option (PolicyRules P)
  lookup [] path = none
  lookup ((p, rules) ∷ rest) path = elim (path_eq p path) [
    | true ↦ some rules
    | false ↦ lookup rest path
  ]

  unfoldable pub cached : List Text → Act P (Option (PolicyRules P))
  cached path s = (s, found (lookup s.cache path))

  unfoldable pub require_policy_capacity : ℕ → Act P (Unit {0})
  require_policy_capacity candidate_bytes s =
      refuse_if
        (leb max_policy_sources (length s.cache)
          || ltb max_policy_bytes (s.loaded_bytes + candidate_bytes))
        repository_policy_invalid s

  -- A new entry of the cache, with the bytes it was made of.
  unfoldable pub remember : List Text → PolicyRules P → ℕ → Act P (Unit {0})
  remember path rules size s =
      (record s { cache = (path, rules) ∷ s.cache; loaded_bytes = s.loaded_bytes + size }, found tt)

  abbrev pub as_components : Result (List Text) → Act P (List Text)
  as_components (ok components) = give components
  as_components (boundary_error invalid_workspace_path) = refuse invalid_repository_path
  as_components (boundary_error _) = crash
  as_components zip_error = crash

  unfoldable pub normalize_components : Text → Act P (List Text)
  normalize_components value = as_components (normalize_workspace_relative_path value)

  abbrev pub as_requested : Result (List Text) → Act P (List Text)
  as_requested (ok canonical) = give canonical
  as_requested (boundary_error workspace_path_not_found) = refuse repository_path_not_found
  as_requested (boundary_error _) = refuse repository_path_unavailable
  as_requested zip_error = crash

  -- Where every failure of the boundary is one of the policy.
  abbrev pub as_policy_path : Result (List Text) → Act P (List Text)
  as_policy_path (ok canonical) = give canonical
  as_policy_path (boundary_error _) = refuse repository_policy_invalid
  as_policy_path zip_error = crash

  abbrev pub as_owner : List Text → List Text → Option FileStatus → Act P CapturedOwner
  as_owner components canonical (some (directory_file device inode)) =
      give
        (record { components = components; canonical_path = canonical; identity = (device, inode) })
  as_owner components canonical _ = refuse repository_path_unavailable

  abbrev pub as_same_owner : CapturedOwner → Option FileStatus → Act P (Unit {0})
  as_same_owner owner (some (directory_file device inode)) =
      refuse_if (not (same_identity (device, inode) owner.identity)) repository_policy_invalid
  as_same_owner owner _ = refuse repository_policy_invalid

  abbrev pub as_presence : LeafStatus → Act P Bool
  as_presence leaf_missing = give false
  as_presence leaf_unreadable = refuse repository_policy_invalid
  as_presence _ = give true

  abbrev pub as_source : List Text → Option FileStatus → Act P (List Text × ℕ)
  as_source source (some (regular_file size)) =
      refuse_if (ltb max_policy_source_bytes size) repository_policy_invalid >> give (source, size)
  as_source source _ = refuse repository_policy_invalid

  abbrev pub as_kind : Option FileStatus → Act P RepositoryPathKind
  as_kind (some (regular_file size)) = give file
  as_kind (some (directory_file device inode)) = give directory
  as_kind _ = refuse repository_path_unavailable

module _ {P : Type 0} (host : RepositoryHost) where
  unfoldable pub resolve_requested : Text → Act P (List Text)
  resolve_requested value = call (λ n. host.resolve n value) >>= as_requested

  unfoldable pub resolve_for_policy : Text → Act P (List Text)
  resolve_for_policy value = call (λ n. host.resolve n value) >>= as_policy_path

  unfoldable pub capture_owner : List Text → Act P CapturedOwner
  capture_owner components = do
    canonical ← resolve_requested (label components)
    refuse_if (is_hard_denied_path canonical) repository_path_unavailable
    observed ← call (λ n. host.status n canonical)
    as_owner components canonical observed

  unfoldable pub require_same_owner : CapturedOwner → Act P (Unit {0})
  require_same_owner owner = do
    current ← resolve_for_policy (label owner.components)
    refuse_if (not (path_eq current owner.canonical_path) || is_hard_denied_path current)
        repository_policy_invalid
    observed ← call (λ n. host.status n current)
    as_same_owner owner observed

  unfoldable pub policy_leaf_is_present : List Text → Act P Bool
  policy_leaf_is_present owner = call (λ n. host.leaf n owner gitignore) >>= as_presence

  -- The canonical path of a policy source, and its size.
  unfoldable pub resolve_policy_source : Text → Act P (List Text × ℕ)
  resolve_policy_source candidate = do
    source ← resolve_for_policy candidate
    refuse_if (is_hard_denied_path source) repository_policy_invalid
    observed ← call (λ n. host.status n source)
    as_source source observed

  unfoldable pub supported_kind : List Text → Act P RepositoryPathKind
  supported_kind canonical = call (λ n. host.status n canonical) >>= as_kind
