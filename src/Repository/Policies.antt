-- ===== src/Repository/Policies.antt =====
-- `RepositoryReadPolicy`: loading the policies on the way to a path, and admitting the path.
use code_assist_harness.Prelude.{
  ℕ, ◌+◌, Option, none, some, Bool, true, false, ◌&&◌, ◌||◌, not, List, [], ◌∷◌, ◌++◌, Text, ltb,
  length,
}
use code_assist_harness.Utf8.{decode}
use code_assist_harness.Workspace.{Result, ok, boundary_error, zip_error, label}
use code_assist_harness.Workspace.Boundary.{path_eq}
use code_assist_harness.Repository.{
  has_nul, repository_path_not_found, repository_path_unavailable, repository_path_ignored,
  repository_policy_invalid, RepositoryPathKind, file, directory, max_policy_source_bytes,
  max_policy_bytes, is_hard_denied_path, AdmittedRepositoryPath, access_error, PolicyRules,
  ScopedPolicy, Act, give, refuse, crash, ◌>>=◌, ◌>>◌, refuse_if,
}
use code_assist_harness.Repository.Lines.{PatternLibrary, compile_policy_rules}
use code_assist_harness.Repository.Ignore.{is_ignored}
use code_assist_harness.Repository.Admission.{
  RepositoryHost, FileStatus, LeafStatus, CapturedOwner, leaf_symlink, leaf_missing,
  leaf_unreadable, leaf_other, directory_file, split_lines, gitignore, child_label, call, cached,
  require_policy_capacity, remember, normalize_components, resolve_requested, capture_owner,
  require_same_owner, policy_leaf_is_present, resolve_policy_source, supported_kind,
}

-- `except RepositoryAccessError`: on a missing path something is done before the error goes on.
unfoldable pub before_missing : {P A : Type 0} → Act P A → Act P (Unit {0}) → Act P A
before_missing m handler s =
    let (t, r) = m s in
    elim r [
      | access_error repository_path_not_found ↦ (handler >> refuse repository_path_not_found) t
      | other ↦ (t, other)
    ]

abbrev pub add_policy :
    {P : Type 0}
    → List Text
    → Option (PolicyRules P)
    → List (ScopedPolicy P)
    → List (ScopedPolicy P)
add_policy owner none policies = policies
add_policy owner (some rules) policies = policies ++ record { owner = owner; rules = rules } ∷ []

abbrev pub ignored_as : RepositoryPathKind → Bool × Bool → Bool
ignored_as file (as_file, as_directory) = as_file
ignored_as directory (as_file, as_directory) = as_directory

abbrev pub same_kind : RepositoryPathKind → RepositoryPathKind → Bool
same_kind file file = true
same_kind directory directory = true
same_kind _ _ = false

abbrev pub parent_of : List Text → List Text
parent_of [] = []
parent_of (c ∷ []) = []
parent_of (c ∷ d ∷ cs) = c ∷ parent_of (d ∷ cs)

abbrev pub leaf_of : List Text → Text
leaf_of [] = []
leaf_of (c ∷ []) = c
leaf_of (c ∷ d ∷ cs) = leaf_of (d ∷ cs)

-- An exception is a failure of the policy.
unfoldable pub or_invalid : {P A : Type 0} → Option A → Act P A
or_invalid none = refuse repository_policy_invalid
or_invalid (some a) = give a

abbrev pub as_link : {P : Type 0} → LeafStatus → Act P Bool
as_link leaf_missing = refuse repository_path_unavailable
as_link leaf_unreadable = refuse repository_path_unavailable
as_link leaf_symlink = give true
as_link leaf_other = give false

abbrev pub as_parent : {P : Type 0} → Result (List Text) → Act P (List Text)
as_parent (ok parent) = give parent
as_parent (boundary_error _) = refuse repository_path_unavailable
as_parent zip_error = crash

module _ {P : Type 0} (library : PatternLibrary P) (host : RepositoryHost) where
  unfoldable pub require_payload_fits : List ℕ → Act P (Unit {0})
  require_payload_fits payload s =
      refuse_if
        (ltb max_policy_source_bytes (length payload)
          || ltb max_policy_bytes (s.loaded_bytes + length payload))
        repository_policy_invalid s

  -- The end of `_load_policy`: the bytes become rules, which are cached.
  unfoldable pub admit_payload : List Text → List ℕ → Act P (PolicyRules P)
  admit_payload source payload = do
    require_payload_fits payload
    text ← or_invalid (decode payload)
    refuse_if (has_nul text) repository_policy_invalid
    rules ← or_invalid (compile_policy_rules library (split_lines text))
    remember source rules (length payload)
    give rules

  -- A source that is not in the cache.
  unfoldable pub load_source : CapturedOwner → List Text → ℕ → Act P (PolicyRules P)
  load_source owner source size = do
    require_policy_capacity size
    require_same_owner host owner
    present ← policy_leaf_is_present host owner.components
    refuse_if (not present) repository_policy_invalid
    current ← resolve_policy_source host (child_label owner.components gitignore)
    refuse_if (not (path_eq current.0 source)) repository_policy_invalid
    require_policy_capacity current.1
    answer ← call (λ n. host.read n current.0)
    payload ← or_invalid answer
    admit_payload current.0 payload

  abbrev pub load_unless :
      CapturedOwner → List Text × ℕ → Option (PolicyRules P) → Act P (Option (PolicyRules P))
  load_unless owner source (some rules) = give (some rules)
  load_unless owner source none = load_source owner source.0 source.1 >>= λ rules. give (some rules)

  unfoldable pub load_present : CapturedOwner → Act P (Option (PolicyRules P))
  load_present owner = do
    source ← resolve_policy_source host (child_label owner.components gitignore)
    hit ← cached source.0
    load_unless owner source hit

  abbrev pub load_if_present : CapturedOwner → Bool → Act P (Option (PolicyRules P))
  load_if_present owner true = load_present owner
  load_if_present owner false = give none

  unfoldable pub load_policy : CapturedOwner → Act P (Option (PolicyRules P))
  load_policy owner = do
    require_same_owner host owner
    present ← policy_leaf_is_present host owner.components
    load_if_present owner present

  -- Refused when the policies ignore the path both as a file and as a directory.
  unfoldable pub refuse_ignored : List (ScopedPolicy P) → List Text → Act P (Unit {0})
  refuse_ignored policies components = do
    as_file ← is_ignored library policies components false
    as_directory ← is_ignored library policies components true
    refuse_if (as_file && as_directory) repository_path_ignored

  -- The loop over the proper ancestors: those seen are `above`, the rest of the path is `components`.
  unfoldable pub ancestors :
      List Text → List Text → List Text → List (ScopedPolicy P) → Act P (List (ScopedPolicy P))
  ancestors whole above [] policies = give policies
  ancestors whole above (c ∷ []) policies = give policies
  ancestors whole above (c ∷ d ∷ cs) policies = do
    ignored ← is_ignored library policies (above ++ c ∷ []) true
    refuse_if ignored repository_path_ignored
    owner ← before_missing (capture_owner host (above ++ c ∷ [])) (refuse_ignored policies whole)
    nested ← load_policy owner
    ancestors whole (above ++ c ∷ []) (d ∷ cs) (add_policy (above ++ c ∷ []) nested policies)

  unfoldable pub prepare_ignore_view : List Text → Act P (List (ScopedPolicy P))
  prepare_ignore_view components = do
    owner ← capture_owner host []
    rules ← load_policy owner
    ancestors components [] components (add_policy [] rules [])

  -- How the policies see a path as a file, and as a directory.
  unfoldable pub view_of : List Text → Act P (Bool × Bool)
  view_of components = do
    policies ← prepare_ignore_view components
    as_file ← is_ignored library policies components false
    as_directory ← is_ignored library policies components true
    refuse_if (as_file && as_directory) repository_path_ignored
    give (as_file, as_directory)

  abbrev pub in_parent : List Text → List Text → Option FileStatus → Act P Bool
  in_parent components parent (some (directory_file device inode)) =
      refuse_if (is_hard_denied_path parent) repository_path_unavailable
      >> (call (λ n. host.leaf n parent (leaf_of components)) >>= as_link)
  in_parent components parent _ = refuse repository_path_unavailable

  -- The direct leaf of a path that is not the root: whether it is a symbolic link.
  unfoldable pub leaf_provenance : List Text → Act P Bool
  leaf_provenance components = do
    resolved ← call (λ n. host.resolve n (label (parent_of components)))
    parent ← as_parent resolved
    observed ← call (λ n. host.status n parent)
    in_parent components parent observed

  abbrev pub provenance : List Text → Act P Bool
  provenance [] = give false
  provenance (c ∷ cs) = leaf_provenance (c ∷ cs)

  unfoldable pub finalize_snapshot : List Text → List Text → RepositoryPathKind → Act P Bool
  finalize_snapshot components expected expected_kind = do
    is_symlink ← provenance components
    current ← resolve_requested host (label components)
    refuse_if (is_hard_denied_path current) repository_path_unavailable
    refuse_if (not (path_eq current expected)) repository_path_unavailable
    kind ← supported_kind host current
    refuse_if (not (same_kind kind expected_kind)) repository_path_unavailable
    give is_symlink

  -- The end of an admission: the kind of the target, and whether it is still the same.
  unfoldable pub conclude :
      List Text → List Text → Bool × Bool → Bool × Bool → Act P AdmittedRepositoryPath
  conclude components canonical lexical resolved = do
    kind ← supported_kind host canonical
    refuse_if (ignored_as kind lexical || ignored_as kind resolved) repository_path_ignored
    is_symlink ← finalize_snapshot components canonical kind
    give (record { path = label canonical; kind = kind; is_symlink = is_symlink })

  -- The canonical path, tested as the given one was.
  unfoldable pub judge : List Text → Bool × Bool → Act P AdmittedRepositoryPath
  judge components lexical = do
    canonical ← resolve_requested host (label components)
    refuse_if (is_hard_denied_path canonical) repository_path_unavailable
    resolved ← view_of canonical
    conclude components canonical lexical resolved

  unfoldable pub admit_existing : Text → Act P AdmittedRepositoryPath
  admit_existing path = do
    components ← normalize_components path
    refuse_if (is_hard_denied_path components) repository_path_unavailable
    lexical ← view_of components
    judge components lexical
