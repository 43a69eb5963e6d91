-- ===== src/Repository/Within.antt =====
-- Every step of an admission keeps the budgets.
use code_assist_harness.Prelude.{ℕ, Option, none, some, Bool, true, false, List, Text}
use code_assist_harness.Workspace.{
  Result, label, ok, boundary_error, zip_error, invalid_workspace_path, workspace_path_not_found,
}
use code_assist_harness.Repository.{Act, ◌>>◌, RepositoryPathKind, file, directory}
use code_assist_harness.Repository.Lines.{PatternLibrary}
use code_assist_harness.Repository.Admission.{
  RepositoryHost, CapturedOwner, LeafStatus, as_components, as_requested, as_policy_path, as_owner,
  as_same_owner, as_presence, as_source, as_kind, FileStatus, regular_file, directory_file,
  leaf_missing, leaf_unreadable, leaf_symlink, leaf_other, resolve_requested, resolve_for_policy,
  capture_owner, require_same_owner, policy_leaf_is_present, resolve_policy_source, supported_kind,
}
use code_assist_harness.Repository.Policies.{or_invalid, as_link, as_parent, in_parent}
use code_assist_harness.Repository.Budgets.{
  KeepsBudgets, bind_keeps, give_keeps, refuse_keeps, crash_keeps, refuse_if_keeps, call_keeps,
}

pub then_keeps :
    {P A B : Type 0} (m : Act P A) (k : Act P B)
    → KeepsBudgets m
    → KeepsBudgets k
    → KeepsBudgets (m >> k)
unfolding ◌>>◌
then_keeps m k h g = bind_keeps m (λ _. k) h (λ _. g)

-- The answers of the host become values or errors without a change of the budgets.
module _ {P : Type 0} where
  pub components_keep : (r : Result (List Text)) → KeepsBudgets {P = P} (as_components r)
  components_keep (ok c) = give_keeps c
  components_keep (boundary_error invalid_workspace_path) = refuse_keeps P (List Text) _
  components_keep (boundary_error _) = crash_keeps P (List Text)
  components_keep zip_error = crash_keeps P (List Text)

  pub requested_keep : (r : Result (List Text)) → KeepsBudgets {P = P} (as_requested r)
  requested_keep (ok c) = give_keeps c
  requested_keep (boundary_error workspace_path_not_found) = refuse_keeps P (List Text) _
  requested_keep (boundary_error _) = refuse_keeps P (List Text) _
  requested_keep zip_error = crash_keeps P (List Text)

  pub policy_path_keeps : (r : Result (List Text)) → KeepsBudgets {P = P} (as_policy_path r)
  policy_path_keeps (ok c) = give_keeps c
  policy_path_keeps (boundary_error _) = refuse_keeps P (List Text) _
  policy_path_keeps zip_error = crash_keeps P (List Text)

  pub parent_keeps : (r : Result (List Text)) → KeepsBudgets {P = P} (as_parent r)
  parent_keeps (ok c) = give_keeps c
  parent_keeps (boundary_error _) = refuse_keeps P (List Text) _
  parent_keeps zip_error = crash_keeps P (List Text)

  pub owner_keeps :
      (c p : List Text) (o : Option FileStatus) → KeepsBudgets {P = P} (as_owner c p o)
  owner_keeps c p (some (directory_file d i)) = give_keeps _
  owner_keeps c p _ = refuse_keeps P CapturedOwner _

  pub same_owner_keeps :
      (c : CapturedOwner) (o : Option FileStatus) → KeepsBudgets {P = P} (as_same_owner c o)
  same_owner_keeps c (some (directory_file d i)) = refuse_if_keeps _ _
  same_owner_keeps c _ = refuse_keeps P (Unit {0}) _

  pub presence_keeps : (l : LeafStatus) → KeepsBudgets {P = P} (as_presence l)
  presence_keeps leaf_missing = give_keeps false
  presence_keeps leaf_unreadable = refuse_keeps P Bool _
  presence_keeps _ = give_keeps true

  pub link_keeps : (l : LeafStatus) → KeepsBudgets {P = P} (as_link l)
  link_keeps leaf_missing = refuse_keeps P Bool _
  link_keeps leaf_unreadable = refuse_keeps P Bool _
  link_keeps leaf_symlink = give_keeps true
  link_keeps leaf_other = give_keeps false

  pub source_keeps : (s : List Text) (o : Option FileStatus) → KeepsBudgets {P = P} (as_source s o)
  source_keeps s (some (regular_file n)) = then_keeps _ _ (refuse_if_keeps _ _) (give_keeps (s, n))
  source_keeps s _ = refuse_keeps P (List Text × ℕ) _

  pub kind_keeps : (o : Option FileStatus) → KeepsBudgets {P = P} (as_kind o)
  kind_keeps (some (regular_file n)) = give_keeps file
  kind_keeps (some (directory_file d i)) = give_keeps directory
  kind_keeps _ = refuse_keeps P RepositoryPathKind _

  pub or_invalid_keeps : {A : Type 0} (o : Option A) → KeepsBudgets {P = P} (or_invalid o)
  unfolding or_invalid
  or_invalid_keeps none = refuse_keeps P _ _
  or_invalid_keeps (some a) = give_keeps a

module _ {P : Type 0} (host : RepositoryHost) where
  pub resolve_keeps : (v : Text) → KeepsBudgets {P = P} (resolve_requested host v)
  unfolding resolve_requested
  resolve_keeps v = bind_keeps _ _ (call_keeps _) requested_keep

  pub policy_resolve_keeps : (v : Text) → KeepsBudgets {P = P} (resolve_for_policy host v)
  unfolding resolve_for_policy
  policy_resolve_keeps v = bind_keeps _ _ (call_keeps _) policy_path_keeps

  pub capture_keeps : (c : List Text) → KeepsBudgets {P = P} (capture_owner host c)
  unfolding capture_owner
  capture_keeps c =
      bind_keeps _ _ (resolve_keeps (label c)) (λ p.
        then_keeps _ _ (refuse_if_keeps _ _) (bind_keeps _ _ (call_keeps _) (owner_keeps c p)))

  pub require_owner_keeps : (o : CapturedOwner) → KeepsBudgets {P = P} (require_same_owner host o)
  unfolding require_same_owner
  require_owner_keeps o = bind_keeps _ _ (policy_resolve_keeps (label o.components)) (λ p.
      then_keeps _ _ (refuse_if_keeps _ _) (bind_keeps _ _ (call_keeps _) (same_owner_keeps o)))

  pub leaf_keeps : (c : List Text) → KeepsBudgets {P = P} (policy_leaf_is_present host c)
  unfolding policy_leaf_is_present
  leaf_keeps c = bind_keeps _ _ (call_keeps _) presence_keeps

  pub policy_source_keeps : (v : Text) → KeepsBudgets {P = P} (resolve_policy_source host v)
  unfolding resolve_policy_source
  policy_source_keeps v =
      bind_keeps _ _ (policy_resolve_keeps v)
        (λ s. then_keeps _ _ (refuse_if_keeps _ _) (bind_keeps _ _ (call_keeps _) (source_keeps s)))

  pub supported_keeps : (p : List Text) → KeepsBudgets {P = P} (supported_kind host p)
  unfolding supported_kind
  supported_keeps p = bind_keeps _ _ (call_keeps _) kind_keeps

  pub in_parent_keeps :
      (l : PatternLibrary P) (c p : List Text) (o : Option FileStatus)
      → KeepsBudgets {P = P} (in_parent l host c p o)
  in_parent_keeps l c p (some (directory_file d i)) =
      then_keeps _ _ (refuse_if_keeps _ _) (bind_keeps _ _ (call_keeps _) link_keeps)
  in_parent_keeps l c p _ = refuse_keeps P Bool _
