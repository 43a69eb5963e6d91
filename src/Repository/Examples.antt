-- ===== src/Repository/Examples.antt =====
-- A repository with one policy of one line, which ignores the file b, and with the files a and b.
use code_assist_harness.Prelude.{
  ◌+◌, ◌≤◌, Option, none, some, true, false, List, [], ◌∷◌, Text, codes, text_eq, if◌then◌else◌,
  ◌≡◌, refl, arith,
}
use code_assist_harness.Utf8.{encode, encode_char, decode, decode_rounds, decode_char}
use code_assist_harness.Workspace.{
  label, split, normalize_workspace_relative_path, normalize_encoded, is_empty, keep_components,
  zip_strict,
}
use code_assist_harness.Workspace.Boundary.{path_eq}
use code_assist_harness.Repository.{
  ScopedPolicy, PolicyRules, max_policy_match_work, file, AdmittedRepositoryPath, AdmissionState,
  new_admission, found, is_hard_denied_path, last_denied, is_denied_basename, ascii_lower,
  starts_with, ends_with, give, refuse, refuse_if, ◌>>=◌, ◌>>◌,
}
use code_assist_harness.Repository.Grammar.{
  validate_policy_line, segments_loop, last_nonempty, validate_policy_segment, segment_loop,
}
use code_assist_harness.Repository.Lines.{
  PatternLibrary, nonempty_lines, normalize_policy_line, scan_spaces, strip_cr, directory_pattern,
  directory_lines, identities_kept, compile_policy_rules,
}
use code_assist_harness.Repository.Ignore.{below, check_policy, consult, fold_policies, is_ignored}
use code_assist_harness.Repository.Admission.{
  RepositoryHost, FileStatus, regular_file, directory_file, leaf_other, split_lines, call, lookup,
  cached, require_policy_capacity, remember, normalize_components, resolve_requested,
  resolve_for_policy, capture_owner, require_same_owner, policy_leaf_is_present,
  resolve_policy_source, supported_kind,
}
use code_assist_harness.Repository.Policies.{
  before_missing, or_invalid, require_payload_fits, admit_payload, load_source, load_present,
  load_policy, refuse_ignored, ancestors, prepare_ignore_view, view_of, leaf_provenance,
  finalize_snapshot, conclude, judge, admit_existing,
}
use code_assist_harness.Repository.Charges.{matching_budget, patterns_above}
use code_assist_harness.Repository.Spending.{admit_all}
use code_assist_harness.Repository.Trimming.{trimmed, kept, normalize_policy_line-eq-trimmed}

-- A pattern is its line, and matches that name alone.
abbrev names : PatternLibrary Text
names = record {
  from_lines = λ ls. some (nonempty_lines ls);
  pattern_text = λ p. p;
  pattern_include = λ p. some true;
  match_file = λ p t. some (if text_eq p t then some false else none);
}

abbrev status_of : List Text → Option FileStatus
status_of [] = some (directory_file 1 1)
status_of (c ∷ cs) = some (regular_file 1)

abbrev host : RepositoryHost
host = record {
  resolve = λ n v. normalize_workspace_relative_path v;
  status = λ n p. status_of p;
  leaf = λ n p l. leaf_other;
  read = λ n p. some (codes "b");
}

abbrev admitted_a : AdmittedRepositoryPath
admitted_a = record { path = codes "a"; kind = file; is_symlink = false }

abbrev after : Text → AdmissionState Text
after path = (admit_existing names host path new_admission).0

-- The policy of the root, asked about both files once they have been admitted and refused.
abbrev both : AdmissionState Text
both = admit_all names host (codes "a" ∷ codes "b" ∷ []) new_admission

abbrev root_policy : List (ScopedPolicy Text)
root_policy =
    record {
      owner = [];
      rules = record { file_rules = codes "b" ∷ []; directory_rules = codes "b" ∷ [] };
    }
    ∷ []

answered :
    is_ignored names root_policy (codes "b" ∷ []) false both
    ≡ ((is_ignored names root_policy (codes "b" ∷ []) false both).0, found true)
unfolding admit_existing judge conclude finalize_snapshot leaf_provenance view_of
    prepare_ignore_view ancestors refuse_ignored load_policy load_present load_source admit_payload
    require_payload_fits or_invalid before_missing call lookup cached require_policy_capacity
    remember normalize_components resolve_requested resolve_for_policy capture_owner
    require_same_owner policy_leaf_is_present resolve_policy_source supported_kind split_lines below
    check_policy consult fold_policies is_ignored normalize_policy_line scan_spaces strip_cr
    directory_pattern directory_lines identities_kept compile_policy_rules validate_policy_line
    segments_loop last_nonempty validate_policy_segment segment_loop is_hard_denied_path last_denied
    is_denied_basename ascii_lower starts_with ends_with give refuse refuse_if ◌>>=◌ ◌>>◌ label
    split normalize_workspace_relative_path normalize_encoded is_empty keep_components zip_strict
    path_eq encode encode_char decode decode_rounds decode_char text_eq
answered = refl

matching_budget_example :
    ((is_ignored names root_policy (codes "b" ∷ []) false both).0.match_work
      ≡ both.match_work + patterns_above root_policy (codes "b" ∷ []) false)
    × ((is_ignored names root_policy (codes "b" ∷ []) false both).0.match_work
        ≤ max_policy_match_work)
matching_budget_example =
    matching_budget names host (codes "a" ∷ codes "b" ∷ []) new_admission
      (is_ignored names root_policy (codes "b" ∷ []) false both).0 root_policy (codes "b" ∷ [])
      false true (omega arith, omega arith, omega arith) answered

abbrev nested : List Text
nested = codes "d" ∷ codes ".gitignore" ∷ []

abbrev nested_rules : PolicyRules Text
nested_rules = record { file_rules = codes "b" ∷ []; directory_rules = codes "b" ∷ [] }

abbrev loaded : AdmissionState Text
loaded = (admit_payload names host nested (codes "b") both).0

-- The second of the two spaces is not escaped.
normalize_policy_line-eq-trimmed_example :
    normalize_policy_line (97 ∷ 92 ∷ 32 ∷ 32 ∷ [])
    ≡ kept (strip_cr (97 ∷ 92 ∷ 32 ∷ 32 ∷ [])) (trimmed (strip_cr (97 ∷ 92 ∷ 32 ∷ 32 ∷ [])))
normalize_policy_line-eq-trimmed_example = normalize_policy_line-eq-trimmed (97 ∷ 92 ∷ 32 ∷ 32 ∷ [])

escaped_space : normalize_policy_line (97 ∷ 92 ∷ 32 ∷ 32 ∷ []) ≡ 97 ∷ 92 ∷ 32 ∷ []
unfolding normalize_policy_line scan_spaces strip_cr
escaped_space = refl
