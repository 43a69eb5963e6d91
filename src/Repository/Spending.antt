-- ===== src/Repository/Spending.antt =====
-- A whole admission within its budgets: what is loaded and matched never exceeds them.
use code_assist_harness.Prelude.{
  ℕ, ◌+◌, ◌<◌, Option, none, some, Bool, true, false, ◌||◌, List, [], ◌∷◌, ◌++◌, Text, ltb, leb,
  length, inl, inr, arith, Bool-cases, Option-cases,
}
use code_assist_harness.Utf8.{decode}
use code_assist_harness.Workspace.{normalize_workspace_relative_path}
use code_assist_harness.Repository.{
  has_nul, max_policy_sources, max_policy_source_bytes, max_policy_bytes, repository_path_not_found,
  PolicyRules, ScopedPolicy, AdmissionState, Act, give, refuse, ◌>>=◌, ◌>>◌, refuse_if,
  RepositoryPathKind,
}
use code_assist_harness.Repository.Lines.{PatternLibrary, compile_policy_rules}
use code_assist_harness.Repository.Admission.{
  RepositoryHost, CapturedOwner, split_lines, call, require_policy_capacity, remember,
  normalize_components,
}
use code_assist_harness.Repository.Policies.{
  or_invalid, load_unless, load_if_present, before_missing, require_payload_fits, admit_payload,
  load_source, load_present, load_policy, refuse_ignored, ancestors, prepare_ignore_view, view_of,
  leaf_provenance, provenance, finalize_snapshot, conclude, judge, admit_existing, add_policy,
}
use code_assist_harness.Repository.Budgets.{
  Outcome-cases, IsWithin, KeepsBudgets, bind_keeps, give_keeps, refuse_keeps, refuse_if_keeps,
  call_keeps, cached_keeps, capacity_keeps, is_ignored_keeps,
}
use code_assist_harness.Repository.Within.{
  then_keeps, components_keep, parent_keeps, resolve_keeps, capture_keeps, require_owner_keeps,
  leaf_keeps, policy_source_keeps, supported_keeps, in_parent_keeps,
}

capacity_then :
    {P A : Type 0} (n : ℕ) (k : Act P A)
    → ((s : AdmissionState P) → IsWithin s → length s.cache < max_policy_sources → IsWithin (k s).0)
    → KeepsBudgets (require_policy_capacity n >> k)
unfolding require_policy_capacity ◌>>◌ ◌>>=◌ refuse_if refuse give
capacity_then n k h s w =
    elim (Bool-cases
      (leb max_policy_sources (length s.cache) || ltb max_policy_bytes (s.loaded_bytes + n))) [
        | inl g ↦ ground (arith, g, w)
        | inr g ↦ ground (arith, g, h s w (ground (arith, g)))
      ]

missing_keeps :
    (P A : Type 0) (m : Act P A) (h : Act P (Unit {0}))
    → KeepsBudgets m
    → KeepsBudgets h
    → KeepsBudgets (before_missing m h)
unfolding before_missing
missing_keeps P A m h a b s w = elim (Outcome-cases (m s).1) [
  | inl (x, e) ↦ ground (arith, e, a s w)
  | inr (inr e) ↦ ground (arith, e, a s w)
  | inr (inl (code, e)) ↦ ground (
    arith,
    e,
    a s w,
    then_keeps h (refuse {P = P} {A = A} repository_path_not_found) b
        (refuse_keeps P A repository_path_not_found) (m s).0 (a s w),
  )
]

-- The state after a decision has looked at paths one after the other.
abbrev pub admit_all :
    {P : Type 0}
    → PatternLibrary P
    → RepositoryHost
    → List Text
    → AdmissionState P
    → AdmissionState P
admit_all library host [] s = s
admit_all library host (p ∷ ps) s = admit_all library host ps (admit_existing library host p s).0

module _ {P : Type 0} (library : PatternLibrary P) (host : RepositoryHost) where
  payload_keeps :
      (source : List Text) (payload : List ℕ) (s : AdmissionState P)
      → IsWithin s
      → length s.cache < max_policy_sources
      → IsWithin (admit_payload library host source payload s).0
  unfolding admit_payload ◌>>=◌ ◌>>◌ require_payload_fits refuse_if or_invalid give refuse remember
  payload_keeps source payload s w c =
      elim (Bool-cases (
        ltb max_policy_source_bytes (length payload)
        || ltb max_policy_bytes (s.loaded_bytes + length payload))) [
          | inl h ↦ ground (arith, h, w)
          | inr h ↦ elim (Option-cases (decode payload)) [
            | inl e ↦ ground (arith, h, e, w)
            | inr (text, e) ↦ elim (Bool-cases (has_nul text)) [
              | inl g ↦ ground (arith, h, e, g, w)
              | inr g ↦ elim (Option-cases (compile_policy_rules library (split_lines text))) [
                | inl f ↦ ground (arith, h, e, g, f, w)
                | inr (rules, f) ↦ ground (arith, h, e, g, f, w, c)
              ]
            ]
          ]
        ]

  read_keeps :
      (source : List Text) (s : AdmissionState P)
      → IsWithin s
      → length s.cache < max_policy_sources
      → IsWithin
          ((call (λ n. host.read n source) >>= λ answer.
              or_invalid answer >>= admit_payload library host source)
            s).0
  unfolding ◌>>=◌ call or_invalid refuse give
  read_keeps source s w c = elim (Option-cases (host.read s.calls source)) [
    | inl e ↦ ground (arith, e, w)
    | inr (bytes, e) ↦
        ground (arith, e, payload_keeps source bytes (record s { calls = s.calls + 1 }) w c)
  ]

  load_source_keeps :
      (o : CapturedOwner) (source : List Text) (size : ℕ)
      → KeepsBudgets (load_source library host o source size)
  unfolding load_source
  load_source_keeps o source size = then_keeps _ _ (capacity_keeps size) (
      then_keeps _ _ (require_owner_keeps host o) (
        bind_keeps _ _ (leaf_keeps host o.components) (λ present.
          then_keeps _ _ (refuse_if_keeps _ _) (
            bind_keeps _ _ (policy_source_keeps host _) (λ current.
              then_keeps _ _ (refuse_if_keeps _ _)
                (capacity_then current.1 _ (read_keeps current.0)))))))

  load_unless_keeps :
      (o : CapturedOwner) (source : List Text × ℕ) (hit : Option (PolicyRules P))
      → KeepsBudgets (load_unless library host o source hit)
  load_unless_keeps o source (some rules) = give_keeps (some rules)
  load_unless_keeps o source none =
      bind_keeps _ _ (load_source_keeps o source.0 source.1) (λ rules. give_keeps (some rules))

  load_present_keeps : (o : CapturedOwner) → KeepsBudgets (load_present library host o)
  unfolding load_present
  load_present_keeps o =
      bind_keeps _ _ (policy_source_keeps host _)
        (λ source. bind_keeps _ _ (cached_keeps source.0) (load_unless_keeps o source))

  if_present_keeps :
      (o : CapturedOwner) (b : Bool) → KeepsBudgets (load_if_present library host o b)
  if_present_keeps o true = load_present_keeps o
  if_present_keeps o false = give_keeps none

  load_policy_keeps : (o : CapturedOwner) → KeepsBudgets (load_policy library host o)
  unfolding load_policy
  load_policy_keeps o =
      then_keeps _ _ (require_owner_keeps host o)
        (bind_keeps _ _ (leaf_keeps host o.components) (if_present_keeps o))

  refuse_ignored_keeps :
      (policies : List (ScopedPolicy P)) (c : List Text)
      → KeepsBudgets (refuse_ignored library host policies c)
  unfolding refuse_ignored
  refuse_ignored_keeps policies c =
      bind_keeps _ _ (is_ignored_keeps library policies c false)
        (λ f. bind_keeps _ _ (is_ignored_keeps library policies c true) (λ d. refuse_if_keeps _ _))

  ancestors_keep :
      (whole above rest : List Text) (policies : List (ScopedPolicy P))
      → KeepsBudgets (ancestors library host whole above rest policies)
  unfolding ancestors
  ancestors_keep whole above [] policies = give_keeps policies
  ancestors_keep whole above (c ∷ []) policies = give_keeps policies
  ancestors_keep whole above (c ∷ d ∷ cs) policies =
      bind_keeps _ _ (is_ignored_keeps library policies _ true) (λ ignored.
        then_keeps _ _ (refuse_if_keeps _ _) (
          bind_keeps _ _
            (missing_keeps P CapturedOwner _ _ (capture_keeps host _)
              (refuse_ignored_keeps policies whole))
            (λ o. bind_keeps _ _ (load_policy_keeps o) (λ nested.
              ancestors_keep whole (above ++ c ∷ []) (d ∷ cs)
                (add_policy (above ++ c ∷ []) nested policies)))))

  view_keeps : (c : List Text) → KeepsBudgets (view_of library host c)
  unfolding view_of prepare_ignore_view
  view_keeps c =
      bind_keeps _ _
        (bind_keeps _ _ (capture_keeps host []) (λ o.
          bind_keeps _ _ (load_policy_keeps o)
            (λ rules. ancestors_keep c [] c (add_policy [] rules []))))
        (λ policies. bind_keeps _ _ (is_ignored_keeps library policies c false) (λ f.
          bind_keeps _ _ (is_ignored_keeps library policies c true)
            (λ d. then_keeps _ _ (refuse_if_keeps _ _) (give_keeps (f, d)))))

  provenance_keeps : (c : List Text) → KeepsBudgets (provenance library host c)
  unfolding leaf_provenance
  provenance_keeps [] = give_keeps false
  provenance_keeps (c ∷ cs) = bind_keeps _ _ (call_keeps _) (λ r.
      bind_keeps _ _ (parent_keeps r)
        (λ p. bind_keeps _ _ (call_keeps _) (in_parent_keeps host library (c ∷ cs) p)))

  finalize_keeps :
      (c e : List Text) (k : RepositoryPathKind)
      → KeepsBudgets (finalize_snapshot library host c e k)
  unfolding finalize_snapshot
  finalize_keeps c e k = bind_keeps _ _ (provenance_keeps c) (λ l.
      bind_keeps _ _ (resolve_keeps host _) (λ p. then_keeps _ _ (refuse_if_keeps _ _) (
        then_keeps _ _ (refuse_if_keeps _ _) (
          bind_keeps _ _ (supported_keeps host p)
            (λ kind. then_keeps _ _ (refuse_if_keeps _ _) (give_keeps l))))))

  conclude_keeps :
      (c p : List Text) (lexical resolved : Bool × Bool)
      → KeepsBudgets (conclude library host c p lexical resolved)
  unfolding conclude
  conclude_keeps c p lexical resolved = bind_keeps _ _ (supported_keeps host p) (λ kind.
      then_keeps _ _ (refuse_if_keeps _ _)
        (bind_keeps _ _ (finalize_keeps c p kind) (λ l. give_keeps _)))

  judge_keeps :
      (c : List Text) (lexical : Bool × Bool) → KeepsBudgets (judge library host c lexical)
  unfolding judge
  judge_keeps c lexical = bind_keeps _ _ (resolve_keeps host _) (λ p.
      then_keeps _ _ (refuse_if_keeps _ _)
        (bind_keeps _ _ (view_keeps p) (conclude_keeps c p lexical)))

  admit_keeps : (path : Text) → KeepsBudgets (admit_existing library host path)
  unfolding admit_existing normalize_components
  admit_keeps path =
      bind_keeps _ _ (components_keep (normalize_workspace_relative_path path))
        (λ c. then_keeps _ _ (refuse_if_keeps _ _) (bind_keeps _ _ (view_keeps c) (judge_keeps c)))

  -- Whatever the file system holds and however it changes, and however many paths one decision admits
  -- or refuses, at most sixteen policy sources of 262144 bytes in all are loaded, and at most 65536
  -- patterns are matched.
  pub admission_budgets :
      (paths : List Text) (s : AdmissionState P)
      → IsWithin s
      → IsWithin (admit_all library host paths s)
  admission_budgets [] s w = w
  admission_budgets (p ∷ ps) s w =
      admission_budgets ps (admit_existing library host p s).0 (admit_keeps p s w)
