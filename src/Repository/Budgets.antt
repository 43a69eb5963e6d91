-- ===== src/Repository/Budgets.antt =====
-- The budgets of one decision: how many policy sources and bytes are loaded, and how many patterns are
-- matched, on every way through an admission.
use code_assist_harness.Prelude.{
  ℕ, ◌+◌, ◌≤◌, Option, none, Bool, true, false, ◌||◌, List, [], ◌∷◌, Text, ltb, leb, length, ◌≡◌,
  refl, sym, subst, ◌⊎◌, inl, inr, arith, Bool-cases, Option-cases,
}
use code_assist_harness.Workspace.{join}
use code_assist_harness.Repository.{
  repository_policy_invalid, max_policy_sources, max_policy_bytes, max_policy_match_work, Outcome,
  found, access_error, uncaught, ScopedPolicy, AdmissionState, Act, give, refuse, crash, ◌>>=◌,
  refuse_if, RepositoryAccessErrorCode,
}
use code_assist_harness.Repository.Lines.{PatternLibrary}
use code_assist_harness.Repository.Ignore.{
  below, rules_for, check_policy, consult, fold_policies, is_ignored, is_true,
}
use code_assist_harness.Repository.Admission.{call, cached, require_policy_capacity}

abbrev pub IsWithin : {P : Type 0} → AdmissionState P → Type 0
IsWithin s =
    (length s.cache ≤ max_policy_sources)
    × (s.loaded_bytes ≤ max_policy_bytes)
    × (s.match_work ≤ max_policy_match_work)

abbrev pub KeepsBudgets : {P A : Type 0} → Act P A → Type 0
KeepsBudgets {P} m = (s : AdmissionState P) → IsWithin s → IsWithin (m s).0

pub Outcome-cases :
    {A : Type 0} (r : Outcome A)
    → ((a : A) × (r ≡ found a))
      ⊎ ((code : RepositoryAccessErrorCode) × (r ≡ access_error code))
      ⊎ (r ≡ uncaught)
Outcome-cases (found a) = inl (a, refl)
Outcome-cases (access_error code) = inr (inl (code, refl))
Outcome-cases uncaught = inr (inr refl)

module _ {P A B : Type 0} (m : Act P A) (k : A → Act P B) (s : AdmissionState P) where
  -- How a sequence of two acts goes.
  pub bind-cases :
      ((a : A) × ((m s).1 ≡ found a) × ((m >>= k) s ≡ k a (m s).0))
      ⊎ ((code : RepositoryAccessErrorCode) × ((m >>= k) s ≡ ((m s).0, access_error code)))
      ⊎ ((m >>= k) s ≡ ((m s).0, uncaught))
  unfolding ◌>>=◌
  bind-cases = elim (Outcome-cases (m s).1) [
    | inl (a, e) ↦ inl (a, e, ground (arith, e))
    | inr (inl (code, e)) ↦ inr (inl (code, ground (arith, e)))
    | inr (inr e) ↦ inr (inr (ground (arith, e)))
  ]

pub bind_keeps :
    {P A B : Type 0} (m : Act P A) (k : A → Act P B)
    → KeepsBudgets m
    → ((a : A) → KeepsBudgets (k a))
    → KeepsBudgets (m >>= k)
bind_keeps m k h g s w = elim (bind-cases m k s) [
  | inl (a, e, f) ↦ subst (λ r. IsWithin r.0) (sym f) (g a (m s).0 (h s w))
  | inr (inl (code, f)) ↦ subst (λ r. IsWithin r.0) (sym f) (h s w)
  | inr (inr f) ↦ subst (λ r. IsWithin r.0) (sym f) (h s w)
]

pub give_keeps : {P A : Type 0} (a : A) → KeepsBudgets {P = P} (give a)
unfolding give
give_keeps a s w = w

pub refuse_keeps :
    (P A : Type 0) (code : RepositoryAccessErrorCode) → KeepsBudgets {P = P} {A = A} (refuse code)
unfolding refuse
refuse_keeps P A code s w = w

pub crash_keeps : (P A : Type 0) → KeepsBudgets {P = P} {A = A} crash
unfolding crash
crash_keeps P A s w = w

pub refuse_if_keeps :
    {P : Type 0} (b : Bool) (code : RepositoryAccessErrorCode)
    → KeepsBudgets {P = P} (refuse_if b code)
unfolding refuse_if give refuse
refuse_if_keeps true code s w = w
refuse_if_keeps false code s w = w

pub call_keeps : {P A : Type 0} (f : ℕ → A) → KeepsBudgets {P = P} (call f)
unfolding call
call_keeps f s w = w

pub cached_keeps : {P : Type 0} (path : List Text) → KeepsBudgets {P = P} (cached path)
unfolding cached
cached_keeps path s w = w

pub capacity_keeps : {P : Type 0} (n : ℕ) → KeepsBudgets {P = P} (require_policy_capacity n)
unfolding require_policy_capacity
capacity_keeps n s w =
    refuse_if_keeps
      (leb max_policy_sources (length s.cache) || ltb max_policy_bytes (s.loaded_bytes + n))
      repository_policy_invalid s w

-- Matching is charged before it is done, within the budget.
module _ {P : Type 0} (library : PatternLibrary P) where
  consult_keeps :
      (patterns : List P) (relative : List Text) (ignored : Option Bool)
      → KeepsBudgets (consult library patterns relative ignored)
  unfolding consult refuse give
  consult_keeps patterns relative ignored s w =
      elim (Bool-cases (ltb max_policy_match_work (s.match_work + length patterns))) [
        | inl h ↦ ground (arith, h, w)
        | inr h ↦ elim (Option-cases (check_policy library patterns (join relative) none)) [
          | inl e ↦ ground (arith, h, e, w)
          | inr (d, e) ↦ ground (arith, h, e, w)
        ]
      ]

  fold_keeps :
      (policies : List (ScopedPolicy P)) (target : List Text) (as_directory : Bool)
      (ignored : Option Bool)
      → KeepsBudgets (fold_policies library policies target as_directory ignored)
  unfolding fold_policies
  fold_keeps [] target as_directory ignored = give_keeps ignored
  fold_keeps (p ∷ ps) target as_directory ignored = elim (Option-cases (below p.owner target)) [
    | inl e ↦ rw (e, fold_policies) (fold_keeps ps target as_directory ignored)
    | inr ([], e) ↦ rw (e, fold_policies) (fold_keeps ps target as_directory ignored)
    | inr (c ∷ cs, e) ↦
        rw (e, fold_policies)
          (bind_keeps (consult library (rules_for as_directory p.rules) (c ∷ cs) ignored)
            (fold_policies library ps target as_directory)
            (consult_keeps (rules_for as_directory p.rules) (c ∷ cs) ignored)
            (fold_keeps ps target as_directory))
  ]

  pub is_ignored_keeps :
      (policies : List (ScopedPolicy P)) (target : List Text) (as_directory : Bool)
      → KeepsBudgets (is_ignored library policies target as_directory)
  unfolding is_ignored
  is_ignored_keeps policies target as_directory =
      bind_keeps (fold_policies library policies target as_directory none)
        (λ ignored. give (is_true library ignored)) (fold_keeps policies target as_directory none)
        (λ ignored. give_keeps (is_true library ignored))
