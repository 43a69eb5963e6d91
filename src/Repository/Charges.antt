-- ===== src/Repository/Charges.antt =====
-- What the budgets count: every pattern that is matched, and every byte that is loaded.
use code_assist_harness.Prelude.{
  ℕ, ◌+◌, ◌≤◌, Option, none, some, Bool, List, [], ◌∷◌, Text, ltb, length, ◌≡◌, inl, inr, arith,
  Bool-cases, Option-cases,
}
use code_assist_harness.Workspace.{join}
use code_assist_harness.Repository.{
  max_policy_match_work, found, ScopedPolicy, AdmissionState, give, refuse,
}
use code_assist_harness.Repository.Lines.{PatternLibrary}
use code_assist_harness.Repository.Ignore.{
  below, rules_for, check_policy, consult, fold_policies, is_ignored, is_true,
}
use code_assist_harness.Repository.Admission.{RepositoryHost}
use code_assist_harness.Repository.Budgets.{IsWithin, is_ignored_keeps}
use code_assist_harness.Repository.Spending.{admit_all, admission_budgets}
use code_assist_harness.Repository.Bound.{found_bind}

-- The patterns of a policy whose owner lies above the target.
abbrev patterns_of : {P : Type 0} → Option (List Text) → List P → ℕ
patterns_of (some (c ∷ cs)) patterns = length patterns
patterns_of _ patterns = 0

abbrev pub patterns_above : {P : Type 0} → List (ScopedPolicy P) → List Text → Bool → ℕ
patterns_above [] target as_directory = 0
patterns_above (p ∷ ps) target as_directory =
    patterns_of (below p.owner target) (rules_for as_directory p.rules)
    + patterns_above ps target as_directory

module _ {P : Type 0} (library : PatternLibrary P) where
  consult_charged :
      (patterns : List P) (relative : List Text) (ignored d : Option Bool) (s t : AdmissionState P)
      → consult library patterns relative ignored s ≡ (t, found d)
      → t.match_work ≡ s.match_work + length patterns
  unfolding consult refuse give
  consult_charged patterns relative ignored d s t h =
      elim (Bool-cases (ltb max_policy_match_work (s.match_work + length patterns))) [
        | inl g ↦ absurd (ground (arith, g, h))
        | inr g ↦ elim (Option-cases (check_policy library patterns (join relative) none)) [
          | inl e ↦ absurd (ground (arith, g, e, h))
          | inr (x, e) ↦ ground (arith, g, e, h)
        ]
      ]

  fold_charged :
      (policies : List (ScopedPolicy P)) (target : List Text) (as_directory : Bool)
      (ignored d : Option Bool) (s t : AdmissionState P)
      → fold_policies library policies target as_directory ignored s ≡ (t, found d)
      → t.match_work ≡ s.match_work + patterns_above policies target as_directory
  unfolding fold_policies give
  fold_charged [] target as_directory ignored d s t h = ground (arith, h)
  fold_charged (p ∷ ps) target as_directory ignored d s t h =
      elim (Option-cases (below p.owner target)) [
        | inl e ↦ ground (arith, e, h, fold_charged ps target as_directory ignored d s t)
        | inr ([], e) ↦ ground (arith, e, h, fold_charged ps target as_directory ignored d s t)
        | inr (c ∷ cs, e) ↦
            let patterns = rules_for as_directory p.rules in
            let (x, u, f, g) =
              found_bind (consult library patterns (c ∷ cs) ignored)
                (fold_policies library ps target as_directory) s t d (ground (arith, e, h)) in
            ground (
              arith,
              e,
              consult_charged patterns (c ∷ cs) ignored x s u f,
              fold_charged ps target as_directory x d u t g,
            )
      ]

  is_ignored_charged :
      (policies : List (ScopedPolicy P)) (target : List Text) (as_directory b : Bool)
      (s t : AdmissionState P)
      → is_ignored library policies target as_directory s ≡ (t, found b)
      → t.match_work ≡ s.match_work + patterns_above policies target as_directory
  unfolding is_ignored give
  is_ignored_charged policies target as_directory b s t h =
      let (x, u, f, g) =
        found_bind (fold_policies library policies target as_directory none)
          (λ ignored. give (is_true library ignored)) s t b h in
      ground (arith, g, fold_charged policies target as_directory none x s u f)

module _ {P : Type 0} (library : PatternLibrary P) (host : RepositoryHost) where
  -- However many paths one decision admits or refuses before it, a question whether some policies
  -- ignore a path, once answered, has charged every pattern of the policies whose owners lie above the
  -- path, and the patterns charged so far are at most 65536.
  pub matching_budget :
      (paths : List Text) (s t : AdmissionState P) (policies : List (ScopedPolicy P))
      (target : List Text) (as_directory b : Bool)
      → IsWithin s
      → is_ignored library policies target as_directory (admit_all library host paths s)
        ≡ (t, found b)
      → (t.match_work
          ≡ (admit_all library host paths s).match_work
            + patterns_above policies target as_directory)
        × (t.match_work ≤ max_policy_match_work)
  matching_budget paths s t policies target as_directory b w h =
      let v = admit_all library host paths s in
      (
        is_ignored_charged library policies target as_directory b v t h,
        ground (
          arith,
          h,
          is_ignored_keeps library policies target as_directory v
              (admission_budgets library host paths s w),
        ),
      )
