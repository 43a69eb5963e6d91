-- ===== src/Repository/Verdicts.antt =====
-- What the policies answer: the last pattern that matches a path decides, whatever the budgets.
use code_assist_harness.Prelude.{
  ◌+◌, Option, none, some, Bool, true, false, List, [], ◌∷◌, ◌++◌, Text, ltb, length, ◌≡◌, refl,
  sym, ap, ◌∙◌, inl, inr, arith, Bool-cases, Option-cases,
}
use code_assist_harness.Workspace.{join}
use code_assist_harness.Repository.{
  max_policy_match_work, found, ScopedPolicy, AdmissionState, give, refuse, RepositoryPathKind,
  file, directory,
}
use code_assist_harness.Repository.Lines.{PatternLibrary}
use code_assist_harness.Repository.Ignore.{
  below, rules_for, check_policy, later, consult, fold_policies, is_ignored, is_true,
}
use code_assist_harness.Repository.Admission.{RepositoryHost}
use code_assist_harness.Repository.Policies.{prepare_ignore_view, view_of, ignored_as}
use code_assist_harness.Repository.Bound.{found_bind, found_then, found_give}

-- The last of some decisions, or the one before them.
abbrev last_or : Option Bool → List Bool → Option Bool
last_or d [] = d
last_or d (b ∷ bs) = last_or (some b) bs

last_or-append :
    (d : Option Bool) (xs ys : List Bool) → last_or d (xs ++ ys) ≡ last_or (last_or d xs) ys
last_or-append d [] ys = refl
last_or-append d (x ∷ xs) ys = last_or-append (some x) xs ys

abbrev pub is_directory : RepositoryPathKind → Bool
is_directory file = false
is_directory directory = true

module _ {P : Type 0} (library : PatternLibrary P) where
  later-last_or :
      (d : Option Bool) (xs : List Bool) → later library d (last_or none xs) ≡ last_or d xs
  later-last_or d [] = refl
  later-last_or d (x ∷ []) = refl
  later-last_or d (x ∷ y ∷ xs) = later-last_or d (y ∷ xs)

  -- What a pattern decides about a path that it matches.
  abbrev decision_of : P → Option Bool → Option (Option Bool) → List Bool
  decision_of p (some include) (some (some false)) = include ∷ []
  decision_of p _ _ = []

  -- The decisions of the patterns that match, in their order.
  abbrev decisions_of : List P → Text → List Bool
  decisions_of [] label = []
  decisions_of (p ∷ ps) label =
      decision_of p (library.pattern_include p) (library.match_file p label)
      ++ decisions_of ps label

  abbrev decisions_below : List P → Option (List Text) → List Bool
  decisions_below patterns (some (c ∷ cs)) = decisions_of patterns (join (c ∷ cs))
  decisions_below patterns _ = []

  -- The same for policies: each is asked about the path below its owner.
  abbrev pub decisions : List (ScopedPolicy P) → List Text → Bool → List Bool
  decisions [] target as_directory = []
  decisions (p ∷ ps) target as_directory =
      decisions_below (rules_for as_directory p.rules) (below p.owner target)
      ++ decisions ps target as_directory

  -- Ignored is a path for which the last pattern that matches says so.
  abbrev pub last_decision : List (ScopedPolicy P) → List Text → Bool → Bool
  last_decision policies target as_directory =
      is_true library (last_or none (decisions policies target as_directory))

  check_policy-last_or :
      (ps : List P) (label : Text) (d x : Option Bool)
      → check_policy library ps label d ≡ some x
      → x ≡ last_or d (decisions_of ps label)
  unfolding check_policy
  check_policy-last_or [] label d x h = ground (arith, h)
  check_policy-last_or (p ∷ ps) label d x h = elim (Option-cases (library.pattern_include p)) [
    | inl e ↦ rw e (check_policy-last_or ps label d x (ground (arith, e, h)))
    | inr (include, e) ↦ elim (Option-cases (library.match_file p label)) [
      | inl f ↦ absurd (ground (arith, e, f, h))
      | inr (none, f) ↦ rw (e, f) (check_policy-last_or ps label d x (ground (arith, e, f, h)))
      | inr (some true, f) ↦ rw (e, f) (check_policy-last_or ps label d x (ground (arith, e, f, h)))
      | inr (some false, f) ↦
          rw (e, f) (check_policy-last_or ps label (some include) x (ground (arith, e, f, h)))
    ]
  ]

  consult-last_or :
      (patterns : List P) (relative : List Text) (ignored d : Option Bool) (s t : AdmissionState P)
      → consult library patterns relative ignored s ≡ (t, found d)
      → d ≡ last_or ignored (decisions_of patterns (join relative))
  unfolding consult refuse give
  consult-last_or patterns relative ignored d s t h =
      elim (Bool-cases (ltb max_policy_match_work (s.match_work + length patterns))) [
        | inl g ↦ absurd (ground (arith, g, h))
        | inr g ↦ elim (Option-cases (check_policy library patterns (join relative) none)) [
          | inl e ↦ absurd (ground (arith, g, e, h))
          | inr (x, e) ↦
              let f : d ≡ later library ignored x = ground (arith, g, e, h) in
              f
              ∙ ap (later library ignored) (check_policy-last_or patterns (join relative) none x e)
              ∙ later-last_or ignored (decisions_of patterns (join relative))
        ]
      ]

  fold-last_or :
      (policies : List (ScopedPolicy P)) (target : List Text) (as_directory : Bool)
      (ignored d : Option Bool) (s t : AdmissionState P)
      → fold_policies library policies target as_directory ignored s ≡ (t, found d)
      → d ≡ last_or ignored (decisions policies target as_directory)
  unfolding fold_policies give
  fold-last_or [] target as_directory ignored d s t h = ground (arith, h)
  fold-last_or (p ∷ ps) target as_directory ignored d s t h =
      elim (Option-cases (below p.owner target)) [
        | inl e ↦ rw e (fold-last_or ps target as_directory ignored d s t (ground (arith, e, h)))
        | inr ([], e) ↦
            rw e (fold-last_or ps target as_directory ignored d s t (ground (arith, e, h)))
        | inr (c ∷ cs, e) ↦
            let patterns = rules_for as_directory p.rules in
            let (x, u, f, g) =
              found_bind (consult library patterns (c ∷ cs) ignored)
                (fold_policies library ps target as_directory) s t d (ground (arith, e, h)) in
            rw e (
              fold-last_or ps target as_directory x d u t g
              ∙ ap (λ y. last_or y (decisions ps target as_directory))
                  (consult-last_or patterns (c ∷ cs) ignored x s u f)
              ∙ sym (
                  last_or-append ignored (decisions_of patterns (join (c ∷ cs)))
                    (decisions ps target as_directory)))
      ]

  is_ignored-last_decision :
      (policies : List (ScopedPolicy P)) (target : List Text) (as_directory b : Bool)
      (s t : AdmissionState P)
      → is_ignored library policies target as_directory s ≡ (t, found b)
      → b ≡ last_decision policies target as_directory
  unfolding is_ignored
  is_ignored-last_decision policies target as_directory b s t h =
      let (x, u, f, g) =
        found_bind (fold_policies library policies target as_directory none)
          (λ ignored. give (is_true library ignored)) s t b h in
      found_give _ u t b g
      ∙ ap (is_true library) (fold-last_or policies target as_directory none x s u f)

module _ {P : Type 0} (library : PatternLibrary P) (host : RepositoryHost) where
  answer_of :
      (policies : List (ScopedPolicy P)) (c : List Text) (answers : Bool × Bool)
      → answers.0 ≡ last_decision library policies c false
      → answers.1 ≡ last_decision library policies c true
      → (kind : RepositoryPathKind)
      → ignored_as kind answers ≡ last_decision library policies c (is_directory kind)
  answer_of policies c answers f d file = f
  answer_of policies c answers f d directory = d

  -- The answers of a view are the last decisions of the policies that it loads.
  pub view_found :
      (c : List Text) (answers : Bool × Bool) (s t : AdmissionState P)
      → view_of library host c s ≡ (t, found answers)
      → (policies : List (ScopedPolicy P)) × (u : AdmissionState P) × (prepare_ignore_view library
            host c s
          ≡ (u, found policies))
        × ((kind : RepositoryPathKind)
            → ignored_as kind answers ≡ last_decision library policies c (is_directory kind))
  unfolding view_of
  view_found c answers s t h =
      let (policies, u, e, h1) = found_bind _ _ s t answers h in
      let (f, v, e1, h2) = found_bind _ _ u t answers h1 in
      let (d, w, e2, h3) = found_bind _ _ v t answers h2 in
      let (i, h4) = found_then _ _ _ w t answers h3 in
      let a = found_give (f, d) w t answers h4 in
      let as_file = is_ignored-last_decision library policies c false f u v e1 in
      let as_directory = is_ignored-last_decision library policies c true d v w e2 in
      (
        policies,
        u,
        e,
        answer_of policies c answers (ap (λ x. x.0) a ∙ as_file) (ap (λ x. x.1) a ∙ as_directory),
      )
