-- ===== src/Repository/Ignore.antt =====
-- Whether the policies ignore a path: `_check_policy` and `_is_ignored`.
use code_assist_harness.Prelude.{
  ◌+◌, Option, none, some, Bool, true, false, List, [], ◌∷◌, Text, ltb, length, text_eq,
  if◌then◌else◌,
}
use code_assist_harness.Workspace.{join}
use code_assist_harness.Repository.{
  PolicyRules, ScopedPolicy, Act, give, refuse, ◌>>=◌, repository_policy_invalid,
  max_policy_match_work,
}
use code_assist_harness.Repository.Lines.{PatternLibrary}

-- `target[len(owner):]` when the target starts with the owner.
unfoldable pub below : List Text → List Text → Option (List Text)
below [] target = some target
below (o ∷ os) [] = none
below (o ∷ os) (t ∷ ts) = elim (text_eq o t) [ true ↦ below os ts | false ↦ none ]

abbrev pub rules_for : {P : Type 0} → Bool → PolicyRules P → List P
rules_for true rules = rules.directory_rules
rules_for false rules = rules.file_rules

module _ {P : Type 0} (library : PatternLibrary P) where
  -- The loop of `_check_policy` with the decision so far; `none` is an exception of a match.
  unfoldable pub check_policy : List P → Text → Option Bool → Option (Option Bool)
  check_policy [] label decision = some decision
  check_policy (p ∷ ps) label decision = elim (library.pattern_include p) [
    | none ↦ check_policy ps label decision
    | some include ↦ elim (library.match_file p label) [
      | none ↦ none
      | some none ↦ check_policy ps label decision
      | some (some true) ↦ check_policy ps label decision
      | some (some false) ↦ check_policy ps label (some include)
    ]
  ]

  abbrev pub later : Option Bool → Option Bool → Option Bool
  later ignored none = ignored
  later ignored (some decision) = some decision

  -- One policy whose owner is above the target.
  unfoldable pub consult : List P → List Text → Option Bool → Act P (Option Bool)
  consult patterns relative ignored s =
      if ltb max_policy_match_work (s.match_work + length patterns)
      then refuse repository_policy_invalid s
      else let charged = record s { match_work = s.match_work + length patterns } in
        elim (check_policy patterns (join relative) none) [
          | none ↦ refuse repository_policy_invalid charged
          | some decision ↦ give (later ignored decision) charged
        ]

  unfoldable pub fold_policies :
      List (ScopedPolicy P) → List Text → Bool → Option Bool → Act P (Option Bool)
  fold_policies [] target is_directory ignored = give ignored
  fold_policies (p ∷ ps) target is_directory ignored = elim (below p.owner target) [
    | none ↦ fold_policies ps target is_directory ignored
    | some [] ↦ fold_policies ps target is_directory ignored
    | some (c ∷ cs) ↦ consult (rules_for is_directory p.rules) (c ∷ cs) ignored >>= λ decision.
        fold_policies ps target is_directory decision
  ]

  abbrev pub is_true : Option Bool → Bool
  is_true (some true) = true
  is_true _ = false

  unfoldable pub is_ignored : List (ScopedPolicy P) → List Text → Bool → Act P Bool
  is_ignored policies target is_directory =
      fold_policies policies target is_directory none >>= λ ignored. give (is_true ignored)
