-- ===== src/Repository/Lines.antt =====
-- The lines of a policy source: `_normalize_policy_line`, `_directory_pattern`, and the rules that
-- `_compile_policy_rules` makes of them. The patterns that pathspec
-- makes of lines are given.
use code_assist_harness.Prelude.{
  ℕ, ◌+◌, Option, none, some, Bool, true, false, ◌&&◌, ◌||◌, not, List, [], ◌∷◌, Text, ◌==◌, take,
  text_eq, if◌then◌else◌,
}
use code_assist_harness.Repository.Grammar.{validate_policy_line}
use code_assist_harness.Repository.{PolicyRules, starts_with, ends_with}

abbrev pub backslash : ℕ
backslash = 92

-- `line[:-1]` of a line that ends with a carriage return.
unfoldable pub strip_cr : Text → Text
strip_cr [] = []
strip_cr (c ∷ []) = if c == 13 then [] else c ∷ []
strip_cr (c ∷ d ∷ cs) = c ∷ strip_cr (d ∷ cs)

abbrev pub trailing_at : ℕ → Option ℕ → Option ℕ
trailing_at i none = some i
trailing_at i (some j) = some j

-- The loop over a line, from the index and the start of the trailing spaces on. `none` is the early
-- return, at a backslash that ends the line.
unfoldable pub scan_spaces : ℕ → Option ℕ → Text → Option (Option ℕ)
scan_spaces i trailing [] = some trailing
scan_spaces i trailing (c ∷ []) =
    if c == backslash then none else some (if c == 32 then trailing_at i trailing else none)
scan_spaces i trailing (c ∷ d ∷ cs) = elim (c == backslash) [
  | true ↦ scan_spaces (i + 2) none cs
  | false ↦ scan_spaces (i + 1) (if c == 32 then trailing_at i trailing else none) (d ∷ cs)
]

unfoldable pub normalize_policy_line : Text → Text
normalize_policy_line line = elim (scan_spaces 0 none (strip_cr line)) [
  | none ↦ strip_cr line
  | some none ↦ strip_cr line
  | some (some i) ↦ take i (strip_cr line)
]

abbrev tail_of : Text → Text
tail_of [] = []
tail_of (c ∷ cs) = cs

abbrev but_last : Text → Text
but_last [] = []
but_last (c ∷ []) = []
but_last (c ∷ d ∷ cs) = c ∷ but_last (d ∷ cs)

unfoldable pub directory_pattern : Text → Text
directory_pattern line =
    let body = if starts_with (33 ∷ []) line then tail_of line else line in
    if text_eq body (47 ∷ []) || ends_with (47 ∷ 47 ∷ []) body || not (ends_with (47 ∷ []) body)
    then line
    else but_last line

abbrev pub nonempty_lines : List Text → List Text
nonempty_lines [] = []
nonempty_lines ([] ∷ ls) = nonempty_lines ls
nonempty_lines ((c ∷ cs) ∷ ls) = (c ∷ cs) ∷ nonempty_lines ls

abbrev pub normalized : List Text → List Text
normalized [] = []
normalized (l ∷ ls) = normalize_policy_line l ∷ normalized ls

-- `GitIgnoreSpec.from_lines`, which may raise, and the attributes of a pattern. `pattern_include` is
-- `none` for a pattern that does nothing.
pub record PatternLibrary (P : Type 0) : Type 0 where
  pub from_lines : List Text → Option (List P)
  pub pattern_text : P → Text
  pub pattern_include : P → Option Bool
  -- `match_file`: no match, or one, and whether it is of a directory's contents; `none` raises.
  pub match_file : P → Text → Option (Option Bool)

abbrev all_valid : List Text → Bool
all_valid [] = true
all_valid (l ∷ ls) = validate_policy_line l && all_valid ls

module _ {P : Type 0} (library : PatternLibrary P) where
  -- The first `zip`: each pattern keeps its line, and the lines for directories.
  unfoldable pub directory_lines : List Text → List P → Option (List Text)
  directory_lines [] [] = some []
  directory_lines (l ∷ ls) (p ∷ ps) =
      let rest = directory_lines ls ps in
      if not (text_eq (library.pattern_text p) l) then none else elim rest [
        | none ↦ none
        | some ds ↦
            some
              ((elim (library.pattern_include p) [ none ↦ l | some b ↦ directory_pattern l ]) ∷ ds)
      ]
  directory_lines _ _ = none

  abbrev same_include : Option Bool → Option Bool → Bool
  same_include none none = true
  same_include (some true) (some true) = true
  same_include (some false) (some false) = true
  same_include _ _ = false

  -- The second `zip`.
  unfoldable pub identities_kept : List Text → List P → List P → Bool
  identities_kept [] [] [] = true
  identities_kept (l ∷ ls) (o ∷ os) (d ∷ ds) =
      text_eq (library.pattern_text d) l
      && same_include (library.pattern_include d) (library.pattern_include o)
      && identities_kept ls os ds
  identities_kept _ _ _ = false

  -- `none` is an exception.
  unfoldable pub compile_policy_rules : List Text → Option (PolicyRules P)
  compile_policy_rules lines =
      if not (all_valid (normalized lines))
      then none
      else elim (library.from_lines (normalized lines)) [
        | none ↦ none
        | some file_rules ↦ elim (directory_lines (nonempty_lines (normalized lines)) file_rules) [
          | none ↦ none
          | some ds ↦ elim (library.from_lines ds) [
            | none ↦ none
            | some directory_rules ↦
                if identities_kept ds file_rules directory_rules
                then some (record { file_rules = file_rules; directory_rules = directory_rules })
                else none
          ]
        ]
      ]
