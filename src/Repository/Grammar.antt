-- ===== src/Repository/Grammar.antt =====
-- The grammar of policy lines, `_validate_policy_line` and what it calls. `false` is the ValueError.
use code_assist_harness.Prelude.{
  ℕ, ◌+◌, Option, none, some, Bool, true, false, ◌&&◌, ◌||◌, not, List, [], ◌∷◌, ◌++◌, Text, ltb,
  leb, ◌==◌, text_eq, is_some, if◌then◌else◌,
}
use code_assist_harness.Workspace.{split}
use code_assist_harness.Repository.{starts_with, ends_with}

abbrev pub max_policy_stars_per_segment : ℕ
max_policy_stars_per_segment = 1

abbrev pub max_policy_active_globstars : ℕ
max_policy_active_globstars = 1

-- Digits, capital and small letters of ASCII are the groups 0, 1 and 2.
unfoldable pub ascii_range_group : ℕ → Option ℕ
ascii_range_group c =
    if leb 48 c && leb c 57
    then some 0
    else if leb 65 c && leb c 90
    then some 1
    else if leb 97 c && leb c 122
    then some 2
    else none

abbrev same_group : Option ℕ → Option ℕ → Bool
same_group (some a) (some b) = a == b
same_group _ _ = false

-- Membership in `_SAFE_POLICY_RANGE_LITERALS`.
abbrev is_safe_literal : ℕ → Bool
is_safe_literal c = c == 95 || c == 42 || c == 63 || c == 46

abbrev is_range_member : ℕ → Bool
is_range_member c = is_some (ascii_range_group c) || is_safe_literal c

-- The loop over what stands between the brackets.
unfoldable pub range_members : Text → Bool
range_members [] = true
range_members (c ∷ []) = is_range_member c
range_members (c ∷ d ∷ []) = not (d == 45) && is_range_member c && is_range_member d
range_members (c ∷ d ∷ e ∷ cs) = elim (d == 45) [
  | true ↦ same_group (ascii_range_group c) (ascii_range_group e) && leb c e && range_members cs
  | false ↦ is_range_member c && range_members (d ∷ e ∷ cs)
]

unfoldable pub validate_policy_range : Text → Bool
validate_policy_range [] = false
validate_policy_range (c ∷ cs) = not (c == 33 || c == 94 || c == 93) && range_members (c ∷ cs)

abbrev is_nonempty : Text → Bool
is_nonempty [] = false
is_nonempty (c ∷ cs) = true

-- The loop over a segment, with the stars so far and, inside brackets, what they hold so far.
unfoldable pub segment_loop : ℕ → Option Text → Text → Bool
segment_loop stars range [] = true
segment_loop stars (some held) (c ∷ cs) = elim (c == 93 && is_nonempty held) [
  | true ↦ validate_policy_range held && segment_loop stars none cs
  | false ↦ segment_loop stars (some (held ++ c ∷ [])) cs
]
segment_loop stars none (c ∷ []) =
    not (c == 63) && not (c == 42 && ltb max_policy_stars_per_segment (stars + 1))
segment_loop stars none (c ∷ d ∷ cs) = elim (c == 92) [
  | true ↦ segment_loop stars none cs
  | false ↦ elim (c == 91) [
    | true ↦ segment_loop stars (some []) (d ∷ cs)
    | false ↦ elim (c == 42) [
      | true ↦
          not (ltb max_policy_stars_per_segment (stars + 1))
          && segment_loop (stars + 1) none (d ∷ cs)
      | false ↦ not (c == 63) && segment_loop stars none (d ∷ cs)
    ]
  ]
]

unfoldable pub validate_policy_segment : Text → Bool
validate_policy_segment segment = segment_loop 0 none segment

-- The index of the last segment that is not empty, of those from an index on.
unfoldable pub last_nonempty : ℕ → List Text → Option ℕ
last_nonempty i [] = none
last_nonempty i ([] ∷ ts) = last_nonempty (i + 1) ts
last_nonempty i ((c ∷ cs) ∷ ts) = elim (last_nonempty (i + 1) ts) [
  | none ↦ some i
  | some j ↦ some j
]

abbrev is_active : ℕ → Option ℕ → Bool → Bool
is_active i none trailing = false
is_active i (some last) trailing = ltb i last || i == last && trailing

-- The loop over the segments, with the active globstars so far.
unfoldable pub segments_loop : ℕ → ℕ → Option ℕ → Bool → List Text → Bool
segments_loop i active last trailing [] = true
segments_loop i active last trailing (t ∷ ts) = elim (text_eq t (42 ∷ 42 ∷ [])) [
  | false ↦ validate_policy_segment t && segments_loop (i + 1) active last trailing ts
  | true ↦ elim (is_active i last trailing) [
    | false ↦ segments_loop (i + 1) active last trailing ts
    | true ↦
        not (ltb max_policy_active_globstars (active + 1))
        && segments_loop (i + 1) (active + 1) last trailing ts
  ]
]

abbrev without_bang : Text → Text
without_bang [] = []
without_bang (c ∷ cs) = if c == 33 then cs else c ∷ cs

unfoldable pub validate_policy_line : Text → Bool
validate_policy_line line =
    let body = without_bang line in
    let segments = split body in
    not (is_nonempty line)
    || starts_with (35 ∷ []) line
    || text_eq line (47 ∷ [])
    || segments_loop 0 0 (last_nonempty 0 segments) (ends_with (47 ∷ 47 ∷ []) body) segments
