-- ===== src/Workspace.antt =====
-- workspace.py: the lexical admission of a workspace-relative path. The resolution of paths against
-- a file system is in Workspace/Boundary.antt.
pub mod Split
pub mod Lexical
pub mod Components
pub mod Labels
pub mod Boundary
mod Examples
use code_assist_harness.Prelude.{
  ℕ, suc, ◌+◌, Option, none, some, Bool, true, false, ◌||◌, not, List, [], ◌∷◌, ◌++◌, Text, codes,
  ltb, ◌==◌, length, text_eq, if◌then◌else◌,
}
use code_assist_harness.Utf8.{encode, decode}

pub data BoundaryErrorCode : Type 0 where
  invalid_workspace_root stale_workspace_root invalid_workspace_path : BoundaryErrorCode
  workspace_path_not_found workspace_path_outside : BoundaryErrorCode

-- A value, a `WorkspaceBoundaryError`, or the ValueError of `zip(…, strict=True)`.
pub data Result {ℓ} (A : Type ℓ) : Type ℓ where
  ok : A → Result A
  boundary_error : BoundaryErrorCode → Result A
  zip_error : Result A

abbrev pub max_raw_path_bytes : ℕ
max_raw_path_bytes = 4095

abbrev pub max_components : ℕ
max_components = 256

abbrev pub max_component_bytes : ℕ
max_component_bytes = 255

abbrev pub slash : ℕ
slash = 47

abbrev pub dot : Text
dot = 46 ∷ []

abbrev pub dot_dot : Text
dot_dot = 46 ∷ 46 ∷ []

unfoldable pub is_empty : Text → Bool
is_empty [] = true
is_empty (c ∷ cs) = false

-- `"\x00" in value`.
unfoldable pub contains_nul : Text → Bool
contains_nul [] = false
contains_nul (c ∷ cs) = c == 0 || contains_nul cs

unfoldable pub starts_with_slash : Text → Bool
starts_with_slash [] = false
starts_with_slash (c ∷ cs) = c == slash

-- Puts a character in front of the first part of a split.
abbrev pub into_first : ℕ → List (List ℕ) → List (List ℕ)
into_first c [] = (c ∷ []) ∷ []
into_first c (p ∷ ps) = (c ∷ p) ∷ ps

-- `value.split("/")`, of a text or of bytes: never empty, and empty parts are kept.
unfoldable pub split : List ℕ → List (List ℕ)
split [] = [] ∷ []
split (c ∷ cs) = if c == slash then [] ∷ split cs else into_first c (split cs)

-- `zip(…, strict=True)`; `none` when one side is longer.
unfoldable pub zip_strict : List Text → List (List ℕ) → Option (List (Text × List ℕ))
zip_strict [] [] = some []
zip_strict (x ∷ xs) (y ∷ ys) = elim (zip_strict xs ys) [
  | none ↦ none
  | some zs ↦ some ((x, y) ∷ zs)
]
zip_strict _ _ = none

-- The loop over the components, with those that are kept so far.
unfoldable pub keep_components : List (Text × List ℕ) → List Text → Result (List Text)
keep_components [] kept = ok kept
keep_components ((component, bytes) ∷ rest) kept =
    let next = keep_components rest kept in
    let longer = keep_components rest (kept ++ component ∷ []) in
    if is_empty component || text_eq component dot
    then next
    else if text_eq component dot_dot || ltb max_component_bytes (length bytes)
    then boundary_error invalid_workspace_path
    else if ltb max_components (length (kept ++ component ∷ []))
    then boundary_error invalid_workspace_path
    else longer

abbrev pub round_trips : Text → List ℕ → Bool
round_trips value encoded = elim (decode encoded) [ none ↦ false | some t ↦ text_eq t value ]

-- The tests on the encoded value, and the loop.
unfoldable pub normalize_encoded : Text → List ℕ → Result (List Text)
unfolding contains_nul starts_with_slash
normalize_encoded value encoded =
    if ltb max_raw_path_bytes (length encoded)
      || not (round_trips value encoded)
      || contains_nul value
      || starts_with_slash value
    then boundary_error invalid_workspace_path
    else elim (zip_strict (split value) (split encoded)) [
      | none ↦ zip_error
      | some pairs ↦ keep_components pairs []
    ]

-- The value is an exact `str`, as the type says.
unfoldable pub normalize_workspace_relative_path : Text → Result (List Text)
unfolding is_empty normalize_encoded
normalize_workspace_relative_path value =
    if is_empty value || ltb max_raw_path_bytes (length value)
    then boundary_error invalid_workspace_path
    else elim (encode value) [
      | none ↦ boundary_error invalid_workspace_path
      | some encoded ↦ normalize_encoded value encoded
    ]

abbrev pub join : List Text → Text
join [] = []
join (c ∷ []) = c
join (c ∷ d ∷ cs) = c ++ slash ∷ join (d ∷ cs)

-- "." for the root, and the components joined by slashes for any other path.
unfoldable pub label : List Text → Text
label [] = dot
label (c ∷ cs) = join (c ∷ cs)
