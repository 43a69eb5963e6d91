-- ===== src/Workspace/Examples.antt =====
-- Paths of two components, and a path with a doubled slash and a ".".
use code_assist_harness.Prelude.{List, [], ◌∷◌, Text, codes, ◌≡◌, refl, text_eq}
use code_assist_harness.Utf8.{encode, encode_char, decode, decode_rounds, decode_char}
use code_assist_harness.Workspace.{
  ok, boundary_error, invalid_workspace_path, label, split, zip_strict, keep_components, is_empty,
  contains_nul, starts_with_slash, normalize_encoded, normalize_workspace_relative_path,
}
use code_assist_harness.Workspace.Labels.{IsPath, normalize-IsPath, normalize-label}

abbrev two_parts : List Text
two_parts = codes "a" ∷ codes "é" ∷ []

spelling_runs : normalize_workspace_relative_path (codes "a//./é") ≡ ok two_parts
unfolding normalize_workspace_relative_path normalize_encoded is_empty contains_nul
    starts_with_slash encode encode_char decode decode_rounds decode_char split zip_strict
    keep_components text_eq
spelling_runs = refl

parent_is_refused :
    normalize_workspace_relative_path (codes "a/../b") ≡ boundary_error invalid_workspace_path
unfolding normalize_workspace_relative_path normalize_encoded is_empty contains_nul
    starts_with_slash encode encode_char decode decode_rounds decode_char split zip_strict
    keep_components text_eq
parent_is_refused = refl

normalize-IsPath_example : IsPath two_parts
normalize-IsPath_example = normalize-IsPath (codes "a//./é") two_parts spelling_runs

normalize-label_example : normalize_workspace_relative_path (label two_parts) ≡ ok two_parts
normalize-label_example =
    normalize-label two_parts (normalize-IsPath (codes "a//./é") two_parts spelling_runs)
