-- ===== src/Workspace/Boundary/Examples.antt =====
-- A file system that never changes: "/w" is the workspace, and "/w/l" is a link to "/o".
use code_assist_harness.Prelude.{
  ℕ, some, true, false, List, [], ◌∷◌, ◌++◌, Text, codes, ◌≡◌, ◌⊎◌, ◌↔◌, refl, text_eq,
  if◌then◌else◌,
}
use code_assist_harness.Utf8.{encode, encode_char, decode, decode_rounds, decode_char}
use code_assist_harness.Workspace.{
  ok, boundary_error, stale_workspace_root, workspace_path_outside, label, split, zip_strict,
  keep_components, is_empty, contains_nul, starts_with_slash, normalize_encoded,
  normalize_workspace_relative_path,
}
use code_assist_harness.Workspace.Boundary.{
  FileSystem, WorkspaceBoundary, ResolvedWorkspacePath, path_eq, relative_to, is_relative_to,
  is_current_root, resolve_target, snapshot_of, settle, resolve_existing,
}
use code_assist_harness.Workspace.Boundary.Containment.{stop, Contained, resolve_existing-Contained}
use code_assist_harness.Workspace.Boundary.Escape.{escape_is_outside, stale_root_iff}

abbrev follow : List Text → List Text
follow path = if path_eq path (codes "w" ∷ codes "l" ∷ []) then codes "o" ∷ [] else path

abbrev linked : FileSystem
linked = record {
  resolve_strict = λ n path. some (follow path);
  resolve_lenient = λ n path. some (follow path);
  status = λ n path. some record { is_directory = true; device = 1; inode = 7 };
}

abbrev workspace : WorkspaceBoundary
workspace = record { root = codes "w" ∷ []; root_device = 1; root_inode = 7 }

abbrev replaced : WorkspaceBoundary
replaced = record { root = codes "w" ∷ []; root_device = 1; root_inode = 8 }

abbrev inner : ResolvedWorkspacePath
inner = record {
  absolute_path = codes "w" ∷ codes "a" ∷ codes "b" ∷ [];
  relative_path = codes "a" ∷ codes "b" ∷ [];
}

inner_runs : resolve_existing linked workspace 0 (codes "a/b") ≡ ok inner
unfolding resolve_existing settle snapshot_of resolve_target relative_to path_eq is_current_root
    label normalize_workspace_relative_path normalize_encoded is_empty contains_nul
    starts_with_slash encode encode_char decode decode_rounds decode_char split zip_strict
    keep_components text_eq
inner_runs = refl

resolve_existing-Contained_example : Contained linked workspace 0 (codes "a/b") inner
resolve_existing-Contained_example =
    resolve_existing-Contained linked workspace 0 (codes "a/b") inner inner_runs

names_link : normalize_workspace_relative_path (codes "l/a") ≡ ok ([] ++ codes "l" ∷ codes "a" ∷ [])
unfolding normalize_workspace_relative_path normalize_encoded is_empty contains_nul
    starts_with_slash encode encode_char decode decode_rounds decode_char split zip_strict
    keep_components text_eq
names_link = refl

current : (n : ℕ) → is_current_root linked workspace n ≡ true
unfolding is_current_root path_eq text_eq
current n = refl

link_leads : linked.resolve_strict 2 ((codes "w" ∷ []) ++ codes "l" ∷ []) ≡ some (codes "o" ∷ [])
unfolding path_eq text_eq
link_leads = refl

other_is_outside : is_relative_to (codes "o" ∷ []) (codes "w" ∷ []) ≡ false
unfolding relative_to text_eq
other_is_outside = refl

escape_is_outside_example :
    resolve_existing linked workspace 0 (codes "l/a") ≡ boundary_error workspace_path_outside
escape_is_outside_example =
    escape_is_outside linked workspace 0 2 (codes "l/a") [] (codes "a" ∷ []) (codes "w" ∷ [])
      (codes "o" ∷ []) (codes "l") names_link (current 0) stop link_leads other_is_outside
      (current 3)

stale_root_iff_example :
    (resolve_existing linked replaced 0 (codes "a/b") ≡ boundary_error stale_workspace_root)
    ↔ (comps : List Text) × (normalize_workspace_relative_path (codes "a/b") ≡ ok comps)
      × ((is_current_root linked replaced 0 ≡ false)
          ⊎ (is_current_root linked replaced
                (resolve_target linked replaced 2 (codes "w" ∷ []) comps).1
              ≡ false))
stale_root_iff_example = stale_root_iff linked replaced 0 (codes "a/b")
