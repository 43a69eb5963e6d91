-- ===== src/Workspace/Lexical.antt =====
-- What `normalize_workspace_relative_path` admits, and the labels it is applied to again.
use code_assist_harness.Prelude.{
  ℕ, suc, ◌+◌, ◌≤◌, some, true, false, List, [], ◌∷◌, ◌++◌, Text, ◌≡◌, ◌≢◌, ◌⊎◌, inl, inr, refl,
  arith, length, All, Bool-cases, Option-cases, text_eq_iff, text_eq_refl, ltb,
}
use code_assist_harness.Utf8.{encode}
use code_assist_harness.Utf8.RoundTrip.{decode-encode, length-encode}
use code_assist_harness.Workspace.{
  slash, split, into_first, zip_strict, dot, dot_dot, ok, boundary_error, invalid_workspace_path,
  keep_components, normalize_encoded, normalize_workspace_relative_path, contains_nul,
  starts_with_slash, is_empty, round_trips, max_components, max_component_bytes, max_raw_path_bytes,
}
use code_assist_harness.Workspace.Split.{split-cases}

-- A component of a normalized path.
pub data IsComponent : Text → Type 0 where
  component :
      {t bs : Text}
      → t ≢ []
      → t ≢ dot
      → t ≢ dot_dot
      → All (λ c. (c ≢ slash) × (c ≢ 0)) t
      → encode t ≡ some bs
      → length bs ≤ max_component_bytes
      → IsComponent t

-- The bytes of the parts, with a separator for each.
unfoldable pub total : List (List ℕ) → ℕ
total [] = 0
total (p ∷ ps) = suc (length p) + total ps

total-into_first :
    (c : ℕ) (ps : List (List ℕ)) → 1 ≤ total ps → total (into_first c ps) ≡ suc (total ps)
unfolding total
total-into_first c [] h = absurd (omega arith)
total-into_first c (p ∷ ps) h = omega arith

pub total-split : (cs : List ℕ) → total (split cs) ≡ suc (length cs)
unfolding total
total-split [] = unfold split in refl
total-split (c ∷ cs) = elim (split-cases c cs) [
  | inl (e, f) ↦ rw (f, total-split cs) (omega arith)
  | inr (n, f) ↦
      rw (f, total-into_first c (split cs) (ground (arith, total-split cs)), total-split cs)
        (omega arith)
]

-- No part has a slash, and no part has a NUL that the text has not.
abbrev pub Clean : List ℕ → Type 0
Clean = All (λ c. (c ≢ slash) × (c ≢ 0))

Clean-into_first :
    (c : ℕ) (ps : List (List ℕ)) → c ≢ slash → c ≢ 0 → All Clean ps → All Clean (into_first c ps)
Clean-into_first c [] n z h = (((n, z), _), _)
Clean-into_first c (p ∷ ps) n z h = (((n, z), h.0), h.1)

pub split-Clean : (cs : List ℕ) → contains_nul cs ≡ false → All Clean (split cs)
unfolding contains_nul
split-Clean [] h = unfold split in (_, _)
split-Clean (c ∷ cs) h = elim (split-cases c cs) [
  | inl (e, f) ↦ rw f (_, split-Clean cs (ground (arith, h)))
  | inr (n, f) ↦
      rw f
        (Clean-into_first c (split cs) n (ground (arith, h)) (split-Clean cs (ground (arith, h))))
]

-- The tests on a value that is admitted, and on its bytes.
pub data IsAdmitted : Text → Text → Type 0 where
  admitted :
      {v bs : Text}
      → v ≢ []
      → encode v ≡ some bs
      → length bs ≤ max_raw_path_bytes
      → contains_nul v ≡ false
      → starts_with_slash v ≡ false
      → IsAdmitted v bs

round_trips-encode : (v bs : Text) → encode v ≡ some bs → round_trips v bs ≡ true
round_trips-encode v bs e = rw (round_trips, decode-encode v bs e) (text_eq_refl v)

normalize_encoded-admitted :
    (v bs : Text) (ps : List (Text × List ℕ))
    → IsAdmitted v bs
    → zip_strict (split v) (split bs) ≡ some ps
    → normalize_encoded v bs ≡ keep_components ps []
unfolding normalize_encoded
normalize_encoded-admitted v bs ps (admitted n e l m s) z =
    ground (arith, round_trips-encode v bs e, m, s, z)

-- An admitted value comes to the loop over its parts.
pub normalize-admitted :
    (v bs : Text) (ps : List (Text × List ℕ))
    → IsAdmitted v bs
    → zip_strict (split v) (split bs) ≡ some ps
    → normalize_workspace_relative_path v ≡ keep_components ps []
unfolding normalize_workspace_relative_path is_empty
normalize-admitted [] bs ps (admitted n e l m s) z = absurd (n refl)
normalize-admitted (c ∷ v) bs ps (admitted n e l m s) z = ground (
  arith,
  e,
  length-encode (c ∷ v) bs e,
  normalize_encoded-admitted (c ∷ v) bs ps (admitted n e l m s) z,
)

-- Any other value is refused.
refused_tests :
    (v bs : Text)
    → v ≢ []
    → encode v ≡ some bs
    → (normalize_encoded v bs ≡ boundary_error invalid_workspace_path) ⊎ IsAdmitted v bs
unfolding normalize_encoded
refused_tests v bs n e = elim (Bool-cases (contains_nul v)) [
  | inl f ↦ inl (ground (arith, f))
  | inr f ↦ elim (Bool-cases (starts_with_slash v)) [
    | inl g ↦ inl (ground (arith, g))
    | inr g ↦ elim (Bool-cases (ltb max_raw_path_bytes (length bs))) [
      | inl h ↦ inl (ground (arith, h))
      | inr h ↦ inr (admitted n e (ground (arith, h)) f g)
    ]
  ]
]

pub normalize-cases :
    (v : Text)
    → (normalize_workspace_relative_path v ≡ boundary_error invalid_workspace_path)
      ⊎ (bs : Text) × IsAdmitted v bs
unfolding normalize_workspace_relative_path is_empty
normalize-cases [] = inl refl
normalize-cases (c ∷ v) = elim (Option-cases (encode (c ∷ v))) [
  | inl e ↦ inl (ground (arith, e))
  | inr (bs, e) ↦ elim (refused_tests (c ∷ v) bs (ground arith) e) [
    | inl f ↦ inl (ground (arith, e, f))
    | inr a ↦ inr (bs, a)
  ]
]

pub keep_rest :
    (t b : Text) (ps : List (Text × List ℕ)) (kept comps : List Text)
    → keep_components ((t, b) ∷ ps) kept ≡ ok comps
    → ((t ≡ []) ⊎ (t ≡ dot)) × (keep_components ps kept ≡ ok comps)
      ⊎ (t ≢ [])
        × (t ≢ dot)
        × (t ≢ dot_dot)
        × (length b ≤ max_component_bytes)
        × (length (kept ++ t ∷ []) ≤ max_components)
        × (keep_components ps (kept ++ t ∷ []) ≡ ok comps)
unfolding keep_components is_empty
keep_rest [] b ps kept comps h = inl (inl refl, ground (arith, h))
keep_rest (c ∷ t) b ps kept comps h =
    ground (arith, h, text_eq_iff (c ∷ t) dot, text_eq_iff (c ∷ t) dot_dot)

-- The loop refuses the path as invalid or ends with components.
pub keep_outcomes :
    (ps : List (Text × List ℕ)) (kept : List Text)
    → (keep_components ps kept ≡ boundary_error invalid_workspace_path)
      ⊎ (comps : List Text) × (keep_components ps kept ≡ ok comps)
unfolding keep_components
keep_outcomes [] kept = inr (kept, refl)
keep_outcomes ((t, b) ∷ ps) kept =
    ground (arith, keep_outcomes ps kept, keep_outcomes ps (kept ++ t ∷ []))

-- A component goes into what is kept.
pub keep_component :
    (t b : Text) (ps : List (Text × List ℕ)) (kept : List Text)
    → t ≢ []
    → t ≢ dot
    → t ≢ dot_dot
    → length b ≤ max_component_bytes
    → length (kept ++ t ∷ []) ≤ max_components
    → keep_components ((t, b) ∷ ps) kept ≡ keep_components ps (kept ++ t ∷ [])
unfolding keep_components is_empty
keep_component [] b ps kept n d dd l m = absurd (n refl)
keep_component (c ∷ t) b ps kept n d dd l m =
    ground (arith, text_eq_iff (c ∷ t) dot, text_eq_iff (c ∷ t) dot_dot)
