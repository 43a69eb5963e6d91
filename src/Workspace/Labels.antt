-- ===== src/Workspace/Labels.antt =====
-- Which paths `normalize_workspace_relative_path` gives, and what it makes of their labels.
use code_assist_harness.Prelude.{
  ℕ, suc, ◌≤◌, some, List, [], ◌∷◌, Text, ◌≡◌, ◌⊎◌, inl, inr, refl, ap, ◌∙◌, sym, arith, length,
  All, subst, text_eq,
}
use code_assist_harness.Utf8.{encode, encode_char, decode, decode_rounds, decode_char}
use code_assist_harness.Workspace.{
  split, zip_strict, join, label, dot, ok, boundary_error, invalid_workspace_path, keep_components,
  normalize_workspace_relative_path, contains_nul, starts_with_slash, is_empty, normalize_encoded,
  max_components, max_raw_path_bytes,
}
use code_assist_harness.Workspace.Split.{
  Encoded, split-encode, zip-Encoded, split-join, encode-join,
}
use code_assist_harness.Workspace.Lexical.{
  IsComponent, component, total-split, Clean, split-Clean, IsAdmitted, admitted, normalize-admitted,
  normalize-cases, keep_outcomes,
}
use code_assist_harness.Workspace.Components.{
  Kept, kept_with, keep-Kept, keep_count, keep-All, nul-join, slash-join, total-join,
}

-- A normalized path: its label is at most as long as a path may be.
pub data IsPath : List Text → Type 0 where
  path :
      {comps : List Text} {bs : Text}
      → All IsComponent comps
      → length comps ≤ max_components
      → encode (label comps) ≡ some bs
      → length bs ≤ max_raw_path_bytes
      → IsPath comps

encode-dot : encode dot ≡ some dot
unfolding encode encode_char
encode-dot = refl

Kept-IsPath :
    (comps : List Text) (n : ℕ)
    → Kept [] comps (suc n)
    → n ≤ max_raw_path_bytes
    → length comps ≤ max_components
    → IsPath comps
unfolding label
Kept-IsPath [] n (kept_with new bytes e r l a) h c =
    path {comps = []} {bs = dot} _ c encode-dot (omega arith)
Kept-IsPath (t ∷ ts) n (kept_with [] bytes e r l a) h c = absurd (ground (arith, e))
Kept-IsPath (t ∷ ts) n (kept_with (u ∷ new) [] e r l a) h c = elim r [ ]
Kept-IsPath (t ∷ ts) n (kept_with (u ∷ new) (b ∷ bytes) e r l a) h c =
    path (subst (All IsComponent) (sym e) a) c
      (ap (λ v. encode (join v)) e ∙ encode-join (u ∷ new) (b ∷ bytes) r)
      (ground (arith, total-join b bytes, l, h))

admitted_parts :
    (v bs : Text)
    → IsAdmitted v bs
    → (ps : List (Text × List ℕ)) × (zip_strict (split v) (split bs) ≡ some ps)
      × (normalize_workspace_relative_path v ≡ keep_components ps [])
admitted_parts v bs (admitted n e l m s) =
    let (ps, z) = zip-Encoded (split v) (split bs) (split-encode v bs e) in
    (ps, z, normalize-admitted v bs ps (admitted n e l m s) z)

admitted-IsPath :
    (v bs : Text) (comps : List Text)
    → IsAdmitted v bs
    → normalize_workspace_relative_path v ≡ ok comps
    → IsPath comps
admitted-IsPath v bs comps (admitted n e l m s) h =
    let (ps, z, f) = admitted_parts v bs (admitted n e l m s) in
    let k =
      keep-Kept (split v) (split bs) ps [] comps (split-encode v bs e) (split-Clean v m) z
        (sym f ∙ h) in
    Kept-IsPath comps (length bs) (subst (Kept [] comps) (total-split bs) k) l
      (keep_count ps [] comps (omega arith) (sym f ∙ h))

-- When a value is admitted with some components, they make a path: at most 256 of them, each of at
-- most 255 bytes, not empty, not ".", not "..", and without a slash or a NUL; and their label has at
-- most 4095 bytes.
pub normalize-IsPath :
    (v : Text) (comps : List Text) → normalize_workspace_relative_path v ≡ ok comps → IsPath comps
normalize-IsPath v comps h = elim (normalize-cases v) [
  | inl e ↦ absurd (ground (arith, e, h))
  | inr (bs, a) ↦ admitted-IsPath v bs comps a h
]

-- Every value is refused as an invalid path or gives components: the parts of the text and of its
-- bytes never differ in number, and no other error is possible.
pub normalize_outcomes :
    (v : Text)
    → (normalize_workspace_relative_path v ≡ boundary_error invalid_workspace_path)
      ⊎ (comps : List Text) × (normalize_workspace_relative_path v ≡ ok comps)
normalize_outcomes v = elim (normalize-cases v) [
  | inl e ↦ inl e
  | inr (bs, a) ↦
      let (ps, z, f) = admitted_parts v bs a in
      elim (keep_outcomes ps []) [ inl g ↦ inl (f ∙ g) | inr (comps, g) ↦ inr (comps, f ∙ g) ]
]

join-IsAdmitted :
    (p : Text) (ps : List Text) (bs : Text)
    → All IsComponent (p ∷ ps)
    → encode (join (p ∷ ps)) ≡ some bs
    → length bs ≤ max_raw_path_bytes
    → IsAdmitted (join (p ∷ ps)) bs
join-IsAdmitted p ps bs (c, cs) e l =
    let (n, s) = slash-join p ps c in admitted n e l (nul-join p ps (c, cs)) s

IsComponent-Clean : (ts : List Text) → All IsComponent ts → All Clean ts
IsComponent-Clean [] h = _
IsComponent-Clean (t ∷ ts) (component n d dd c e l, r) = (c, IsComponent-Clean ts r)

normalize-dot : normalize_workspace_relative_path (label []) ≡ ok []
unfolding normalize_workspace_relative_path normalize_encoded label is_empty contains_nul
    starts_with_slash encode encode_char decode decode_rounds decode_char split zip_strict
    keep_components text_eq
normalize-dot = refl

-- The label of a path is admitted, with the components of the path.
pub normalize-label :
    (comps : List Text) → IsPath comps → normalize_workspace_relative_path (label comps) ≡ ok comps
unfolding label
normalize-label [] p = normalize-dot
normalize-label (t ∷ ts) (path {bs} a n e l) =
    let (ps, z, f) = admitted_parts (join (t ∷ ts)) bs (join-IsAdmitted t ts bs a e l) in
    let parts = split-join t ts (IsComponent-Clean (t ∷ ts) a) in
    f
    ∙ keep-All (t ∷ ts) (split bs) ps []
        (subst (λ q. Encoded q (split bs)) parts (split-encode (join (t ∷ ts)) bs e)) a
        (subst (λ q. zip_strict q (split bs) ≡ some ps) parts z) (omega arith)
