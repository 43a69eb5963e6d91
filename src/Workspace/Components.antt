-- ===== src/Workspace/Components.antt =====
-- The components of a normalized path, and the label that gives the same components again.
use code_assist_harness.Prelude.{
  ℕ, suc, ◌+◌, ◌≤◌, some, false, List, [], ◌∷◌, ◌++◌, Text, ◌≡◌, ◌≢◌, inl, inr, refl, ap, ◌∙◌, sym,
  arith, length, length-append, All, append-nil, append_assoc, subst,
}
use code_assist_harness.Utf8.{encode}
use code_assist_harness.Workspace.{
  slash, zip_strict, join, ok, keep_components, contains_nul, starts_with_slash, max_components,
}
use code_assist_harness.Workspace.Split.{Encoded, done, more, zip-Encoded}
use code_assist_harness.Workspace.Lexical.{
  IsComponent, component, total, Clean, keep_rest, keep_component,
}

-- What the loop adds to the components that it has kept, out of parts with `n` bytes in all.
pub data Kept (kept comps : List Text) (n : ℕ) : Type 0 where
  kept_with :
      (new : List Text) (bytes : List (List ℕ))
      → comps ≡ kept ++ new
      → Encoded new bytes
      → total bytes ≤ n
      → All IsComponent new
      → Kept kept comps n

Kept-skip : {kept comps : List Text} {n : ℕ} (k : ℕ) → Kept kept comps n → Kept kept comps (k + n)
Kept-skip k (kept_with new bytes e r l a) = kept_with new bytes e r (omega arith) a

Kept-add :
    {kept comps : List Text} {n : ℕ} (t b : Text)
    → encode t ≡ some b
    → IsComponent t
    → Kept (kept ++ t ∷ []) comps n
    → Kept kept comps (suc (length b) + n)
unfolding total
Kept-add {kept} t b e c (kept_with new bytes j r l a) =
    kept_with (t ∷ new) (b ∷ bytes) (j ∙ append_assoc kept (t ∷ []) new) (more e r) (omega arith)
      (c, a)

pub keep-Kept :
    (ts : List Text) (bs : List (List ℕ)) (ps : List (Text × List ℕ)) (kept comps : List Text)
    → Encoded ts bs
    → All Clean ts
    → zip_strict ts bs ≡ some ps
    → keep_components ps kept ≡ ok comps
    → Kept kept comps (total bs)
unfolding zip_strict total
keep-Kept [] [] [] kept comps done cl z h =
    kept_with [] [] (unfold keep_components in ground (arith, h, append-nil kept)) done
      (omega arith) _
keep-Kept [] [] (p ∷ ps) kept comps done cl z h = absurd (ground (arith, z))
keep-Kept [] (b ∷ bs) ps kept comps r cl z h = elim r [ ]
keep-Kept (t ∷ ts) [] ps kept comps r cl z h = elim r [ ]
keep-Kept (t ∷ ts) (b ∷ bs) ps kept comps (more e r) cl z h =
    let (qs, y) = zip-Encoded ts bs r in
    let f =
      subst (λ q. keep_components q kept ≡ ok comps) {x = ps} {y = (t, b) ∷ qs}
        (ground (arith, y, z)) h in
    elim (keep_rest t b qs kept comps f) [
      | inl (d, k) ↦ Kept-skip (suc (length b)) (keep-Kept ts bs qs kept comps r cl.1 y k)
      | inr (n, d, dd, l, m, k) ↦
          Kept-add t b e (component n d dd cl.0 e l)
            (keep-Kept ts bs qs (kept ++ t ∷ []) comps r cl.1 y k)
    ]

pub keep_count :
    (ps : List (Text × List ℕ)) (kept comps : List Text)
    → length kept ≤ max_components
    → keep_components ps kept ≡ ok comps
    → length comps ≤ max_components
keep_count [] kept comps l h = unfold keep_components in ground (arith, h, l)
keep_count ((t, b) ∷ ps) kept comps l h = elim (keep_rest t b ps kept comps h) [
  | inl (d, k) ↦ keep_count ps kept comps l k
  | inr (n, d, dd, m, j, k) ↦ keep_count ps (kept ++ t ∷ []) comps j k
]

-- Components are all kept.
pub keep-All :
    (ts : List Text) (bs : List (List ℕ)) (ps : List (Text × List ℕ)) (kept : List Text)
    → Encoded ts bs
    → All IsComponent ts
    → zip_strict ts bs ≡ some ps
    → length kept + length ts ≤ max_components
    → keep_components ps kept ≡ ok (kept ++ ts)
unfolding zip_strict
keep-All [] [] [] kept done cl z h = unfold keep_components in ap ok (sym (append-nil kept))
keep-All [] [] (p ∷ ps) kept done cl z h = absurd (ground (arith, z))
keep-All [] (b ∷ bs) ps kept r cl z h = elim r [ ]
keep-All (t ∷ ts) [] ps kept r cl z h = elim r [ ]
keep-All (t ∷ ts) (b ∷ bs) ps kept (more e r) (component {bs = c} n d dd cl f l, k) z h =
    let (qs, y) = zip-Encoded ts bs r in
    let m = length-append kept (t ∷ []) in
    let j = keep_component t b qs kept n d dd (ground (arith, e, f, l)) (ground (arith, m, h)) in
    let i = keep-All ts bs qs (kept ++ t ∷ []) r k y (ground (arith, m, h)) in
    subst (λ q. keep_components q kept ≡ ok (kept ++ t ∷ ts)) {x = (t, b) ∷ qs} {y = ps}
      (ground (arith, y, z)) (j ∙ i ∙ ap ok (append_assoc kept (t ∷ []) ts))

nul-append :
    (s t : Text)
    → All (λ c. (c ≢ slash) × (c ≢ 0)) s
    → contains_nul t ≡ false
    → contains_nul (s ++ t) ≡ false
unfolding contains_nul
nul-append [] t h e = e
nul-append (c ∷ s) t h e = ground (arith, h.0, nul-append s t h.1 e)

nul-slash : (t : Text) → contains_nul t ≡ false → contains_nul (slash ∷ t) ≡ false
unfolding contains_nul
nul-slash t h = ground (arith, h)

pub nul-join :
    (p : Text) (ps : List Text) → All IsComponent (p ∷ ps) → contains_nul (join (p ∷ ps)) ≡ false
nul-join p [] (component n d dd c e l, r) =
    subst (λ t. contains_nul t ≡ false) (append-nil p)
      (nul-append p [] c (unfold contains_nul in refl))
nul-join p (q ∷ ps) (component n d dd c e l, r) =
    nul-append p (slash ∷ join (q ∷ ps)) c (nul-slash (join (q ∷ ps)) (nul-join q ps r))

pub slash-join :
    (p : Text) (ps : List Text)
    → IsComponent p
    → (join (p ∷ ps) ≢ []) × (starts_with_slash (join (p ∷ ps)) ≡ false)
unfolding starts_with_slash
slash-join [] ps (component n d dd c e l) = absurd (n refl)
slash-join (x ∷ p) [] (component n d dd c e l) = ground (arith, c.0)
slash-join (x ∷ p) (q ∷ ps) (component n d dd c e l) = ground (arith, c.0)

pub total-join : (p : List ℕ) (ps : List (List ℕ)) → total (p ∷ ps) ≡ suc (length (join (p ∷ ps)))
unfolding total
total-join p [] = omega arith
total-join p (q ∷ ps) = ground (arith, length-append p (slash ∷ join (q ∷ ps)), total-join q ps)
