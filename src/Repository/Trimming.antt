-- ===== src/Repository/Trimming.antt =====
-- What the normalization of a policy line removes: the spaces at its end that no backslash escapes.
use code_assist_harness.Prelude.{
  ℕ, ◌+◌, Option, none, some, true, false, [], ◌∷◌, Text, ◌==◌, length, take, ◌≡◌, ◌≢◌, refl, ap,
  ◌∙◌, ◌⊎◌, inl, inr, arith, if◌then◌else◌, Bool-cases, Option-cases,
}
use code_assist_harness.Repository.Lines.{
  backslash, strip_cr, trailing_at, scan_spaces, normalize_policy_line,
}

-- A space goes when nothing is left behind it.
abbrev put_before : ℕ → Text → Text
put_before c [] = if c == 32 then [] else c ∷ []
put_before c (d ∷ ds) = c ∷ d ∷ ds

abbrev both_before : ℕ → ℕ → Option Text → Option Text
both_before c d none = none
both_before c d (some r) = some (c ∷ d ∷ r)

abbrev one_before : ℕ → Option Text → Option Text
one_before c none = none
one_before c (some r) = some (put_before c r)

-- The line from its end, an escaped character and its backslash as one; `none` when a backslash that
-- escapes nothing ends it.
unfoldable pub trimmed : Text → Option Text
trimmed [] = some []
trimmed (c ∷ []) = if c == backslash then none else some (put_before c [])
trimmed (c ∷ d ∷ cs) = elim (c == backslash) [
  | true ↦ both_before c d (trimmed cs)
  | false ↦ one_before c (trimmed (d ∷ cs))
]

abbrev Agree : ℕ → Option ℕ → Text → Option Text → Option (Option ℕ) → Type 0
Agree i t cs none o = o ≡ none
Agree i t cs (some r) o =
    (cs ≡ []) × (r ≡ []) × (o ≡ some t)
    ⊎ (r ≢ []) × (r ≡ cs) × (o ≡ some none)
    ⊎ (cs ≢ []) × (r ≡ []) × (o ≡ some (trailing_at i t))
    ⊎ (r ≢ []) × (take (length r) cs ≡ r) × (o ≡ some (some (i + length r)))

pair_agrees :
    (i c d : ℕ) (t : Option ℕ) (cs : Text) (r : Option Text) (o : Option (Option ℕ))
    → Agree (i + 2) none cs r o
    → Agree i t (c ∷ d ∷ cs) (both_before c d r) o
pair_agrees i c d t cs none o h = h
pair_agrees i c d t cs (some r) o h = ground (arith, h)

single_agrees :
    (i c d : ℕ) (t : Option ℕ) (cs : Text) (r : Option Text) (o : Option (Option ℕ))
    → Agree (i + 1) (if c == 32 then trailing_at i t else none) (d ∷ cs) r o
    → Agree i t (c ∷ d ∷ cs) (one_before c r) o
single_agrees i c d t cs none o h = h
single_agrees i c d t cs (some []) o h = ground (arith, h)
single_agrees i c d t cs (some (e ∷ r)) o h = ground (arith, h)

scan_agrees : (cs : Text) (i : ℕ) (t : Option ℕ) → Agree i t cs (trimmed cs) (scan_spaces i t cs)
unfolding trimmed scan_spaces
scan_agrees [] i t = inl (refl, refl, refl)
scan_agrees (c ∷ []) i t = ground arith
scan_agrees (c ∷ d ∷ cs) i t = elim (Bool-cases (c == backslash)) [
  | inl e ↦
      rw (e, trimmed, scan_spaces)
        (pair_agrees i c d t cs (trimmed cs) (scan_spaces (i + 2) none cs)
          (scan_agrees cs (i + 2) none))
  | inr e ↦
      rw (e, trimmed, scan_spaces)
        (single_agrees i c d t cs (trimmed (d ∷ cs))
          (scan_spaces (i + 1) (if c == 32 then trailing_at i t else none) (d ∷ cs))
          (scan_agrees (d ∷ cs) (i + 1) (if c == 32 then trailing_at i t else none)))
]

abbrev pub kept : Text → Option Text → Text
kept l none = l
kept l (some r) = r

abbrev cut_at : Text → Option (Option ℕ) → Text
cut_at l none = l
cut_at l (some none) = l
cut_at l (some (some i)) = take i l

cut-kept :
    (l : Text) (r : Option Text) (o : Option (Option ℕ))
    → Agree 0 none l r o
    → cut_at l o ≡ kept l r
cut-kept l none o h = ground (arith, h)
cut-kept l (some r) o (inl (e, f, g)) = ground (arith, e, f, g)
cut-kept l (some r) o (inr (inl (e, f, g))) = ground (arith, f, g)
cut-kept l (some r) o (inr (inr (inl (e, f, g)))) = ground (arith, f, g)
cut-kept l (some r) o (inr (inr (inr (e, f, g)))) =
    ap (cut_at l) g ∙ ap (λ k. take k l) (omega arith) ∙ f

cut_line :
    (line : Text)
    → normalize_policy_line line ≡ cut_at (strip_cr line) (scan_spaces 0 none (strip_cr line))
unfolding normalize_policy_line
cut_line line = elim (Option-cases (scan_spaces 0 none (strip_cr line))) [
  | inl e ↦ ground (arith, e)
  | inr (none, e) ↦ ground (arith, e)
  | inr (some i, e) ↦ ground (arith, e)
]

-- The loop with its index finds what reading the line from its end keeps: without a carriage return at
-- its end, a line loses the spaces there that no backslash escapes, and nothing if it ends in a
-- backslash that escapes nothing.
pub normalize_policy_line-eq-trimmed :
    (line : Text) → normalize_policy_line line ≡ kept (strip_cr line) (trimmed (strip_cr line))
normalize_policy_line-eq-trimmed line =
    cut_line line
    ∙ cut-kept (strip_cr line) (trimmed (strip_cr line)) (scan_spaces 0 none (strip_cr line))
        (scan_agrees (strip_cr line) 0 none)
