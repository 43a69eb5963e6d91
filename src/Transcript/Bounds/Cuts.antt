-- ===== src/Transcript/Bounds/Cuts.antt =====
-- The bytes of a text cut at any point: whole characters stay, a partial one is dropped.
use code_assist_harness.Prelude.{
  ℕ, zero, suc, ◌-◌, ◌≤◌, ◌<◌, none, some, List, [], ◌∷◌, ◌++◌, Text, length, take, All,
  length-append, leb, ◌≡◌, refl, ap, ◌∙◌, ◌⊎◌, inl, inr, arith, Bool-cases,
}
use code_assist_harness.Utf8.{encode, encode_char, decode_char}
use code_assist_harness.Utf8.RoundTrip.{encode-cons, encode_char_bytes, decode_char-encode_char}
use code_assist_harness.Transcript.Sanitizer.{decode_ignore}

abbrev IsContinuation : ℕ → Type 0
IsContinuation b = (0x80 ≤ b) × (b < 0xC0)

-- The forms of an encoded character that has more than a byte.
abbrev IsLong : List ℕ → Type 0
IsLong (a ∷ b ∷ []) = (0xC0 ≤ a) × (a < 0xE0) × IsContinuation b
IsLong (a ∷ b ∷ d ∷ []) = (0xE0 ≤ a) × (a < 0xF0) × IsContinuation b × IsContinuation d
IsLong (a ∷ b ∷ d ∷ e ∷ []) =
    (0xF0 ≤ a) × (a < 0xF8) × IsContinuation b × IsContinuation d × IsContinuation e
IsLong _ = ⊥

character_forms : (c : ℕ) (x : List ℕ) → encode_char c ≡ some x → (length x ≡ 1) ⊎ IsLong x
unfolding encode_char
character_forms c [] e = absurd (ground (arith, e))
character_forms c (a ∷ []) e = inl (omega arith)
character_forms c (a ∷ b ∷ []) e = inr (ground (arith, e))
character_forms c (a ∷ b ∷ d ∷ []) e = inr (ground (arith, e))
character_forms c (a ∷ b ∷ d ∷ f ∷ []) e = inr (ground (arith, e))
character_forms c (a ∷ b ∷ d ∷ f ∷ g ∷ x) e = absurd (ground (arith, e))

continuation_refused : (b : ℕ) (bs : List ℕ) → IsContinuation b → decode_char (b ∷ bs) ≡ none
unfolding decode_char
continuation_refused b bs h = ground (arith, h)

dropped : (fuel : ℕ) (bs : List ℕ) → All IsContinuation bs → decode_ignore fuel bs ≡ []
unfolding decode_ignore
dropped fuel [] h = refl
dropped zero (b ∷ bs) h = refl
dropped (suc fuel) (b ∷ bs) h =
    rw (continuation_refused b bs h.0, decode_ignore) (dropped fuel bs h.1)

-- The start of a character, not the whole of it.
abbrev IsPartial : List ℕ → Type 0
IsPartial [] = Unit
IsPartial (a ∷ bs) = (decode_char (a ∷ bs) ≡ none) × All IsContinuation bs

partial_dropped : (fuel : ℕ) (bs : List ℕ) → IsPartial bs → decode_ignore fuel bs ≡ []
unfolding decode_ignore
partial_dropped fuel [] h = refl
partial_dropped zero (b ∷ bs) h = refl
partial_dropped (suc fuel) (b ∷ bs) h = rw (h.0, decode_ignore) (dropped fuel bs h.1)

refused_two : (a : ℕ) → 0xC0 ≤ a → a < 0xE0 → decode_char (a ∷ []) ≡ none
unfolding decode_char
refused_two a h k = ground (arith, h, k)

refused_three :
    (a : ℕ)
    → 0xE0 ≤ a
    → a < 0xF0
    → (decode_char (a ∷ []) ≡ none) × ((b : ℕ) → decode_char (a ∷ b ∷ []) ≡ none)
unfolding decode_char
refused_three a h k = (ground (arith, h, k), λ b. ground (arith, h, k))

refused_four :
    (a : ℕ)
    → 0xF0 ≤ a
    → a < 0xF8
    → (decode_char (a ∷ []) ≡ none)
      × ((b : ℕ) → decode_char (a ∷ b ∷ []) ≡ none)
      × ((b d : ℕ) → decode_char (a ∷ b ∷ d ∷ []) ≡ none)
unfolding decode_char
refused_four a h k =
    (ground (arith, h, k), (λ b. ground (arith, h, k)), λ b d. ground (arith, h, k))

cut_IsPartial : (n : ℕ) (x : List ℕ) → IsLong x → n < length x → IsPartial (take n x)
cut_IsPartial zero x e h = tt
cut_IsPartial (suc n) [] e h = absurd e
cut_IsPartial (suc n) (a ∷ []) e h = absurd e
cut_IsPartial (suc zero) (a ∷ b ∷ []) (l, m, c) h = (refused_two a l m, tt)
cut_IsPartial (suc (suc n)) (a ∷ b ∷ []) e h = absurd (omega (arith, h))
cut_IsPartial (suc zero) (a ∷ b ∷ d ∷ []) (l, m, c, _) h = ((refused_three a l m).0, tt)
cut_IsPartial (suc (suc zero)) (a ∷ b ∷ d ∷ []) (l, m, c, _) h =
    ((refused_three a l m).1 b, (c, tt))
cut_IsPartial (suc (suc (suc n))) (a ∷ b ∷ d ∷ []) e h = absurd (omega (arith, h))
cut_IsPartial (suc zero) (a ∷ b ∷ d ∷ e ∷ []) (l, m, c, k, _) h = ((refused_four a l m).0, tt)
cut_IsPartial (suc (suc zero)) (a ∷ b ∷ d ∷ e ∷ []) (l, m, c, k, _) h =
    ((refused_four a l m).1 b, (c, tt))
cut_IsPartial (suc (suc (suc zero))) (a ∷ b ∷ d ∷ e ∷ []) (l, m, c, k, _) h =
    ((refused_four a l m).2 b d, (c, (k, tt)))
cut_IsPartial (suc (suc (suc (suc n)))) (a ∷ b ∷ d ∷ e ∷ []) f h = absurd (omega (arith, h))
cut_IsPartial (suc n) (a ∷ b ∷ d ∷ e ∷ f ∷ x) g h = absurd g

cut_character :
    (fuel n c : ℕ) (x : List ℕ)
    → encode_char c ≡ some x
    → n < length x
    → decode_ignore fuel (take n x) ≡ []
unfolding decode_ignore
cut_character fuel zero c x e h = refl
cut_character fuel (suc n) c x e h = elim (character_forms c x e) [
  | inl k ↦ absurd (omega (arith, h, k))
  | inr k ↦ partial_dropped fuel (take (suc n) x) (cut_IsPartial (suc n) x k h)
]

take_long : (n : ℕ) (x y : List ℕ) → length x ≤ n → take n (x ++ y) ≡ x ++ take (n - length x) y
take_long n [] y h = ap (λ k. take k y) (omega arith)
take_long zero (b ∷ x) y h = absurd (omega arith)
take_long (suc n) (b ∷ x) y h =
    ap (λ v. b ∷ v) (take_long n x y (omega arith) ∙ ap (λ k. x ++ take k y) (omega arith))

take_short : (n : ℕ) (x y : List ℕ) → n ≤ length x → take n (x ++ y) ≡ take n x
take_short zero x y h = refl
take_short (suc n) [] y h = absurd (omega arith)
take_short (suc n) (b ∷ x) y h = ap (λ v. b ∷ v) (take_short n x y (omega arith))

nothing_cut : (fuel n : ℕ) → decode_ignore fuel (take n []) ≡ []
unfolding decode_ignore
nothing_cut fuel zero = refl
nothing_cut fuel (suc n) = refl

character_kept :
    (fuel c : ℕ) (x rest : List ℕ)
    → encode_char c ≡ some x
    → decode_ignore (suc fuel) (x ++ rest) ≡ c ∷ decode_ignore fuel rest
unfolding decode_ignore
character_kept fuel c [] rest e = absurd (ground (arith, encode_char_bytes c [] e))
character_kept fuel c (a ∷ x) rest e =
    rw (decode_char-encode_char c (a ∷ x) rest e, decode_ignore) refl

-- The bytes of a text, cut anywhere, are read as the characters that are there in full.
pub cut_text :
    (cs bs : List ℕ) (fuel n : ℕ)
    → encode cs ≡ some bs
    → length bs ≤ fuel
    → (front : Text) × (back : Text) × (used : List ℕ) × (cs ≡ front ++ back)
      × (decode_ignore fuel (take n bs) ≡ front)
      × (encode front ≡ some used)
      × (length used ≤ n)
unfolding encode decode_ignore
cut_text [] bs fuel n e f = (
  [],
  [],
  [],
  refl,
  ap (λ v. decode_ignore fuel (take n v)) (ground (arith, e)) ∙ nothing_cut fuel n,
  refl,
  omega arith,
)
cut_text (c ∷ cs) bs zero n e f =
    let (x, y, a, b, j) = encode-cons c cs bs e in
    absurd (ground (arith, encode_char_bytes c x a, ap length j, length-append x y, f))
cut_text (c ∷ cs) bs (suc g) n e f =
    let (x, y, a, b, j) = encode-cons c cs bs e in
    elim (Bool-cases (leb (length x) n)) [
      | inl k ↦
          let (front, back, used, p, q, r, t) =
            cut_text cs y g (n - length x) b
              (ground (arith, encode_char_bytes c x a, ap length j, length-append x y, f)) in
          (
            c ∷ front,
            back,
            x ++ used,
            ap (λ v. c ∷ v) p,
            ap (λ v. decode_ignore (suc g) (take n v)) j
                ∙ ap (decode_ignore (suc g)) (take_long n x y (ground (arith, k)))
                ∙ character_kept g c x (take (n - length x) y) a
                ∙ ap (λ v. c ∷ v) q,
            ground (arith, a, r),
            ground (arith, length-append x used, t, k),
          )
      | inr k ↦ (
        [],
        c ∷ cs,
        [],
        refl,
        ap (λ v. decode_ignore (suc g) (take n v)) j
            ∙ ap (decode_ignore (suc g)) (take_short n x y (ground (arith, k)))
            ∙ cut_character (suc g) n c x a (ground (arith, k)),
        refl,
        omega arith,
      )
    ]
