-- ===== src/Transcript/Bounds.antt =====
-- Bounded texts: what `_bound_utf8` keeps of a text, and how many bytes the sanitizer lets through.
pub mod Cuts
use code_assist_harness.Prelude.{
  ℕ, zero, suc, ◌+◌, ◌-◌, ◌≤◌, ◌<◌, Option, none, some, Bool, true, false, List, [], ◌∷◌, ◌++◌,
  Text, length, take, All, length-append, append-nil, append_assoc, codes, ltb, leb, ◌≡◌, ◌≢◌, refl,
  sym, ap, ◌∙◌, subst, ◌⊎◌, inl, inr, arith, Bool-cases, Option-cases, if◌then◌else◌,
}
use code_assist_harness.Utf8.{
  encode, encode_char, decode_char, decode_two, decode_three, decode_four,
}
use code_assist_harness.Utf8.RoundTrip.{encode-cons, encode_char_bytes, decode_char-encode_char}
use code_assist_harness.Transcript.Sanitizer.{
  decode_ignore, bound_utf8, truncation_marker, omission_marker, marker_bytes, or_omission,
  TranscriptSanitizer, bounded_assistant_fragment,
}
use code_assist_harness.Transcript.Bounds.Cuts.{cut_text}

encode-append :
    (cs ds x y : List ℕ)
    → encode cs ≡ some x
    → encode ds ≡ some y
    → encode (cs ++ ds) ≡ some (x ++ y)
unfolding encode
encode-append [] ds x y e f = ground (arith, e, f)
encode-append (c ∷ cs) ds x y e f =
    let (z, w, a, b, j) = encode-cons c cs x e in
    ground (arith, a, encode-append cs ds w y b f, j, append_assoc z w y)

-- Bounding a text leaves it as it is, or keeps whole characters from its front and puts the marker
-- behind them; the bytes of the result keep to the limit, when the limit leaves room for the marker.
pub bound_utf8-bounded :
    (value t : Text) (limit : ℕ)
    → marker_bytes ≤ limit
    → bound_utf8 value limit ≡ some t
    → ((t ≡ value)
        ⊎ ((front : Text) × (back : Text) × (value ≡ front ++ back)
            × (t ≡ front ++ truncation_marker)))
      × ((bytes : List ℕ) × (encode t ≡ some bytes) × (length bytes ≤ limit))
unfolding bound_utf8 encode encode_char
bound_utf8-bounded value t limit m h = elim (Option-cases (encode value)) [
  | inl e ↦ absurd (ground (arith, e, h))
  | inr (bytes, e) ↦ elim (Bool-cases (leb (length bytes) limit)) [
    | inl k ↦
        let same : t ≡ value = ground (arith, e, k, h) in
        (inl same, (bytes, ap encode same ∙ e, ground (arith, k)))
    | inr k ↦
        let (front, back, used, p, q, r, l) =
          cut_text value bytes (length bytes) (limit - marker_bytes) e (omega arith) in
        let cut : t ≡ front ++ truncation_marker = ground (arith, e, k, h, q) in
        (
          inr (front, back, p, cut),
          (
            used ++ codes "[TRUNCATED]",
            ap encode cut ∙ encode-append front truncation_marker used (codes "[TRUNCATED]") r refl,
            omega (arith, length-append used (codes "[TRUNCATED]"), l, m),
          ),
        )
  ]
]

-- Room for the marker, and no more content than the limit.
abbrev pub IsBounded : {R : Type 0} → TranscriptSanitizer R → Type 0
IsBounded s = (marker_bytes < s.text_limit_bytes) × (s.assistant_content_bytes ≤ s.text_limit_bytes)

abbrev pub FitsIn : ℕ → Text → Type 0
FitsIn limit t = (bytes : List ℕ) × (encode t ≡ some bytes) × (length bytes ≤ limit)

-- What is expected of a sanitized delta and of the sanitizer after it.
abbrev pub IsSafeDelta :
    {R : Type 0} → TranscriptSanitizer R → TranscriptSanitizer R × Text → Type 0
IsSafeDelta s (t, w) =
    IsBounded t
    × (t.text_limit_bytes ≡ s.text_limit_bytes)
    × (w ≢ [])
    × FitsIn s.text_limit_bytes w
    × (t.safe_assistant_text ≡ s.safe_assistant_text)

safe_as :
    {R : Type 0} (s : TranscriptSanitizer R) (x r : TranscriptSanitizer R × Text)
    → x ≡ r
    → IsSafeDelta s x
    → IsSafeDelta s r
safe_as s x r e h = subst (IsSafeDelta s) e h

append_nonempty : (xs : Text) → xs ++ truncation_marker ≢ []
append_nonempty [] e = absurd (ground arith)
append_nonempty (x ∷ xs) e = absurd (ground arith)

bounded_nonempty :
    (value t : Text) (limit : ℕ) (bytes : List ℕ)
    → marker_bytes ≤ limit
    → encode value ≡ some bytes
    → leb (length bytes) limit ≡ false
    → bound_utf8 value limit ≡ some t
    → t ≢ []
unfolding encode
bounded_nonempty value t limit bytes m e k h n = elim (bound_utf8-bounded value t limit m h).0 [
  | inl same ↦ absurd (ground (arith, ap encode (sym same ∙ n), e, k))
  | inr (front, back, p, q) ↦ append_nonempty front (sym q ∙ n)
]

module _ {R : Type 0} (redact : Text → Text) (redact_stream : R → Text → R × Text) where
  -- A sanitized delta is never empty and keeps to the limit, as does the content counted so far.
  pub fragment-IsSafeDelta :
      (s : TranscriptSanitizer R) (value : Text) (r : TranscriptSanitizer R × Text)
      → IsBounded s
      → bounded_assistant_fragment redact redact_stream s value ≡ some r
      → IsSafeDelta s r
  unfolding bounded_assistant_fragment encode encode_char
  fragment-IsSafeDelta s value r (m, k) h = elim (Bool-cases s.assistant_content_exhausted) [
    | inl x ↦
        safe_as s (s, omission_marker) r (ground (arith, x, h))
          (
            (m, k),
            refl,
            (λ n. absurd (ground (arith, n))),
            (codes "~", refl, omega (arith, m)),
            refl,
          )
    | inr x ↦ elim (Option-cases (encode value)) [
      | inl e ↦ absurd (ground (arith, x, e, h))
      | inr (bytes, e) ↦
          let remaining = s.text_limit_bytes - s.assistant_content_bytes in
          elim (Bool-cases (leb (length bytes) remaining)) [
            | inl j ↦
                safe_as s
                  (
                    record s { assistant_content_bytes = s.assistant_content_bytes + length bytes },
                    or_omission value,
                  )
                  r (ground (arith, x, e, j, h)) (kept value bytes e (ground (arith, j)))
            | inr j ↦ elim (Bool-cases (ltb marker_bytes remaining)) [
              | inr y ↦
                  safe_as s (record s { assistant_content_exhausted = true }, truncation_marker) r
                    (ground (arith, x, e, j, y, h))
                    (
                      (m, k),
                      refl,
                      (λ n. absurd (ground (arith, n))),
                      (codes "[TRUNCATED]", refl, omega (arith, m)),
                      refl,
                    )
              | inl y ↦ elim (Option-cases (bound_utf8 value remaining)) [
                | inl b ↦ absurd (ground (arith, x, e, j, y, b, h))
                | inr (safe, b) ↦
                    let (used, u, l) =
                      (bound_utf8-bounded value safe remaining (ground (arith, y)) b).1 in
                    safe_as s
                      (
                        record s {
                          assistant_content_bytes = s.assistant_content_bytes + length used;
                          assistant_content_exhausted = true;
                        },
                        safe,
                      )
                      r (ground (arith, x, e, j, y, b, u, h))
                      (
                        (m, omega (arith, l, k)),
                        refl,
                        bounded_nonempty value safe remaining bytes (ground (arith, y)) e j b,
                        (used, u, omega (arith, l)),
                        refl,
                      )
              ]
            ]
          ]
    ]
  ]
    where
      kept :
          (v : Text) (bytes : List ℕ)
          → encode v ≡ some bytes
          → length bytes ≤ s.text_limit_bytes - s.assistant_content_bytes
          → IsSafeDelta s (
            record s { assistant_content_bytes = s.assistant_content_bytes + length bytes },
            or_omission v,
          )
      kept [] bytes e l = (
        (m, omega (arith, l, k)),
        refl,
        (λ n. absurd (ground (arith, n))),
        (codes "~", refl, omega (arith, m)),
        refl,
      )
      kept (c ∷ v) bytes e l = (
        (m, omega (arith, l, k)),
        refl,
        (λ n. absurd (ground (arith, n))),
        (bytes, e, omega (arith, l)),
        refl,
      )
