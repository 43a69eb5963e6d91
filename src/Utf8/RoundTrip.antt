-- ===== src/Utf8/RoundTrip.antt =====
-- Decoding what was encoded gives the text back; and how many bytes a text takes.
use code_assist_harness.Prelude.{
  ℕ, zero, suc, ◌+◌, ◌*◌, ◌/◌, ◌%◌, ◌≤◌, ◌<◌, some, List, [], ◌∷◌, ◌++◌, ◌≡◌, ◌≢◌, false, ap, refl,
  ◌⊎◌, inl, inr, Option-cases, arith, length, length-append, All,
}
use code_assist_harness.Utf8.{encode_char, encode, decode_char, decode_rounds, decode, is_surrogate}

one_byte : (c : ℕ) (rest : List ℕ) → c < 0x80 → decode_char (c ∷ rest) ≡ some (c, rest)
unfolding decode_char
one_byte c rest h = ground arith

two_bytes :
    (c : ℕ) (rest : List ℕ)
    → 0x80 ≤ c
    → c < 0x800
    → decode_char ((0xC0 + c / 64) ∷ (0x80 + c % 64) ∷ rest) ≡ some (c, rest)
unfolding decode_char
two_bytes c rest p q = ground arith

three_bytes :
    (c : ℕ) (rest : List ℕ)
    → 0x800 ≤ c
    → c < 0x10000
    → is_surrogate c ≡ false
    → decode_char ((0xE0 + c / 4096) ∷ (0x80 + c / 64 % 64) ∷ (0x80 + c % 64) ∷ rest)
      ≡ some (c, rest)
unfolding decode_char
three_bytes c rest p q s = ground arith

four_bytes :
    (c : ℕ) (rest : List ℕ)
    → 0x10000 ≤ c
    → c < 0x110000
    → decode_char (
        (0xF0 + c / 262144)
        ∷ (0x80 + c / 4096 % 64)
        ∷ (0x80 + c / 64 % 64)
        ∷ (0x80 + c % 64)
        ∷ rest)
      ≡ some (c, rest)
unfolding decode_char
four_bytes c rest p q = ground arith

-- One character comes back, whatever follows it.
pub decode_char-encode_char :
    (c : ℕ) (bs rest : List ℕ) → encode_char c ≡ some bs → decode_char (bs ++ rest) ≡ some (c, rest)
unfolding encode_char
decode_char-encode_char c bs rest h =
    ground (arith, one_byte c rest, two_bytes c rest, three_bytes c rest, four_bytes c rest)

-- A character takes one to four bytes, and no byte of a character but the slash is a slash.
pub encode_char_bytes :
    (c : ℕ) (bs : List ℕ)
    → encode_char c ≡ some bs
    → (1 ≤ length bs)
      × (length bs ≤ 4)
      × All (λ b. b < 256) bs
      × ((c ≡ 47) × (bs ≡ 47 ∷ []) ⊎ (c ≢ 47) × All (λ b. b ≢ 47) bs)
unfolding encode_char
encode_char_bytes c bs h = ground arith

pub encode-cons :
    (c : ℕ) (cs bs : List ℕ)
    → encode (c ∷ cs) ≡ some bs
    → (x : List ℕ) × (y : List ℕ) × (encode_char c ≡ some x) × (encode cs ≡ some y) × (bs ≡ x ++ y)
unfolding encode
encode-cons c cs bs h = elim (Option-cases (encode_char c)) [
  | inl e ↦ absurd (ground (arith, e))
  | inr (x, e) ↦ elim (Option-cases (encode cs)) [
    | inl f ↦ absurd (ground (arith, e, f))
    | inr (y, f) ↦ (x, y, e, f, ground (arith, e, f))
  ]
]

-- Each character takes at least a byte.
pub length-encode :
    (cs bs : List ℕ) → encode cs ≡ some bs → (length cs ≤ length bs) × (length bs ≤ 4 * length cs)
unfolding encode
length-encode [] bs h = ground arith
length-encode (c ∷ cs) bs h =
    let (x, y, e, f, j) = encode-cons c cs bs h in
    ground (arith, encode_char_bytes c x e, length-encode cs y f, j, length-append x y)

round_step :
    (fuel c : ℕ) (bs rest cs : List ℕ)
    → decode_char bs ≡ some (c, rest)
    → decode_rounds fuel rest ≡ some cs
    → decode_rounds (suc fuel) bs ≡ some (c ∷ cs)
unfolding decode_rounds
round_step fuel c [] rest cs h r = unfold decode_char in absurd (ground (arith, h))
round_step fuel c (b ∷ bs) rest cs h r = ground (arith, h, r)

rounds :
    (fuel : ℕ) (cs bs : List ℕ)
    → encode cs ≡ some bs
    → length bs ≤ fuel
    → decode_rounds fuel bs ≡ some cs
unfolding decode_rounds encode
rounds zero [] bs h f = ground arith
rounds (suc fuel) [] bs h f = ground arith
rounds zero (c ∷ cs) bs h f =
    let (x, y, e, r, j) = encode-cons c cs bs h in
    absurd (ground (arith, encode_char_bytes c x e, j, length-append x y))
rounds (suc fuel) (c ∷ cs) bs h f =
    let (x, y, e, r, j) = encode-cons c cs bs h in
    rw j (
      round_step fuel c (x ++ y) y cs (decode_char-encode_char c x y e) (
        rounds fuel cs y r
          (ground (arith, encode_char_bytes c x e, ap length j, length-append x y))))

-- Whatever a text without lone surrogates is encoded to decodes to that text.
pub decode-encode : (cs bs : List ℕ) → encode cs ≡ some bs → decode bs ≡ some cs
unfolding decode
decode-encode cs bs h = rounds (length bs) cs bs h (omega arith)

-- A text that can be encoded with another in front can be encoded alone, and the bytes add up.
pub encode_suffix :
    (cs ds bs : List ℕ)
    → encode (cs ++ ds) ≡ some bs
    → (x : List ℕ) × (y : List ℕ) × (encode cs ≡ some x)
      × (encode ds ≡ some y)
      × (length bs ≡ length x + length y)
unfolding encode
encode_suffix [] ds bs h = ([], bs, refl, h, omega arith)
encode_suffix (c ∷ cs) ds bs h =
    let (z, w, e, f, j) = encode-cons c (cs ++ ds) bs h in
    let (x, y, a, b, k) = encode_suffix cs ds w f in
    (z ++ x, y, ground (arith, e, a), b, ground (arith, j, k, length-append z x, length-append z w))
