-- ===== src/Workspace/Split.antt =====
-- Splitting a path at its slashes: the parts of a text and of its bytes go together.
use code_assist_harness.Prelude.{
  ℕ, append_assoc, sym, ◌≤◌, some, List, [], ◌∷◌, ◌++◌, Text, ◌≡◌, ◌≢◌, ◌⊎◌, inl, inr, refl, ap,
  ◌∙◌, arith, length, All, subst,
}
use code_assist_harness.Utf8.{encode_char, encode}
use code_assist_harness.Utf8.RoundTrip.{encode_char_bytes, encode-cons}
use code_assist_harness.Workspace.{slash, split, into_first, zip_strict, join}

-- Each part is encoded to the bytes that stand beside it.
pub data Encoded : List Text → List (List ℕ) → Type 0 where
  done : Encoded [] []
  more :
      {t : Text} {b : List ℕ} {ts : List Text} {bs : List (List ℕ)}
      → encode t ≡ some b
      → Encoded ts bs
      → Encoded (t ∷ ts) (b ∷ bs)

pub split-slash : (cs : List ℕ) → split (slash ∷ cs) ≡ [] ∷ split cs
unfolding split
split-slash cs = refl

pub split-other : (c : ℕ) (cs : List ℕ) → c ≢ slash → split (c ∷ cs) ≡ into_first c (split cs)
unfolding split
split-other c cs n = ground arith

-- A part without a slash goes in front of the first part.
into_first_all : List ℕ → List (List ℕ) → List (List ℕ)
into_first_all [] ps = ps
into_first_all (b ∷ bs) ps = into_first b (into_first_all bs ps)

split-append :
    (bs cs : List ℕ) → All (λ b. b ≢ slash) bs → split (bs ++ cs) ≡ into_first_all bs (split cs)
unfolding into_first_all
split-append [] cs n = refl
split-append (b ∷ bs) cs n =
    split-other b (bs ++ cs) n.0 ∙ ap (into_first b) (split-append bs cs n.1)

into_first_all-cons :
    (bs p : List ℕ) (ps : List (List ℕ)) → into_first_all bs (p ∷ ps) ≡ (bs ++ p) ∷ ps
unfolding into_first_all
into_first_all-cons [] p ps = refl
into_first_all-cons (b ∷ bs) p ps = ap (into_first b) (into_first_all-cons bs p ps)

encode-into_first :
    (c : ℕ) (x : List ℕ) (ts : List Text) (bs : List (List ℕ))
    → encode_char c ≡ some x
    → Encoded ts bs
    → 1 ≤ length ts
    → Encoded (into_first c ts) (into_first_all x bs)
unfolding encode
encode-into_first c x (t ∷ ts) (b ∷ bs) e (more h r) n =
    rw (into_first_all-cons x b bs) (more (ground (arith, e, h)) r)
encode-into_first c x [] bs e h n = absurd (omega arith)
encode-into_first c x (t ∷ ts) [] e h n = elim h [ ]

-- How a split begins: at a slash, or in front of the split of the rest.
pub split-cases :
    (c : ℕ) (cs : List ℕ)
    → (c ≡ slash) × (split (c ∷ cs) ≡ [] ∷ split cs)
      ⊎ (c ≢ slash) × (split (c ∷ cs) ≡ into_first c (split cs))
unfolding split
split-cases c cs = ground arith

length-into_first : (c : ℕ) (ps : List (List ℕ)) → 1 ≤ length (into_first c ps)
length-into_first c [] = omega arith
length-into_first c (p ∷ ps) = omega arith

split_nonempty : (cs : List ℕ) → 1 ≤ length (split cs)
split_nonempty [] = unfold split in omega arith
split_nonempty (c ∷ cs) = elim (split-cases c cs) [
  | inl (e, f) ↦ rw f (omega arith)
  | inr (n, f) ↦ rw f (length-into_first c (split cs))
]

slash_head : (ts : List Text) (bs : List (List ℕ)) → Encoded ts bs → Encoded ([] ∷ ts) ([] ∷ bs)
unfolding encode
slash_head ts bs r = more refl r

-- The parts of the bytes are the bytes of the parts.
pub split-encode :
    (value encoded : List ℕ) → encode value ≡ some encoded → Encoded (split value) (split encoded)
split-encode [] encoded h =
    unfold encode split in
    subst (λ b. Encoded ([] ∷ []) (split b)) {x = []} {y = encoded} (ground (arith, h))
      (more refl done)
split-encode (c ∷ cs) encoded h =
    let (x, y, e, r, j) = encode-cons c cs encoded h in
    let parts = split-encode cs y r in
    elim (encode_char_bytes c x e).3 [
      | inl (p, q) ↦
          rw (j, q, p, split-slash cs, split-slash y) (slash_head (split cs) (split y) parts)
      | inr (p, q) ↦
          rw (j, split-append x y q, split-other c cs p)
            (encode-into_first c x (split cs) (split y) e parts (split_nonempty cs))
    ]

-- The parts of a text and of its bytes are equally many.
pub zip-Encoded :
    (ts : List Text) (bs : List (List ℕ))
    → Encoded ts bs
    → (ps : List (Text × List ℕ)) × (zip_strict ts bs ≡ some ps)
unfolding zip_strict
zip-Encoded [] [] done = ([], refl)
zip-Encoded (t ∷ ts) (b ∷ bs) (more e r) =
    let (ps, h) = zip-Encoded ts bs r in ((t, b) ∷ ps, rw h refl)
zip-Encoded [] (b ∷ bs) r = elim r [ ]
zip-Encoded (t ∷ ts) [] r = elim r [ ]

-- A text without slashes in front of a slash is the first part.
no_slash-split :
    (p cs : List ℕ) → All (λ c. (c ≢ slash) × (c ≢ 0)) p → split (p ++ slash ∷ cs) ≡ p ∷ split cs
no_slash-split [] cs h = split-slash cs
no_slash-split (c ∷ p) cs h =
    split-other c (p ++ slash ∷ cs) h.0.0 ∙ ap (into_first c) (no_slash-split p cs h.1)

no_slash_end : (p : List ℕ) → All (λ c. (c ≢ slash) × (c ≢ 0)) p → split p ≡ p ∷ []
no_slash_end [] h = unfold split in refl
no_slash_end (c ∷ p) h = split-other c p h.0.0 ∙ ap (into_first c) (no_slash_end p h.1)

-- Joined parts split into the same parts.
pub split-join :
    (p : Text) (ps : List Text)
    → All (All (λ c. (c ≢ slash) × (c ≢ 0))) (p ∷ ps)
    → split (join (p ∷ ps)) ≡ p ∷ ps
split-join p [] h = no_slash_end p h.0
split-join p (q ∷ ps) h =
    no_slash-split p (join (q ∷ ps)) h.0 ∙ ap (λ r. p ∷ r) (split-join q ps h.1)

encode-append :
    (s t x y : Text) → encode s ≡ some x → encode t ≡ some y → encode (s ++ t) ≡ some (x ++ y)
unfolding encode
encode-append [] t x y e f = ground (arith, e, f)
encode-append (c ∷ s) t x y e f =
    let (u, w, g, h, j) = encode-cons c s x e in
    rw (g, encode-append s t w y h f, j) (ap some (sym (append_assoc u w y)))

encode-slash : (t y : Text) → encode t ≡ some y → encode (slash ∷ t) ≡ some (slash ∷ y)
unfolding encode
encode-slash t y e = unfold encode_char in rw e refl

-- Joined parts are encoded to the joined bytes.
pub encode-join :
    (ts : List Text) (bs : List (List ℕ)) → Encoded ts bs → encode (join ts) ≡ some (join bs)
encode-join [] [] done = unfold encode in refl
encode-join [] (b ∷ bs) r = elim r [ ]
encode-join (t ∷ ts) [] r = elim r [ ]
encode-join (t ∷ []) (b ∷ []) (more e r) = e
encode-join (t ∷ []) (b ∷ d ∷ bs) (more e r) = elim r [ ]
encode-join (t ∷ u ∷ ts) (b ∷ []) (more e r) = elim r [ ]
encode-join (t ∷ u ∷ ts) (b ∷ d ∷ bs) (more e (more f r)) =
    encode-append t (slash ∷ join (u ∷ ts)) b (slash ∷ join (d ∷ bs)) e
      (encode-slash (join (u ∷ ts)) (join (d ∷ bs)) (encode-join (u ∷ ts) (d ∷ bs) (more f r)))
