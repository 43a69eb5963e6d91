-- ===== src/Protocol/Reader/Chunks.antt =====
-- `feed` on whole chunks: it agrees with the byte-wise reader, so the cuts between chunks do not
-- matter.
use code_assist_harness.Prelude.{
  ℕ, zero, suc, ◌≤◌, Option, none, some, false, List, [], ◌∷◌, ◌++◌, ◌≡◌, ◌≢◌, inl, inr, refl, ap,
  ◌∙◌, sym, arith, length, length-append, append_assoc, All, Option-cases,
}
use code_assist_harness.Protocol.Reader.{
  Parsed, LineReader, newline, split_line, end_line, feed_chunk, feed,
}
use code_assist_harness.Protocol.Reader.Bytes.{
  feed_bytes, feed_bytes-nil, IsBounded, feed_bytes-append, feed_bytes-IsBounded,
  finished-feed_bytes, keep_tail-bytes, end_line-bytes,
}

split_line-segment : (bs : List ℕ) → All (λ b. b ≢ newline) (split_line bs).0
unfolding split_line
split_line-segment [] = tt
split_line-segment (b ∷ bs) = ground (arith, split_line-segment bs)

split_line-last : (bs : List ℕ) → (split_line bs).1 ≡ none → (split_line bs).0 ≡ bs
unfolding split_line
split_line-last [] h = refl
split_line-last (b ∷ bs) h = ground (arith, split_line-last bs)

split_line-join :
    (bs rest : List ℕ) → (split_line bs).1 ≡ some rest → bs ≡ (split_line bs).0 ++ newline ∷ rest
unfolding split_line
split_line-join [] rest h = ground arith
split_line-join (b ∷ bs) rest h = ground (arith, split_line-join bs rest)

abbrev pub concat : List (List ℕ) → List ℕ
concat [] = []
concat (c ∷ cs) = c ++ concat cs

rest_shorter :
    (bs rest : List ℕ) (fuel : ℕ)
    → (split_line bs).1 ≡ some rest
    → length bs ≤ suc fuel
    → length rest ≤ fuel
rest_shorter bs rest fuel e f =
    omega (
      arith,
      ap length (split_line-join bs rest e),
      length-append (split_line bs).0 (newline ∷ rest),
    )

module _ {M : Type 0} (parser : List ℕ → Parsed M) (max_line_bytes : ℕ) where
  chunk-bytes :
      (fuel : ℕ) (r : LineReader) (bs : List ℕ)
      → length bs ≤ fuel
      → IsBounded parser max_line_bytes r
      → feed_chunk parser max_line_bytes fuel r bs ≡ feed_bytes parser max_line_bytes r bs
  unfolding feed_chunk
  chunk-bytes zero r [] f v = sym (feed_bytes-nil parser max_line_bytes r)
  chunk-bytes zero r (b ∷ bs) f v = absurd (omega arith)
  chunk-bytes (suc fuel) r [] f v = sym (feed_bytes-nil parser max_line_bytes r)
  chunk-bytes (suc fuel) r (b ∷ bs) f v =
      let segment = (split_line (b ∷ bs)).0 in
      let clean = split_line-segment (b ∷ bs) in
      elim (Option-cases (split_line (b ∷ bs)).1) [
        | inl e ↦
            rw (e, feed_chunk)
              (keep_tail-bytes parser max_line_bytes r segment v clean
                ∙ ap (feed_bytes parser max_line_bytes r) (split_line-last (b ∷ bs) e))
        | inr (rest, e) ↦
            let whole = end_line-bytes parser max_line_bytes r segment v clean in
            let r' = (end_line parser max_line_bytes r segment).0 in
            let v' : IsBounded parser max_line_bytes r' =
              rw whole (feed_bytes-IsBounded parser max_line_bytes r (segment ++ newline ∷ []) v) in
            rw (e, feed_chunk)
              (ground (
                arith,
                whole,
                chunk-bytes fuel r' rest (rest_shorter (b ∷ bs) rest fuel e f) v',
                split_line-join (b ∷ bs) rest e,
                append_assoc segment (newline ∷ []) rest,
                feed_bytes-append parser max_line_bytes r (segment ++ newline ∷ []) rest,
              ))
      ]

  -- Fed a chunk of any content, an open reader within its bound does what the byte-wise reader does
  -- with the bytes of the chunk in order: the same results and the same state afterwards.
  pub feed-eq-feed_bytes :
      (r : LineReader) (chunk : List ℕ)
      → IsBounded parser max_line_bytes r
      → r.finished ≡ false
      → feed parser max_line_bytes r chunk ≡ some (feed_bytes parser max_line_bytes r chunk)
  unfolding feed
  feed-eq-feed_bytes r chunk v o =
      ground (arith, chunk-bytes (length chunk) r chunk (omega arith) v)

  -- `feed` for each chunk in turn, with the results joined.
  unfoldable pub feed_all : LineReader → List (List ℕ) → Option (LineReader × List (Parsed M))
  feed_all r [] = some (r, [])
  feed_all r (c ∷ cs) = elim (feed parser max_line_bytes r c) [
    | none ↦ none
    | some (r', out) ↦ elim (feed_all r' cs) [
      | none ↦ none
      | some (r'', more) ↦ some (r'', out ++ more)
    ]
  ]

  pub all-bytes :
      (r : LineReader) (chunks : List (List ℕ))
      → IsBounded parser max_line_bytes r
      → r.finished ≡ false
      → feed_all r chunks ≡ some (feed_bytes parser max_line_bytes r (concat chunks))
  unfolding feed_all
  all-bytes r [] v o = ap some (sym (feed_bytes-nil parser max_line_bytes r))
  all-bytes r (c ∷ cs) v o =
      let r' = (feed_bytes parser max_line_bytes r c).0 in
      ground (
        arith,
        feed-eq-feed_bytes r c v o,
        all-bytes r' cs (feed_bytes-IsBounded parser max_line_bytes r c v)
            (finished-feed_bytes parser max_line_bytes r c ∙ o),
        feed_bytes-append parser max_line_bytes r c (concat cs),
      )

  -- How the stream is cut into chunks does not matter: two ways to cut the same bytes give the same
  -- results in the same order, leave the same state, and never meet a finished reader.
  pub chunks_agree :
      (r : LineReader) (chunks chunks' : List (List ℕ))
      → IsBounded parser max_line_bytes r
      → r.finished ≡ false
      → concat chunks ≡ concat chunks'
      → (feed_all r chunks ≡ feed_all r chunks') × (feed_all r chunks ≢ none)
  chunks_agree r chunks chunks' v o e =
      ground (arith, all-bytes r chunks v o, all-bytes r chunks' v o)
