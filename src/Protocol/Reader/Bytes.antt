-- ===== src/Protocol/Reader/Bytes.antt =====
-- The reader one byte at a time: the specification of `feed`, with no chunks and no look-ahead.
use code_assist_harness.Prelude.{
  ℕ, ◌≤◌, ◌<◌, true, false, List, [], ◌∷◌, ◌++◌, ◌≡◌, ◌≢◌, refl, ap, ◌∙◌, arith, ltb, ◌==◌, length,
  length-append, append_assoc, append-nil, All, Bool-cases, ltb→lt, ltb→le, inl, inr, sym,
  if◌then◌else◌,
}
use code_assist_harness.Protocol.Reader.{
  Parsed, failure, line_too_long, LineReader, newline, keep_tail, end_line,
}

module _ {M : Type 0} (parser : List ℕ → Parsed M) (max_line_bytes : ℕ) where
  -- A newline ends the line. Any other byte is kept while the line fits, and the byte that passes
  -- the limit reports the line and drops it.
  unfoldable pub feed_byte : LineReader → ℕ → LineReader × List (Parsed M)
  feed_byte r b =
      if r.discarding_oversized_line
      then (if b == newline then (record r { discarding_oversized_line = false }, []) else (r, []))
      else if b == newline
      then (record r { buffer = [] }, parser r.buffer ∷ [])
      else if ltb (length r.buffer) max_line_bytes
      then (record r { buffer = r.buffer ++ b ∷ [] }, [])
      else (record r { buffer = []; discarding_oversized_line = true }, failure line_too_long ∷ [])

  finished-feed_byte : (r : LineReader) (b : ℕ) → (feed_byte r b).0.finished ≡ r.finished
  unfolding feed_byte
  finished-feed_byte r b = ground arith

  unfoldable pub feed_bytes : LineReader → List ℕ → LineReader × List (Parsed M)
  feed_bytes r [] = (r, [])
  feed_bytes r (b ∷ bs) =
      let (r', out) = feed_byte r b in let (r'', more) = feed_bytes r' bs in (r'', out ++ more)

  pub feed_bytes-nil : (r : LineReader) → feed_bytes r [] ≡ (r, [])
  unfolding feed_bytes
  feed_bytes-nil r = refl

  -- The buffer stays within the limit, and is empty while an oversized line is dropped.
  pub record IsBounded (r : LineReader) : Type 0 where
    pub fits : length r.buffer ≤ max_line_bytes
    pub dropped : r.discarding_oversized_line ≡ true → r.buffer ≡ []

  pub feed_byte-IsBounded : (r : LineReader) (b : ℕ) → IsBounded r → IsBounded (feed_byte r b).0
  unfolding feed_byte
  feed_byte-IsBounded r b v = ground (arith, length-append r.buffer (b ∷ []))

  pub feed_bytes-IsBounded :
      (r : LineReader) (bs : List ℕ) → IsBounded r → IsBounded (feed_bytes r bs).0
  unfolding feed_bytes
  feed_bytes-IsBounded r [] v = v
  feed_bytes-IsBounded r (b ∷ bs) v =
      feed_bytes-IsBounded (feed_byte r b).0 bs (feed_byte-IsBounded r b v)

  pub feed_bytes-append :
      (r : LineReader) (xs ys : List ℕ)
      → feed_bytes r (xs ++ ys) ≡ (
        (feed_bytes (feed_bytes r xs).0 ys).0,
        (feed_bytes r xs).1 ++ (feed_bytes (feed_bytes r xs).0 ys).1,
      )
  unfolding feed_bytes
  feed_bytes-append r [] ys = refl
  feed_bytes-append r (x ∷ xs) ys =
      let r' = (feed_byte r x).0 in
      ground (
        arith,
        feed_bytes-append r' xs ys,
        append_assoc (feed_byte r x).1 (feed_bytes r' xs).1 (feed_bytes (feed_bytes r' xs).0 ys).1,
      )

  pub finished-feed_bytes :
      (r : LineReader) (bs : List ℕ) → (feed_bytes r bs).0.finished ≡ r.finished
  unfolding feed_bytes
  finished-feed_bytes r [] = refl
  finished-feed_bytes r (b ∷ bs) = finished-feed_bytes (feed_byte r b).0 bs ∙ finished-feed_byte r b

  -- What one byte other than a newline does.
  byte_dropped :
      (r : LineReader) (b : ℕ)
      → r.discarding_oversized_line ≡ true
      → b ≢ newline
      → feed_byte r b ≡ (r, [])
  unfolding feed_byte
  byte_dropped r b d n = ground arith

  byte_kept :
      (r : LineReader) (b : ℕ)
      → r.discarding_oversized_line ≡ false
      → length r.buffer < max_line_bytes
      → b ≢ newline
      → feed_byte r b ≡ (record r { buffer = r.buffer ++ b ∷ [] }, [])
  unfolding feed_byte
  byte_kept r b d f n = ground arith

  byte_over :
      (r : LineReader) (b : ℕ)
      → r.discarding_oversized_line ≡ false
      → max_line_bytes ≤ length r.buffer
      → b ≢ newline
      → feed_byte r b
        ≡ (record r { buffer = []; discarding_oversized_line = true }, failure line_too_long ∷ [])
  unfolding feed_byte
  byte_over r b d f n = ground arith

  -- While a line is dropped, no byte but a newline is noticed.
  dropping :
      (r : LineReader) (bs : List ℕ)
      → r.discarding_oversized_line ≡ true
      → All (λ b. b ≢ newline) bs
      → feed_bytes r bs ≡ (r, [])
  unfolding feed_bytes
  dropping r [] d n = refl
  dropping r (b ∷ bs) d n = ground (arith, byte_dropped r b d n.0, dropping r bs d n.1)

  -- A segment without a newline, kept at once or byte by byte.
  pub keep_tail-bytes :
      (r : LineReader) (bs : List ℕ)
      → IsBounded r
      → All (λ b. b ≢ newline) bs
      → keep_tail parser max_line_bytes r bs ≡ feed_bytes r bs
  unfolding keep_tail feed_bytes
  keep_tail-bytes r [] v n = ground (arith, append-nil r.buffer)
  keep_tail-bytes r (b ∷ bs) v n = elim (Bool-cases r.discarding_oversized_line) [
    | inl d ↦ ground (arith, byte_dropped r b d n.0, dropping r bs d n.1)
    | inr d ↦ elim (Bool-cases (ltb (length r.buffer) max_line_bytes)) [
      | inl f ↦
          let r' : LineReader = record r { buffer = r.buffer ++ b ∷ [] } in
          ground (
            arith,
            byte_kept r b d (ltb→lt _ _ f) n.0,
            feed_byte-IsBounded r b v,
            keep_tail-bytes r' bs
                (rw (byte_kept r b d (ltb→lt _ _ f) n.0) at (feed_byte-IsBounded r b v)) n.1,
            length-append r.buffer (b ∷ []),
            append_assoc r.buffer (b ∷ []) bs,
          )
      | inr f ↦
          let r' : LineReader = record r { buffer = []; discarding_oversized_line = true } in
          ground (arith, byte_over r b d (ltb→le _ _ f) n.0, dropping r' bs refl n.1)
    ]
  ]

  -- What a newline adds to what a segment gave.
  abbrev then_newline : LineReader × List (Parsed M) → LineReader × List (Parsed M)
  then_newline (r, out) = ((feed_bytes r (newline ∷ [])).0, out ++ (feed_bytes r (newline ∷ [])).1)

  end_line-keep_tail :
      (r : LineReader) (bs : List ℕ)
      → end_line parser max_line_bytes r bs ≡ then_newline (keep_tail parser max_line_bytes r bs)
  unfolding end_line keep_tail feed_bytes feed_byte
  end_line-keep_tail r bs = ground arith

  -- A segment that a newline ends, taken at once or byte by byte.
  pub end_line-bytes :
      (r : LineReader) (bs : List ℕ)
      → IsBounded r
      → All (λ b. b ≢ newline) bs
      → end_line parser max_line_bytes r bs ≡ feed_bytes r (bs ++ newline ∷ [])
  end_line-bytes r bs v n =
      end_line-keep_tail r bs
      ∙ ap then_newline (keep_tail-bytes r bs v n)
      ∙ sym (feed_bytes-append r bs (newline ∷ []))
