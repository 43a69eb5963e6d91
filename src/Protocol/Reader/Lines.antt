-- ===== src/Protocol/Reader/Lines.antt =====
-- What a whole stream of lines gives, and what the end of the stream adds.
use code_assist_harness.Prelude.{
  ℕ, List, [], ◌∷◌, ◌++◌, ◌≡◌, ◌≢◌, arith, leb, length, append_assoc, All, refl, ap, ◌∙◌, some,
  if◌then◌else◌, map,
}
use code_assist_harness.Protocol.Reader.{
  Parsed, failure, line_too_long, invalid_framing, newline, fresh_reader, keep_tail, end_line,
  finish, LineReader,
}
use code_assist_harness.Protocol.Reader.Bytes.{
  feed_bytes, IsBounded, feed_bytes-nil, feed_bytes-append, keep_tail-bytes, end_line-bytes,
}
use code_assist_harness.Protocol.Reader.Chunks.{feed_all, all-bytes, concat}

-- The bytes of some lines, each ended by a newline.
abbrev pub unlines : List (List ℕ) → List ℕ
unlines [] = []
unlines (l ∷ ls) = l ++ newline ∷ unlines ls

module _ {M : Type 0} (parser : List ℕ → Parsed M) (max_line_bytes : ℕ) where
  -- What one line should give.
  abbrev pub line_result : List ℕ → Parsed M
  line_result l = if leb (length l) max_line_bytes then parser l else failure line_too_long

  fresh-IsBounded : IsBounded parser max_line_bytes fresh_reader
  fresh-IsBounded = ground arith

  end_line-fresh :
      (l : List ℕ)
      → end_line parser max_line_bytes fresh_reader l ≡ (fresh_reader, line_result l ∷ [])
  unfolding end_line
  end_line-fresh l = ground arith

  lines-bytes :
      (ls : List (List ℕ))
      → All (All (λ b. b ≢ newline)) ls
      → feed_bytes parser max_line_bytes fresh_reader (unlines ls)
        ≡ (fresh_reader, map line_result ls)
  lines-bytes [] n = feed_bytes-nil parser max_line_bytes fresh_reader
  lines-bytes (l ∷ ls) n = ground (
    arith,
    end_line-bytes parser max_line_bytes fresh_reader l fresh-IsBounded n.0,
    end_line-fresh l,
    lines-bytes ls n.1,
    append_assoc l (newline ∷ []) (unlines ls),
    feed_bytes-append parser max_line_bytes fresh_reader (l ++ newline ∷ []) (unlines ls),
  )

  fed :
      (chunks : List (List ℕ)) (bs : List ℕ)
      → concat chunks ≡ bs
      → feed_all parser max_line_bytes fresh_reader chunks
        ≡ some (feed_bytes parser max_line_bytes fresh_reader bs)
  fed chunks bs e =
      all-bytes parser max_line_bytes fresh_reader chunks fresh-IsBounded refl
      ∙ ap (λ x. some (feed_bytes parser max_line_bytes fresh_reader x)) e

  -- A stream of newline-terminated lines, cut into chunks anywhere and fed to a fresh reader, gives one
  -- result for each line, in order: the parser's result for a line within the limit, and the failure
  -- `line_too_long` for a longer one, which affects no other line. The reader is then as it was at the
  -- start.
  pub lines_contained :
      (ls chunks : List (List ℕ))
      → All (All (λ b. b ≢ newline)) ls
      → concat chunks ≡ unlines ls
      → feed_all parser max_line_bytes fresh_reader chunks ≡ some (fresh_reader, map line_result ls)
  lines_contained ls chunks n e = fed chunks (unlines ls) e ∙ ap some (lines-bytes ls n)

  -- The report of an unterminated rest at the end of a stream.
  abbrev pub rest_report : List ℕ → List (Parsed M)
  rest_report rest =
      if leb (length rest) max_line_bytes
      then (if leb 1 (length rest) then failure invalid_framing ∷ [] else [])
      else failure line_too_long ∷ []

  finish-bytes :
      (rest : List ℕ)
      → All (λ b. b ≢ newline) rest
      → let (r, out) = feed_bytes parser max_line_bytes fresh_reader rest in
        (out ++ (finish {M = M} r).1 ≡ rest_report rest)
        × ((finish {M = M} (finish {M = M} r).0).1 ≡ [])
  unfolding keep_tail finish
  finish-bytes [] n = rw feed_bytes-nil (ground arith)
  finish-bytes (b ∷ bs) n =
      rw (← keep_tail-bytes parser max_line_bytes fresh_reader (b ∷ bs) fresh-IsBounded n)
        (ground arith)

  -- A fresh reader is fed some lines and an unterminated rest, cut into chunks anywhere. Feeding and
  -- ending the stream together give the results of the lines and then report the rest once: as bad
  -- framing if it is not empty and within the limit, as too long if it is longer, and not at all if it
  -- is empty. A second end of the stream reports nothing.
  pub finish_reports :
      (ls chunks : List (List ℕ)) (rest : List ℕ)
      → All (All (λ b. b ≢ newline)) ls
      → All (λ b. b ≢ newline) rest
      → concat chunks ≡ unlines ls ++ rest
      → (r : LineReader) × (out : List (Parsed M)) × (feed_all parser max_line_bytes fresh_reader
            chunks
          ≡ some (r, out))
        × (out ++ (finish {M = M} r).1 ≡ map line_result ls ++ rest_report rest)
        × ((finish {M = M} (finish {M = M} r).0).1 ≡ [])
  finish_reports ls chunks rest m n e =
      let (r, out) = feed_bytes parser max_line_bytes fresh_reader rest in
      let (f, g) = finish-bytes rest n in
      (
        r,
        map line_result ls ++ out,
        fed chunks (unlines ls ++ rest) e
            ∙ ap some (
                feed_bytes-append parser max_line_bytes fresh_reader (unlines ls) rest
                ∙ ap
                    (λ p. (
                      (feed_bytes parser max_line_bytes p.0 rest).0,
                      p.1 ++ (feed_bytes parser max_line_bytes p.0 rest).1,
                    ))
                    (lines-bytes ls m)),
        append_assoc (map line_result ls) out (finish {M = M} r).1
            ∙ ap (λ x. map line_result ls ++ x) f,
        g,
      )
