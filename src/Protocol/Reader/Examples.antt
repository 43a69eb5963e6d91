-- ===== src/Protocol/Reader/Examples.antt =====
-- A parser that keeps the line, over a bound of three bytes.
use code_assist_harness.Prelude.{ℕ, List, [], ◌∷◌, ◌++◌, ◌≡◌, refl, arith, some, map}
use code_assist_harness.Protocol.Reader.{
  Parsed, message, failure, line_too_long, LineReader, fresh_reader, feed, finish, split_line,
  keep_tail, end_line,
}
use code_assist_harness.Protocol.Reader.Bytes.{feed_bytes}
use code_assist_harness.Protocol.Reader.Chunks.{feed-eq-feed_bytes, feed_all}
use code_assist_harness.Protocol.Reader.Lines.{
  rest_report, line_result, lines_contained, finish_reports,
}

abbrev keep : List ℕ → Parsed (List ℕ)
keep l = message l

abbrev partial_line : LineReader
partial_line = record fresh_reader { buffer = 97 ∷ [] }

feed_runs :
    feed keep 3 partial_line (98 ∷ 10 ∷ 99 ∷ 99 ∷ 99 ∷ 99 ∷ 10 ∷ 100 ∷ [])
    ≡ some (
      record fresh_reader { buffer = 100 ∷ [] },
      message (97 ∷ 98 ∷ []) ∷ failure line_too_long ∷ [],
    )
unfolding feed split_line keep_tail end_line
feed_runs = refl

feed-eq-feed_bytes_example :
    feed keep 3 partial_line (98 ∷ 10 ∷ []) ≡ some (feed_bytes keep 3 partial_line (98 ∷ 10 ∷ []))
feed-eq-feed_bytes_example =
    feed-eq-feed_bytes keep 3 partial_line (98 ∷ 10 ∷ []) (ground arith) refl

abbrev two_lines : List (List ℕ)
two_lines = (97 ∷ []) ∷ (97 ∷ 98 ∷ 99 ∷ 100 ∷ []) ∷ []

-- Cut within the second line.
abbrev cut_lines : List (List ℕ)
cut_lines = (97 ∷ 10 ∷ 97 ∷ []) ∷ [] ∷ (98 ∷ 99 ∷ 100 ∷ 10 ∷ []) ∷ []

lines_contained_example :
    feed_all keep 3 fresh_reader cut_lines ≡ some (fresh_reader, map (line_result keep 3) two_lines)
lines_contained_example = lines_contained keep 3 two_lines cut_lines (omega arith) refl

finish_reports_example :
    (r : LineReader) × (out : List (Parsed (List ℕ))) × (feed_all keep 3 fresh_reader
        (cut_lines ++ (97 ∷ []) ∷ [])
      ≡ some (r, out))
    × (out ++ (finish {M = List ℕ} r).1
        ≡ map (line_result keep 3) two_lines ++ rest_report keep 3 (97 ∷ []))
    × ((finish {M = List ℕ} (finish {M = List ℕ} r).0).1 ≡ [])
finish_reports_example =
    finish_reports keep 3 two_lines (cut_lines ++ (97 ∷ []) ∷ []) (97 ∷ []) (omega arith)
      (omega arith) refl
