-- ===== src/Protocol/Reader.antt =====
-- `_BoundedLineReader` of protocol/streams.py: a byte stream cut into bounded lines. The parser of a
-- line, `parse_command_line` or `parse_event_line` of protocol/codec.py, is a parameter.
pub mod Bytes
pub mod Chunks
pub mod Lines
mod Examples
use code_assist_harness.Prelude.{
  ℕ, zero, suc, ◌+◌, ◌*◌, Option, none, some, Bool, true, false, List, [], ◌∷◌, ◌++◌, ltb, ◌==◌,
  length, if◌then◌else◌, ℤ, pos, negsuc, Checked, ok, value_error,
}

-- `ProtocolParseErrorCode`.
pub data ParseErrorCode : Type 0 where
  malformed_json malformed_envelope unsupported_version unknown_type : ParseErrorCode
  invalid_payload invalid_framing invalid_utf8 line_too_long : ParseErrorCode

-- What a line gives: a validated message, or a safe failure. The fixed text of a failure is a
-- function of its code, and is left out.
pub data Parsed (M : Type 0) : Type 0 where
  message : M → Parsed M
  failure : ParseErrorCode → Parsed M

pub record LineReader : Type 0 where
  pub buffer : List ℕ
  pub discarding_oversized_line : Bool
  pub finished : Bool

abbrev pub newline : ℕ
newline = 10

abbrev pub default_max_line_bytes : ℕ
default_max_line_bytes = 64 * 1024

abbrev pub fresh_reader : LineReader
fresh_reader = record { buffer = []; discarding_oversized_line = false; finished = false }

-- `__init__`: the bound must be positive.
unfoldable pub make_reader : ℤ → Checked LineReader
make_reader (pos (suc n)) = ok fresh_reader
make_reader _ = value_error

-- `chunk.find(b"\n", offset)`: the segment before the next newline, and what follows it if there is one.
unfoldable pub split_line : List ℕ → List ℕ × Option (List ℕ)
split_line [] = ([], none)
split_line (b ∷ bs) =
    if b == newline then ([], some bs) else (b ∷ (split_line bs).0, (split_line bs).1)

module _ {M : Type 0} (parser : List ℕ → Parsed M) (max_line_bytes : ℕ) where
  -- A segment that the chunk ends in.
  unfoldable pub keep_tail : LineReader → List ℕ → LineReader × List (Parsed M)
  keep_tail r segment =
      if r.discarding_oversized_line
      then (r, [])
      else if ltb max_line_bytes (length r.buffer + length segment)
      then (record r { buffer = []; discarding_oversized_line = true }, failure line_too_long ∷ [])
      else (record r { buffer = r.buffer ++ segment }, [])

  -- A segment that a newline ends.
  unfoldable pub end_line : LineReader → List ℕ → LineReader × List (Parsed M)
  end_line r segment =
      if r.discarding_oversized_line
      then (record r { discarding_oversized_line = false }, [])
      else if ltb max_line_bytes (length r.buffer + length segment)
      then (record r { buffer = [] }, failure line_too_long ∷ [])
      else (record r { buffer = [] }, parser (r.buffer ++ segment) ∷ [])

  -- The loop of `feed`. Each round but the last takes at least a newline off the chunk, so the
  -- length of the chunk is enough fuel.
  unfoldable pub feed_chunk : ℕ → LineReader → List ℕ → LineReader × List (Parsed M)
  feed_chunk zero r chunk = (r, [])
  feed_chunk (suc fuel) r [] = (r, [])
  feed_chunk (suc fuel) r (b ∷ bs) =
      let (segment, after) = split_line (b ∷ bs) in
      elim after [
        | none ↦ keep_tail r segment
        | some rest ↦
            let (r', out) = end_line r segment in
            let (r'', more) = feed_chunk fuel r' rest in (r'', out ++ more)
      ]

  -- `none` is the RuntimeError of a finished reader.
  unfoldable pub feed : LineReader → List ℕ → Option (LineReader × List (Parsed M))
  unfolding feed_chunk
  feed r chunk = if r.finished then none else some (feed_chunk (length chunk) r chunk)

abbrev is_empty : List ℕ → Bool
is_empty [] = true
is_empty _ = false

unfoldable pub finish : {M : Type 0} → LineReader → LineReader × List (Parsed M)
finish r =
    if r.finished
    then (r, [])
    else if r.discarding_oversized_line
    then (record r { finished = true; discarding_oversized_line = false }, [])
    else if is_empty r.buffer
    then (record r { finished = true }, [])
    else (record r { finished = true; buffer = [] }, failure invalid_framing ∷ [])
