-- ===== src/Transcript/Sanitizer.antt =====
-- `_TranscriptSanitizer` of persistence/transcript.py: updates are redacted and bounded before they
-- are recorded. What the regular expressions and the search for secrets do to a text is given.
use code_assist_harness.Prelude.{
  ℕ, zero, suc, ◌+◌, ◌-◌, Option, none, some, Bool, true, not, List, [], ◌∷◌, ◌++◌, Text, codes,
  ltb, leb, length, take, if◌then◌else◌,
}
use code_assist_harness.Utf8.{encode, decode_char}
use code_assist_harness.Protocol.{assistant_delta, assistant_completed, session_failed}
use code_assist_harness.Session.{SessionUpdate, task_submitted, event}

abbrev pub truncation_marker : Text
truncation_marker = codes "[TRUNCATED]"

abbrev pub omission_marker : Text
omission_marker = codes "~"

-- The bytes of `_TRUNCATION_MARKER`.
abbrev pub marker_bytes : ℕ
marker_bytes = 11

-- `bytes.decode("utf-8", errors="ignore")`: a byte that starts no character is dropped.
unfoldable pub decode_ignore : ℕ → List ℕ → Text
decode_ignore fuel [] = []
decode_ignore zero (b ∷ bs) = []
decode_ignore (suc fuel) (b ∷ bs) = elim (decode_char (b ∷ bs)) [
  | none ↦ decode_ignore fuel bs
  | some (c, rest) ↦ c ∷ decode_ignore fuel rest
]

-- `none` is a UnicodeEncodeError. A limit below the marker's length does not occur.
unfoldable pub bound_utf8 : Text → ℕ → Option Text
bound_utf8 value limit = elim (encode value) [
  | none ↦ none
  | some bytes ↦
      if leb (length bytes) limit
      then some value
      else some
          (decode_ignore (length bytes) (take (limit - marker_bytes) bytes) ++ truncation_marker)
]

-- The sanitizer's fields. `tail` has those that only the redaction of a stream uses.
pub record TranscriptSanitizer (R : Type 0) : Type 0 where
  pub text_limit_bytes : ℕ
  pub tail : R
  pub safe_assistant_text : Text
  pub assistant_content_bytes : ℕ
  pub assistant_content_exhausted : Bool

abbrev pub or_omission : Text → Text
or_omission [] = omission_marker
or_omission (c ∷ cs) = c ∷ cs

-- `_redact`, and `_redact_stream_fragment` with the fields it changes.
module _ {R : Type 0} (redact : Text → Text) (redact_stream : R → Text → R × Text) where
  abbrev exhaust : TranscriptSanitizer R → ℕ → TranscriptSanitizer R
  exhaust s n = record s { assistant_content_bytes = n; assistant_content_exhausted = true }

  unfoldable pub bounded_assistant_fragment :
      TranscriptSanitizer R → Text → Option (TranscriptSanitizer R × Text)
  bounded_assistant_fragment s value =
      let remaining = s.text_limit_bytes - s.assistant_content_bytes in
      if s.assistant_content_exhausted then some (s, omission_marker) else elim (encode value) [
        | none ↦ none
        | some bytes ↦
            if leb (length bytes) remaining
            then some (
              record s { assistant_content_bytes = s.assistant_content_bytes + length bytes },
              or_omission value,
            )
            else if not (ltb marker_bytes remaining)
            then some (exhaust s s.assistant_content_bytes, truncation_marker)
            else elim (bound_utf8 value remaining) [
              | none ↦ none
              | some safe ↦ elim (encode safe) [
                | none ↦ none
                | some safe_bytes ↦
                    some (exhaust s (s.assistant_content_bytes + length safe_bytes), safe)
              ]
            ]
      ]

  -- A text outside the stream of the assistant.
  unfoldable pub bounded : TranscriptSanitizer R → Text → Option Text
  bounded s value = bound_utf8 (redact value) s.text_limit_bytes

  unfoldable pub sanitize_update :
      TranscriptSanitizer R → SessionUpdate → Option (TranscriptSanitizer R × SessionUpdate)
  sanitize_update s (task_submitted command_id task) = elim (bounded s task) [
    | none ↦ none
    | some safe ↦ some (s, task_submitted command_id safe)
  ]
  sanitize_update s (event (assistant_delta e text)) =
      let (tail, safe_delta) = redact_stream s.tail text in
      elim (bounded_assistant_fragment (record s { tail = tail }) safe_delta) [
        | none ↦ none
        | some (next, safe) ↦ some (
          record next { safe_assistant_text = next.safe_assistant_text ++ safe },
          event (assistant_delta e safe),
        )
      ]
  sanitize_update s (event (assistant_completed e text)) =
      some (s, event (assistant_completed e (or_omission s.safe_assistant_text)))
  sanitize_update s (event (session_failed e code message)) = elim (bounded s message) [
    | none ↦ none
    | some safe ↦ some (s, event (session_failed e code safe))
  ]
  sanitize_update s u = some (s, u)
