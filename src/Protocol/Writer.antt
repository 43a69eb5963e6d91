-- ===== src/Protocol/Writer.antt =====
-- `OrderedEventWriter` of protocol/streams.py. The validation and the encoding of events are
-- parameters, and each call of the sink comes with the way it went. The lock is held over the whole
-- of an emission, so that emissions follow one another.
pub mod Order
pub mod Sequences
mod Examples
use code_assist_harness.Prelude.{
  ℕ, ◌+◌, String, str_eq, Option, none, some, Bool, true, false, List, [], ◌∷◌, ◌++◌, ltb,
  if◌then◌else◌,
}

abbrev pub max_safe_sequence : ℕ
max_safe_sequence = 9007199254740991

pub record OrderedEventWriter : Type 0 where
  session_sequences : List (String × ℕ)

abbrev pub fresh_writer : OrderedEventWriter
fresh_writer = record { session_sequences = [] }

-- `dict.get(key, 0)`.
unfoldable pub get : List (String × ℕ) → String → ℕ
get [] key = 0
get ((k, n) ∷ rest) key = elim (str_eq k key) [ true ↦ n | false ↦ get rest key ]

-- `dict[key] = value`.
unfoldable pub put : List (String × ℕ) → String → ℕ → List (String × ℕ)
put [] key value = (key, value) ∷ []
put ((k, n) ∷ rest) key value = elim (str_eq k key) [
  | true ↦ (k, value) ∷ rest
  | false ↦ (k, n) ∷ put rest key value
]

-- The fields that an emission puts together; `protocol_version` is always 1.
pub record EventData (P : Type 0) : Type 0 where
  event_type : String
  session_id : String
  sequence : ℕ
  timestamp : String
  payload : P
  correlation_id : Option String

-- How a call of the sink and the wait for it went. A cancellation during the wait leaves the call
-- running and waits for it again; a second one then cancels the call itself, which may have written
-- the line by then. A call that fails has not written it.
pub data SinkCall : Type 0 where
  completes fails cancelled_then_completes cancelled_then_fails : SinkCall
  cancelled_twice : Bool → SinkCall

pub data WriteOutcome : Type 0 where
  written sink_error cancelled : WriteOutcome

-- `_write_line`: whether the line is published, whether the sequence is committed, and the outcome.
unfoldable pub write_line : SinkCall → Bool × Bool × WriteOutcome
write_line completes = (true, true, written)
write_line fails = (false, false, sink_error)
write_line cancelled_then_completes = (true, true, cancelled)
write_line cancelled_then_fails = (false, false, sink_error)
write_line (cancelled_twice published) = (published, false, cancelled)

pub data EmitResult (E : Type 0) : Type 0 where
  emitted : E → EmitResult E
  overflow_error validation_error encoding_error : EmitResult E
  write_failed : WriteOutcome → EmitResult E

-- What a producer asks for, with the timestamp that the factory gives and the sink's call.
pub record Emission (P : Type 0) : Type 0 where
  event_type : String
  session_id : String
  payload : P
  correlation_id : Option String
  timestamp : String
  sink : SinkCall

-- The data of the next event of a session.
abbrev pub event_data : {P : Type 0} → OrderedEventWriter → Emission P → EventData P
event_data w m = record {
  event_type = m.event_type;
  session_id = m.session_id;
  sequence = get w.session_sequences m.session_id + 1;
  timestamp = m.timestamp;
  payload = m.payload;
  correlation_id = m.correlation_id;
}

module _ {P E L : Type 0} (validate : EventData P → Option E) (encode : E → Option L) where
  -- The end of `emit_session`, from the encoded line on.
  unfoldable pub emit_line :
      OrderedEventWriter
      → Emission P
      → E
      → L
      → OrderedEventWriter × List (EventData P × L) × EmitResult E
  emit_line w m event line =
      let data_ = event_data w m in
      let (published, committed, outcome) = write_line m.sink in
      (
        if committed
            then record { session_sequences = put w.session_sequences m.session_id data_.sequence }
            else w,
        if published then (data_, line) ∷ [] else [],
        elim outcome [ written ↦ emitted event | failure ↦ write_failed failure ],
      )

  -- `emit_session`: the writer after it, the lines that it publishes, and its result.
  unfoldable pub emit_session :
      OrderedEventWriter → Emission P → OrderedEventWriter × List (EventData P × L) × EmitResult E
  emit_session w m =
      if ltb max_safe_sequence (get w.session_sequences m.session_id + 1)
      then (w, [], overflow_error)
      else elim (validate (event_data w m)) [
        | none ↦ (w, [], validation_error)
        | some event ↦ elim (encode event) [
          | none ↦ (w, [], encoding_error)
          | some line ↦ emit_line w m event line
        ]
      ]

  -- Emissions one after the other: the last writer, and all published lines.
  unfoldable pub emit_all :
      OrderedEventWriter → List (Emission P) → OrderedEventWriter × List (EventData P × L)
  emit_all w [] = (w, [])
  emit_all w (m ∷ ms) =
      let (next, lines, result) = emit_session w m in
      let (last, later) = emit_all next ms in (last, lines ++ later)
