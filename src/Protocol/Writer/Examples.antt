-- ===== src/Protocol/Writer/Examples.antt =====
-- Emissions of two sessions, over an encoding that keeps the number.
use code_assist_harness.Prelude.{
  ℕ, ◌≤◌, ◌<◌, String, Option, some, true, List, [], ◌∷◌, ◌≡◌, refl, arith,
}
use code_assist_harness.Protocol.Writer.{
  fresh_writer, EventData, Emission, SinkCall, completes, fails, cancelled_twice,
  cancelled_then_completes, max_safe_sequence, get, put, event_data, write_line, emit_line,
  emit_session, emit_all,
}
use code_assist_harness.Protocol.Writer.Order.{
  completes_IsSettled, fails_IsSettled, cancelled_completes_IsSettled, numbers, count_from,
}
use code_assist_harness.Protocol.Writer.Sequences.{published_in_order, second_cancellation_repeats}

abbrev emission : String → SinkCall → Emission ℕ
emission session_id call = record {
  event_type = "assistant.delta";
  session_id = session_id;
  payload = 5;
  correlation_id = some "cmd_1";
  timestamp = "2026-07-16T12:34:56.789Z";
  sink = call;
}

abbrev check : EventData ℕ → Option (EventData ℕ)
check d = some d

abbrev line_of : EventData ℕ → Option ℕ
line_of d = some d.sequence

abbrev mixed : List (Emission ℕ)
mixed =
    emission "ses_1" completes
    ∷ emission "ses_2" fails
    ∷ emission "ses_1" cancelled_then_completes
    ∷ []

published_in_order_example :
    (numbers "ses_1" (emit_all check line_of fresh_writer mixed).1
      ≡ count_from 1 (get (emit_all check line_of fresh_writer mixed).0.session_sequences "ses_1"))
    × (get (emit_all check line_of fresh_writer mixed).0.session_sequences "ses_1"
        ≤ max_safe_sequence)
published_in_order_example =
    published_in_order check line_of "ses_1" mixed
      (completes_IsSettled, (fails_IsSettled, (cancelled_completes_IsSettled, _)))

mixed_runs : numbers "ses_1" (emit_all check line_of fresh_writer mixed).1 ≡ 1 ∷ 2 ∷ []
unfolding numbers emit_all emit_session emit_line write_line get put
mixed_runs = refl

abbrev lost : Emission ℕ
lost = emission "ses_1" (cancelled_twice true)

abbrev again : Emission ℕ
again = emission "ses_1" completes

no_number : get fresh_writer.session_sequences "ses_1" < max_safe_sequence
unfolding get
no_number = omega arith

second_cancellation_repeats_example :
    (emit_all check line_of fresh_writer (lost ∷ again ∷ [])).1
    ≡ (event_data fresh_writer lost, (event_data fresh_writer lost).sequence)
      ∷ (event_data fresh_writer again, (event_data fresh_writer again).sequence)
      ∷ []
second_cancellation_repeats_example =
    second_cancellation_repeats check line_of fresh_writer lost again (event_data fresh_writer lost)
      (event_data fresh_writer again) (event_data fresh_writer lost).sequence
      (event_data fresh_writer again).sequence no_number refl refl refl refl refl refl refl
