-- ===== src/Protocol/Writer/Sequences.antt =====
-- The numbers of a session from a fresh writer on, and what a second cancellation does to them.
use code_assist_harness.Prelude.{
  ◌≤◌, ◌<◌, String, Option, some, true, List, [], ◌∷◌, ◌≡◌, refl, ap, ◌∙◌, sym, arith, All,
}
use code_assist_harness.Protocol.Writer.{
  OrderedEventWriter, fresh_writer, EventData, Emission, completes, cancelled_twice,
  max_safe_sequence, get, write_line, event_data, emit_line, emit_all,
}
use code_assist_harness.Protocol.Writer.Order.{
  IsSettled, numbers, count_from, Counts-bounded, Counts-count_from, emit_all-Counts,
  emit_reaches_line,
}

-- When no call of the sink is cancelled twice, the lines that a fresh writer publishes for a session
-- are numbered 1, 2, 3 and so on up to the stored number, whatever the emissions of the session and
-- of others, and whether they fail or not; and the number is a safe integer.
pub published_in_order :
    {P E L : Type 0} (validate : EventData P → Option E) (encode : E → Option L) (s : String)
    (ms : List (Emission P))
    → All (λ m. IsSettled m.sink) ms
    → (numbers s (emit_all validate encode fresh_writer ms).1
        ≡ count_from 1 (get (emit_all validate encode fresh_writer ms).0.session_sequences s))
      × (get (emit_all validate encode fresh_writer ms).0.session_sequences s ≤ max_safe_sequence)
published_in_order validate encode s ms h =
    let k = emit_all-Counts validate encode s fresh_writer ms h in
    let (n, e, f) = Counts-count_from k in
    (
      unfold get in (f ∙ ap (count_from 1) (sym (e ∙ omega arith))),
      Counts-bounded k (unfold get in omega arith),
    )

cancelled_line :
    {P E L : Type 0} (validate : EventData P → Option E) (encode : E → Option L)
    (w : OrderedEventWriter) (m : Emission P) (event : E) (line : L)
    → m.sink ≡ cancelled_twice true
    → ((emit_line validate encode w m event line).0 ≡ w)
      × ((emit_line validate encode w m event line).1 ≡ (event_data w m, line) ∷ [])
unfolding emit_line write_line
cancelled_line validate encode w m event line e = ground (arith, e)

completed_line :
    {P E L : Type 0} (validate : EventData P → Option E) (encode : E → Option L)
    (w : OrderedEventWriter) (m : Emission P) (event : E) (line : L)
    → m.sink ≡ completes
    → (emit_line validate encode w m event line).1 ≡ (event_data w m, line) ∷ []
unfolding emit_line write_line
completed_line validate encode w m event line e = ground (arith, e)

-- An emission that is cancelled twice, after its line was written, leaves its number to the next
-- one: the line of the next emission for the session is published under the same number. Both events
-- are valid and can be encoded, and the numbers of the session are not used up.
pub second_cancellation_repeats :
    {P E L : Type 0} (validate : EventData P → Option E) (encode : E → Option L)
    (w : OrderedEventWriter) (m next : Emission P) (event later : E) (line last : L)
    → get w.session_sequences m.session_id < max_safe_sequence
    → next.session_id ≡ m.session_id
    → m.sink ≡ cancelled_twice true
    → next.sink ≡ completes
    → validate (event_data w m) ≡ some event
    → encode event ≡ some line
    → validate (event_data w next) ≡ some later
    → encode later ≡ some last
    → (emit_all validate encode w (m ∷ next ∷ [])).1
      ≡ (event_data w m, line) ∷ (event_data w next, last) ∷ []
unfolding emit_all
second_cancellation_repeats validate encode w m next event later line last l i s t e f g h =
    let (same, lines) = cancelled_line validate encode w m event line s in
    let first = emit_reaches_line validate encode w m event line (ground (arith, l)) e f in
    let second = emit_reaches_line validate encode w next later last (ground (arith, l, i)) g h in
    let after = completed_line validate encode w next later last t in
    rw (first, same, lines, second, after) refl
