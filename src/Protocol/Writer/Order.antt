-- ===== src/Protocol/Writer/Order.antt =====
-- The sequence numbers that the writer publishes.
use code_assist_harness.Prelude.{
  ℕ, zero, suc, ◌+◌, ◌≤◌, ◌<◌, String, str_eq, str_eq_iff, str_eq_refl, Option, some, true, false,
  List, [], ◌∷◌, ◌++◌, ltb, ◌≡◌, ◌≢◌, ◌⊎◌, inl, inr, refl, ap, ◌∙◌, subst, arith, All, Option-cases,
  Bool-cases,
}
use code_assist_harness.Protocol.Writer.{
  OrderedEventWriter, EventData, Emission, SinkCall, completes, fails, WriteOutcome, written,
  cancelled, sink_error, cancelled_then_completes, cancelled_then_fails, cancelled_twice,
  max_safe_sequence, get, put, write_line, event_data, emit_line, emit_session, emit_all,
}

pub get-put_same :
    (entries : List (String × ℕ)) (key : String) (n : ℕ) → get (put entries key n) key ≡ n
unfolding get put
get-put_same [] key n = ground (arith, str_eq_refl key)
get-put_same ((k, m) ∷ entries) key n = elim (Bool-cases (str_eq k key)) [
  | inl e ↦ ground (arith, e)
  | inr e ↦ ground (arith, e, get-put_same entries key n)
]

get-put_other :
    (entries : List (String × ℕ)) (key other : String) (n : ℕ)
    → key ≢ other
    → get (put entries key n) other ≡ get entries other
unfolding get put
get-put_other [] key other n d = ground (arith, d, str_eq_iff key other)
get-put_other ((k, m) ∷ entries) key other n d = elim (Bool-cases (str_eq k key)) [
  | inl e ↦ ground (arith, e, d, str_eq_iff k key, str_eq_iff k other)
  | inr e ↦ ground (arith, e, get-put_other entries key other n d)
]

-- A sink call that is not cancelled twice.
pub data IsSettled : SinkCall → Type 0 where
  completes_IsSettled : IsSettled completes
  fails_IsSettled : IsSettled fails
  cancelled_completes_IsSettled : IsSettled cancelled_then_completes
  cancelled_fails_IsSettled : IsSettled cancelled_then_fails

settled_cases :
    (c : SinkCall)
    → IsSettled c
    → ((o : WriteOutcome) × (write_line c ≡ (true, true, o)))
      ⊎ (o : WriteOutcome) × (write_line c ≡ (false, false, o))
unfolding write_line
settled_cases completes s = inl (written, refl)
settled_cases fails s = inr (sink_error, refl)
settled_cases cancelled_then_completes s = inl (cancelled, refl)
settled_cases cancelled_then_fails s = inr (sink_error, refl)
settled_cases (cancelled_twice b) s = elim s [ ]

-- The numbers of a session's lines among those that are published.
unfoldable pub numbers : {P L : Type 0} → String → List (EventData P × L) → List ℕ
numbers s [] = []
numbers s ((d, line) ∷ rest) =
    let later = numbers s rest in
    elim (str_eq d.session_id s) [ true ↦ d.sequence ∷ later | false ↦ later ]

-- `n` numbers from `first` on.
unfoldable pub count_from : ℕ → ℕ → List ℕ
count_from first zero = []
count_from first (suc n) = first ∷ count_from (suc first) n

-- From the number `a`, each number is one above the one before it, up to `b`.
pub data Counts : ℕ → List ℕ → ℕ → Type 0 where
  none_left : {a : ℕ} → Counts a [] a
  one_more :
      {a b : ℕ} {ns : List ℕ}
      → a < max_safe_sequence
      → Counts (suc a) ns b
      → Counts a (suc a ∷ ns) b

Counts-one :
    {a b : ℕ} {ns : List ℕ} → a < max_safe_sequence → ns ≡ suc a ∷ [] → b ≡ suc a → Counts a ns b
Counts-one l e f = rw (e, f) (one_more l none_left)

Counts-none : {a b : ℕ} {ns : List ℕ} → ns ≡ [] → b ≡ a → Counts a ns b
Counts-none e f = rw (e, f) none_left

Counts-append : {a b c : ℕ} {ms ns : List ℕ} → Counts a ms b → Counts b ns c → Counts a (ms ++ ns) c
Counts-append none_left k = k
Counts-append (one_more l h) k = one_more l (Counts-append h k)

pub Counts-bounded :
    {a b : ℕ} {ns : List ℕ} → Counts a ns b → a ≤ max_safe_sequence → b ≤ max_safe_sequence
Counts-bounded none_left l = l
Counts-bounded (one_more m h) l = Counts-bounded h (omega arith)

pub Counts-count_from :
    {a b : ℕ} {ns : List ℕ} → Counts a ns b → (n : ℕ) × (b ≡ a + n) × (ns ≡ count_from (suc a) n)
unfolding count_from
Counts-count_from none_left = (0, omega arith, refl)
Counts-count_from (one_more {a} l h) =
    let (n, e, f) = Counts-count_from h in (suc n, omega arith, ap (λ r. suc a ∷ r) f)

pub numbers-cons :
    {P L : Type 0} (s : String) (d : EventData P) (line : L) (rest : List (EventData P × L))
    → (d.session_id ≡ s) × (numbers s ((d, line) ∷ rest) ≡ d.sequence ∷ numbers s rest)
      ⊎ (d.session_id ≢ s) × (numbers s ((d, line) ∷ rest) ≡ numbers s rest)
unfolding numbers
numbers-cons s d line rest = ground (arith, str_eq_iff d.session_id s)

numbers-append :
    {P L : Type 0} (s : String) (xs ys : List (EventData P × L))
    → numbers s (xs ++ ys) ≡ numbers s xs ++ numbers s ys
numbers-append s [] ys = unfold numbers in refl
numbers-append s ((d, line) ∷ xs) ys =
    ground
      (arith, numbers-cons s d line xs, numbers-cons s d line (xs ++ ys), numbers-append s xs ys)

module _ {P E L : Type 0} (validate : EventData P → Option E) (encode : E → Option L) where
  -- What one emission does: nothing at all, or it publishes one line, under the next number of its
  -- session, and stores the number.
  data Emits (w next : OrderedEventWriter) (m : Emission P) (lines : List (EventData P × L))
      : Type 0 where
    nothing : next ≡ w → lines ≡ [] → Emits w next m lines
    one_line :
        {event : E} {line : L}
        → validate (event_data w m) ≡ some event
        → encode event ≡ some line
        → get w.session_sequences m.session_id < max_safe_sequence
        → next.session_sequences
          ≡ put w.session_sequences m.session_id (get w.session_sequences m.session_id + 1)
        → lines ≡ (event_data w m, line) ∷ []
        → Emits w next m lines

  emit_line-Emits :
      (w : OrderedEventWriter) (m : Emission P) (event : E) (line : L)
      → IsSettled m.sink
      → validate (event_data w m) ≡ some event
      → encode event ≡ some line
      → get w.session_sequences m.session_id < max_safe_sequence
      → Emits w
          (emit_line validate encode w m event line).0
          m
          (emit_line validate encode w m event line).1
  unfolding emit_line
  emit_line-Emits w m event line s e f l = elim (settled_cases m.sink s) [
    | inl (o, h) ↦ one_line e f l (ground (arith, h)) (ground (arith, h))
    | inr (o, h) ↦ nothing (ground (arith, h)) (ground (arith, h))
  ]

  pub emit_reaches_line :
      (w : OrderedEventWriter) (m : Emission P) (event : E) (line : L)
      → ltb max_safe_sequence (get w.session_sequences m.session_id + 1) ≡ false
      → validate (event_data w m) ≡ some event
      → encode event ≡ some line
      → emit_session validate encode w m ≡ emit_line validate encode w m event line
  unfolding emit_session
  emit_reaches_line w m event line e f g = ground (arith, e, f, g)

  emit_session-Emits :
      (w : OrderedEventWriter) (m : Emission P)
      → IsSettled m.sink
      → Emits w (emit_session validate encode w m).0 m (emit_session validate encode w m).1
  emit_session-Emits w m s =
      elim (Bool-cases (ltb max_safe_sequence (get w.session_sequences m.session_id + 1))) [
        | inl e ↦ unfold emit_session in nothing (ground (arith, e)) (ground (arith, e))
        | inr e ↦ elim (Option-cases (validate (event_data w m))) [
          | inl f ↦ unfold emit_session in nothing (ground (arith, e, f)) (ground (arith, e, f))
          | inr (event, f) ↦ elim (Option-cases (encode event)) [
            | inl g ↦
                unfold emit_session in nothing (ground (arith, e, f, g)) (ground (arith, e, f, g))
            | inr (line, g) ↦
                rw (emit_reaches_line w m event line e f g)
                  (emit_line-Emits w m event line s f g (ground (arith, e)))
          ]
        ]
      ]

  Emits-Counts :
      (s : String) (w next : OrderedEventWriter) (m : Emission P) (lines : List (EventData P × L))
      → Emits w next m lines
      → Counts (get w.session_sequences s) (numbers s lines) (get next.session_sequences s)
  Emits-Counts s w next m lines (nothing e f) = rw (e, f) (unfold numbers in none_left)
  Emits-Counts s w next m lines (one_line {line} e f l n h) =
      elim (numbers-cons s (event_data w m) line []) [
        | inl (d, j) ↦
            let same =
              get-put_same w.session_sequences m.session_id
                (get w.session_sequences m.session_id + 1) in
            subst
              (λ t.
                Counts (get w.session_sequences t) (numbers s lines) (get next.session_sequences t))
              d
              (Counts-one l (ap (numbers s) h ∙ j ∙ unfold numbers in ground arith)
                (ap (λ r. get r m.session_id) n ∙ same ∙ omega arith))
        | inr (d, j) ↦ Counts-none (ap (numbers s) h ∙ j ∙ unfold numbers in refl) (
            ap (λ r. get r s) n
            ∙ get-put_other w.session_sequences m.session_id s
                (get w.session_sequences m.session_id + 1) d)
      ]

  pub emit_all-Counts :
      (s : String) (w : OrderedEventWriter) (ms : List (Emission P))
      → All (λ m. IsSettled m.sink) ms
      → Counts
          (get w.session_sequences s)
          (numbers s (emit_all validate encode w ms).1)
          (get (emit_all validate encode w ms).0.session_sequences s)
  unfolding emit_all
  emit_all-Counts s w [] h = unfold numbers in none_left
  emit_all-Counts s w (m ∷ ms) h =
      let (next, lines, result) = emit_session validate encode w m in
      let (last, later) = emit_all validate encode next ms in
      rw (numbers-append s lines later) (
        Counts-append (Emits-Counts s w next m lines (emit_session-Emits w m h.0))
          (emit_all-Counts s next ms h.1))
