-- ===== src/Transcript/RoundTrip.antt =====
-- What a transcript has written is read back: the file of a session without failures replays to the
-- records, the safe state and the evidence of its transcript.
use code_assist_harness.Prelude.{
  ℕ, zero, suc, ◌+◌, ◌≤◌, ◌<◌, String, Option, none, some, Bool, true, false, List, [], ◌∷◌, ◌++◌,
  Text, length, length-append, append_assoc, All, ◌≡◌, ◌≢◌, refl, sym, ap, ◌∙◌, inl, inr, arith,
  Option-cases,
}
use code_assist_harness.Utf8.{encode}
use code_assist_harness.Utf8.RoundTrip.{decode-encode}
use code_assist_harness.Transcript.{
  TranscriptRecord, max_transcript_line_bytes, max_transcript_bytes, max_transcript_records,
}
use code_assist_harness.Transcript.Replay.{
  Replayed, replayed, replay_error, uncaught, ◌>>=◌, Progress, replay_record, replay_records,
}
use code_assist_harness.Transcript.Lines.{
  read_line, ends_with_lf, ends_with_crlf, all_but_last, check_line, replay_lines,
}
use code_assist_harness.Transcript.Writer.{encode_record}
use code_assist_harness.Transcript.Writer.Records.{lines, IsAppendable}

-- No line feed or carriage return, which JSON escapes inside strings.
abbrev pub IsOneLine : List ℕ → Type 0
IsOneLine = All (λ b. (b ≢ 10) × (b ≢ 13))

read_line-append :
    (n : ℕ) (l rest : List ℕ)
    → IsOneLine l
    → length l < n
    → read_line n (l ++ 10 ∷ rest) ≡ (l ++ 10 ∷ [], rest)
unfolding read_line
read_line-append zero l rest h k = absurd (omega arith)
read_line-append (suc n) [] rest h k = refl
read_line-append (suc n) (b ∷ l) rest h k = ground (arith, read_line-append n l rest h.1)

lf_end : (l : List ℕ) → ends_with_lf (l ++ 10 ∷ []) ≡ true
unfolding ends_with_lf
lf_end [] = refl
lf_end (b ∷ []) = refl
lf_end (b ∷ c ∷ l) = lf_end (c ∷ l)

no_crlf_end : (l : List ℕ) → IsOneLine l → ends_with_crlf (l ++ 10 ∷ []) ≡ false
unfolding ends_with_crlf
no_crlf_end [] h = refl
no_crlf_end (b ∷ []) h = ground (arith, h)
no_crlf_end (b ∷ c ∷ []) h = no_crlf_end (c ∷ []) h.1
no_crlf_end (b ∷ c ∷ d ∷ l) h = no_crlf_end (c ∷ d ∷ l) h.1

all_but_last-append : (l : List ℕ) → all_but_last (l ++ 10 ∷ []) ≡ l
unfolding all_but_last
all_but_last-append [] = refl
all_but_last-append (b ∷ []) = refl
all_but_last-append (b ∷ c ∷ l) = ap (λ v. b ∷ v) (all_but_last-append (c ∷ l))

same_continuation :
    {A B : Type 0} (m : Replayed A) (k h : A → Replayed B)
    → ((a : A) → k a ≡ h a)
    → (m >>= k) ≡ (m >>= h)
same_continuation (replayed a) k h e = e a
same_continuation (replay_error c n) k h e = refl
same_continuation uncaught k h e = refl

-- Pydantic's encoding and parsing, of which this much is relied on: what a valid record is encoded
-- to is one line of UTF-8, and parses to the record.
module _ (parse : List ℕ → Option TranscriptRecord) (is_session_id : String → Bool)
    (is_valid_record : TranscriptRecord → Bool) (dump : TranscriptRecord → Option (List ℕ))
    (parse-dump : (r : TranscriptRecord) (l : List ℕ)
      → is_valid_record r ≡ true
      → dump r ≡ some l
      → parse l ≡ some r)
    (dump-IsOneLine : (r : TranscriptRecord) (l : List ℕ)
      → dump r ≡ some l
      → IsOneLine l × ((t : Text) × (encode t ≡ some l))) where
  encoded :
      (r : TranscriptRecord) (line : List ℕ)
      → encode_record dump r ≡ some line
      → (l : List ℕ) × (dump r ≡ some l)
        × (length l ≤ max_transcript_line_bytes)
        × (line ≡ l ++ 10 ∷ [])
  unfolding encode_record
  encoded r line e = elim (Option-cases (dump r)) [
    | inl f ↦ absurd (ground (arith, e, f))
    | inr (l, f) ↦ (l, f, ground (arith, e, f), ground (arith, e, f))
  ]

  check_written :
      (n total : ℕ) (r : TranscriptRecord) (l : List ℕ)
      → is_valid_record r ≡ true
      → dump r ≡ some l
      → length l ≤ max_transcript_line_bytes
      → total ≤ max_transcript_bytes
      → n ≤ max_transcript_records
      → check_line parse is_session_id n total (l ++ 10 ∷ []) ≡ replayed r
  unfolding check_line
  check_written n total r l v d k t m =
      let (o, (text, e)) = dump-IsOneLine r l d in
      ground (
        arith,
        parse-dump r l v d,
        lf_end l,
        no_crlf_end l o,
        all_but_last-append l,
        decode-encode text l e,
        length-append l (10 ∷ []),
      )

  round :
      (fuel n total : ℕ) (r : TranscriptRecord) (l rest : List ℕ) (p : Progress)
      → is_valid_record r ≡ true
      → dump r ≡ some l
      → length l ≤ max_transcript_line_bytes
      → total + length (l ++ 10 ∷ []) ≤ max_transcript_bytes
      → suc n ≤ max_transcript_records
      → replay_lines parse is_session_id (suc fuel) none n total (l ++ 10 ∷ rest) p ≡ (
          replay_record is_session_id none (suc n) r p
          >>= replay_lines parse is_session_id fuel none
              (suc n)
              (total + length (l ++ 10 ∷ []))
              rest)
  unfolding replay_lines
  round fuel n total r [] rest p v d k t m =
      rw
        (
          read_line-append (max_transcript_line_bytes + 2) [] rest tt (omega arith),
          check_written (suc n) (total + 1) r [] v d k t m,
        )
        refl
  round fuel n total r (b ∷ l) rest p v d k t m =
      rw
        (
          read_line-append (max_transcript_line_bytes + 2) (b ∷ l) rest
              (dump-IsOneLine r (b ∷ l) d).0 (omega (arith, k)),
          check_written (suc n) (total + length (b ∷ l ++ 10 ∷ [])) r (b ∷ l) v d k t m,
        )
        refl

  -- The first record of several, when the others replay as they should.
  with_fuel :
      (r : TranscriptRecord) (rs : List TranscriptRecord) (l : List ℕ) (n total : ℕ) (p : Progress)
      → is_valid_record r ≡ true
      → dump r ≡ some l
      → length l ≤ max_transcript_line_bytes
      → (fuel : ℕ) → lines dump (r ∷ rs) ≡ l ++ 10 ∷ lines dump rs
      → 1 + length (lines dump rs) ≤ fuel
      → suc n ≤ max_transcript_records
      → total + length (l ++ 10 ∷ []) ≤ max_transcript_bytes
      → ((g : ℕ) (q : Progress)
          → length (lines dump rs) ≤ g
          → replay_lines parse is_session_id g none
              (suc n)
              (total + length (l ++ 10 ∷ []))
              (lines dump rs)
              q
            ≡ replay_records is_session_id none (suc (suc n)) rs q)
      → replay_lines parse is_session_id fuel none n total (lines dump (r ∷ rs)) p ≡ (
          replay_record is_session_id none (suc n) r p
          >>= replay_records is_session_id none (suc (suc n)) rs)
  with_fuel r rs l n total p v d k zero w f m t ih = absurd (omega (arith, f))
  with_fuel r rs l n total p v d k (suc g) w f m t ih =
      ap (λ bs. replay_lines parse is_session_id (suc g) none n total bs p) w
      ∙ round g n total r l (lines dump rs) p v d k t m
      ∙ same_continuation (replay_record is_session_id none (suc n) r p)
          (replay_lines parse is_session_id g none (suc n) (total + length (l ++ 10 ∷ []))
            (lines dump rs))
          (replay_records is_session_id none (suc (suc n)) rs) (λ q. ih g q (omega (arith, f)))

  pub replay_lines-lines :
      (rs : List TranscriptRecord) (fuel n total : ℕ) (p : Progress)
      → All (IsAppendable is_valid_record dump) rs
      → length (lines dump rs) ≤ fuel
      → n + length rs ≤ max_transcript_records
      → total + length (lines dump rs) ≤ max_transcript_bytes
      → replay_lines parse is_session_id fuel none n total (lines dump rs) p
        ≡ replay_records is_session_id none (suc n) rs p
  unfolding replay_records
  replay_lines-lines [] fuel n total p a f m t = unfold replay_lines in refl
  replay_lines-lines (r ∷ rs) fuel n total p ((v, (line, e)), a) f m t =
      let (l, d, k, j) = encoded r line e in
      let whole : lines dump (r ∷ rs) ≡ l ++ 10 ∷ lines dump rs =
        ap (λ o. (elim o [ none ↦ [] | some b ↦ b ]) ++ lines dump rs) (e ∙ ap some j)
        ∙ append_assoc l (10 ∷ []) (lines dump rs) in
      let size : length (lines dump (r ∷ rs)) ≡ length (l ++ 10 ∷ []) + length (lines dump rs) =
        ap length whole
        ∙ ap length (sym (append_assoc l (10 ∷ []) (lines dump rs)))
        ∙ length-append (l ++ 10 ∷ []) (lines dump rs) in
      with_fuel r rs l n total p v d k fuel whole
        (omega (arith, f, size, length-append l (10 ∷ []))) (omega (arith, m))
        (omega (arith, t, size))
        (λ g q h.
          replay_lines-lines rs g (suc n) (total + length (l ++ 10 ∷ [])) q a h (omega (arith, m))
            (omega (arith, t, size)))
