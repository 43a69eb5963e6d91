-- ===== src/Transcript/Summary/Layout.antt =====
-- The lines of a summary stay lines, whatever the session's task and failure say.
use code_assist_harness.Prelude.{
  ℕ, Option, none, some, Bool, true, ◌&&◌, not, List, [], ◌∷◌, ◌++◌, Text, codes, ◌==◌,
  if◌then◌else◌, All, All-append, ◌≡◌, refl, ap, ◌∙◌, arith, inl, inr, Bool-cases,
}
use code_assist_harness.Limits.{LoopLimitExhaustion}
use code_assist_harness.Limits.Tracker.{LoopLimitsObserved}
use code_assist_harness.Session.{SessionStatus, SessionFailure, SessionState}
use code_assist_harness.Transcript.{TranscriptEvidence, ModelUsageObserved}
use code_assist_harness.Transcript.Summary.{
  is_control, single_line, status_name, exhaustion_name, or_unavailable, text_of, usage_lines,
  loop_limit_lines, failure_lines, unavailable_lines, summary_lines, end_lines,
}

-- The lines of a text, each up to a line feed, and what follows the last one.
abbrev first_line : ℕ → List Text → List Text
first_line c [] = (c ∷ []) ∷ []
first_line c (l ∷ ls) = if c == 10 then [] ∷ l ∷ ls else (c ∷ l) ∷ ls

abbrev pub read_lines : Text → List Text
read_lines [] = [] ∷ []
read_lines (c ∷ cs) = first_line c (read_lines cs)

abbrev pub no_lf : Text → Bool
no_lf [] = true
no_lf (c ∷ cs) = not (c == 10) && no_lf cs

abbrev pub IsLine : Text → Type 0
IsLine l = no_lf l ≡ true

some_lines : (t : Text) → (l : Text) × (ls : List Text) × (read_lines t ≡ l ∷ ls)
some_lines [] = ([], [], refl)
some_lines (c ∷ cs) =
    let (l, ls, e) = some_lines cs in
    elim (Bool-cases (c == 10)) [
      | inl h ↦ ([], l ∷ ls, ground (arith, e, h))
      | inr h ↦ (c ∷ l, ls, ground (arith, e, h))
    ]

read_lines-append : (l t : Text) → IsLine l → read_lines (l ++ 10 ∷ t) ≡ l ∷ read_lines t
read_lines-append [] t h = let (m, ms, e) = some_lines t in ground (arith, e)
read_lines-append (c ∷ cs) t h = ground (arith, h, read_lines-append cs t)

single_line-IsLine : (t : Text) → IsLine (single_line t)
unfolding single_line is_control
single_line-IsLine [] = refl
single_line-IsLine (c ∷ cs) = ground (arith, single_line-IsLine cs)

append-IsLine : (s t : Text) → IsLine s → IsLine t → IsLine (s ++ t)
append-IsLine [] t h k = k
append-IsLine (c ∷ cs) t h k = ground (arith, h, append-IsLine cs t)

read_lines-end_lines : (ls : List Text) → All IsLine ls → read_lines (end_lines ls) ≡ ls ++ [] ∷ []
read_lines-end_lines [] h = refl
read_lines-end_lines (l ∷ ls) h =
    read_lines-append l (end_lines ls) h.0 ∙ ap (λ ms. l ∷ ms) (read_lines-end_lines ls h.1)

status-IsLine : (s : SessionStatus) → IsLine (status_name s)
status-IsLine s = ground arith

exhaustion-IsLine : (x : Option LoopLimitExhaustion) → IsLine (exhaustion_name x)
exhaustion-IsLine none = refl
exhaustion-IsLine (some x) = ground arith

or_unavailable-IsLine :
    (o : Option Text) → ((t : Text) → o ≡ some t → IsLine t) → IsLine (or_unavailable o)
or_unavailable-IsLine none h = refl
or_unavailable-IsLine (some []) h = refl
or_unavailable-IsLine (some (c ∷ cs)) h = h (c ∷ cs) refl

failure-IsLine : (f : Option SessionFailure) → All IsLine (failure_lines f)
unfolding failure_lines
failure-IsLine none = tt
failure-IsLine (some f) = (
  append-IsLine (codes "Failure code: ") (single_line (codes f.code)) refl
      (single_line-IsLine (codes f.code)),
  (
    append-IsLine (codes "Failure message: ") (single_line f.message) refl
        (single_line-IsLine f.message),
    tt,
  ),
)

module _ (decimal : ℕ → Text) (decimal-IsLine : (n : ℕ) → IsLine (decimal n)) where
  usage-IsLine : (u : Option ModelUsageObserved) → All IsLine (usage_lines decimal u)
  unfolding usage_lines
  usage-IsLine none = (refl, tt)
  usage-IsLine (some u) = (
    append-IsLine (codes "Model input tokens: ") (decimal u.input_tokens) refl
        (decimal-IsLine u.input_tokens),
    (
      append-IsLine (codes "Model output tokens: ") (decimal u.output_tokens) refl
          (decimal-IsLine u.output_tokens),
      tt,
    ),
  )

  labelled : (t : Text) (n : ℕ) → IsLine t → IsLine (t ++ decimal n)
  labelled t n h = append-IsLine t (decimal n) h (decimal-IsLine n)

  limits-IsLine : (l : Option LoopLimitsObserved) → All IsLine (loop_limit_lines decimal l)
  unfolding loop_limit_lines
  limits-IsLine none = (refl, tt)
  limits-IsLine (some l) = (
    labelled (codes "Maximum model turns: ") l.limits.max_model_turns refl,
    (
      labelled (codes "Provider work timeout seconds: ") l.limits.provider_work_timeout_seconds
          refl,
      (
        labelled (codes "Maximum assistant output bytes: ") l.limits.max_assistant_output_bytes
            refl,
        (
          labelled (codes "Maximum observed tool calls: ") l.limits.max_observed_tool_calls refl,
          (
            labelled (codes "Model turns started: ") l.model_turns_started refl,
            (
              labelled (codes "Assistant output bytes: ") l.assistant_output_bytes refl,
              (
                labelled (codes "Tool calls observed: ") l.tool_calls_observed refl,
                (
                  append-IsLine (codes "Exhausted loop limit: ") (exhaustion_name l.exhausted) refl
                      (exhaustion-IsLine l.exhausted),
                  tt,
                ),
              ),
            ),
          ),
        ),
      ),
    ),
  )

  -- A summary, read line by line, is the list of its lines: neither the task nor the code or the message
  -- of a failure adds a line, whatever characters they hold. The name of the transcript, the session's
  -- identifier and the numbers as they are written hold no line feed.
  pub summary_layout :
      (state : SessionState) (evidence : TranscriptEvidence) (transcript_name : Text)
      → IsLine transcript_name
      → ((t : Text) → text_of state.session_id ≡ some t → IsLine t)
      → read_lines (end_lines (summary_lines decimal state evidence transcript_name))
        ≡ summary_lines decimal state evidence transcript_name ++ [] ∷ []
  unfolding summary_lines
  summary_layout state evidence transcript_name h k =
      read_lines-end_lines (summary_lines decimal state evidence transcript_name) (
        refl,
        (
          refl,
          (
            append-IsLine (codes "Transcript: ") transcript_name refl h,
            (
              append-IsLine (codes "Session: ") (or_unavailable (text_of state.session_id)) refl
                  (or_unavailable-IsLine (text_of state.session_id) k),
              (
                append-IsLine (codes "Task: ") (single_line (or_unavailable state.task)) refl
                    (single_line-IsLine (or_unavailable state.task)),
                (
                  append-IsLine (codes "Outcome: ") (status_name state.status) refl
                      (status-IsLine state.status),
                  All-append IsLine (usage_lines decimal evidence.model_usage)
                      (loop_limit_lines decimal evidence.loop_limits
                        ++ (unavailable_lines ++ failure_lines state.session_failure))
                      (usage-IsLine evidence.model_usage)
                      (All-append IsLine (loop_limit_lines decimal evidence.loop_limits)
                        (unavailable_lines ++ failure_lines state.session_failure)
                        (limits-IsLine evidence.loop_limits)
                        (All-append IsLine unavailable_lines (failure_lines state.session_failure)
                          (refl, (refl, tt)) (failure-IsLine state.session_failure))),
                ),
              ),
            ),
          ),
        ),
      )
