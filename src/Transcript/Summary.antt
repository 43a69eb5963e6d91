-- ===== src/Transcript/Summary.antt =====
-- `_build_summary` and `_single_line` of persistence/transcript.py: the text beside a transcript.
pub mod Layout
use code_assist_harness.Prelude.{
  ℕ, Option, none, some, Bool, true, false, ◌&&◌, ◌||◌, not, List, [], ◌∷◌, ◌++◌, String, Text,
  codes, ltb, leb, ◌==◌, if◌then◌else◌,
}
use code_assist_harness.Utf8.{encode}
use code_assist_harness.Limits.{
  LoopLimitExhaustion, model_turns, provider_work, assistant_output, tool_calls,
}
use code_assist_harness.Limits.Tracker.{LoopLimitsObserved}
use code_assist_harness.Session.{
  SessionStatus, idle, starting, running, awaiting_approval, cancelling, completed, cancelled,
  failed, SessionFailure, SessionState,
}
use code_assist_harness.Transcript.{TranscriptEvidence, ModelUsageObserved}

-- The characters that are replaced by a space.
unfoldable pub is_control : ℕ → Bool
is_control c = ltb c 32 || leb 127 c && leb c 159

unfoldable pub single_line : Text → Text
single_line [] = []
single_line (c ∷ cs) = (if is_control c then 32 else c) ∷ single_line cs

abbrev pub status_name : SessionStatus → Text
status_name idle = codes "idle"
status_name starting = codes "starting"
status_name running = codes "running"
status_name awaiting_approval = codes "awaiting_approval"
status_name cancelling = codes "cancelling"
status_name completed = codes "completed"
status_name cancelled = codes "cancelled"
status_name failed = codes "failed"

abbrev pub exhaustion_name : Option LoopLimitExhaustion → Text
exhaustion_name none = codes "none"
exhaustion_name (some model_turns) = codes "model_turns"
exhaustion_name (some provider_work) = codes "provider_work"
exhaustion_name (some assistant_output) = codes "assistant_output"
exhaustion_name (some tool_calls) = codes "tool_calls"

-- `value or 'unavailable'`.
abbrev pub or_unavailable : Option Text → Text
or_unavailable none = codes "unavailable"
or_unavailable (some []) = codes "unavailable"
or_unavailable (some (c ∷ cs)) = c ∷ cs

abbrev pub text_of : Option String → Option Text
text_of none = none
text_of (some s) = some (codes s)

-- The lines joined by line feeds, with one more at the end.
abbrev pub end_lines : List Text → Text
end_lines [] = []
end_lines (l ∷ ls) = l ++ 10 ∷ end_lines ls

abbrev pub unavailable_lines : List Text
unavailable_lines =
    codes "Changed files: unavailable - file-edit tools are not implemented in CAH-011."
    ∷ codes "Check results: unavailable - validation tools are not implemented in CAH-011."
    ∷ []

unfoldable pub failure_lines : Option SessionFailure → List Text
failure_lines none = []
failure_lines (some f) =
    (codes "Failure code: " ++ single_line (codes f.code))
    ∷ (codes "Failure message: " ++ single_line f.message)
    ∷ []

-- How Python writes a number.
module _ (decimal : ℕ → Text) where
  unfoldable pub usage_lines : Option ModelUsageObserved → List Text
  usage_lines none = codes "Model usage: unavailable" ∷ []
  usage_lines (some u) =
      (codes "Model input tokens: " ++ decimal u.input_tokens)
      ∷ (codes "Model output tokens: " ++ decimal u.output_tokens)
      ∷ []

  unfoldable pub loop_limit_lines : Option LoopLimitsObserved → List Text
  loop_limit_lines none = codes "Loop limits: unavailable" ∷ []
  loop_limit_lines (some l) =
      (codes "Maximum model turns: " ++ decimal l.limits.max_model_turns)
      ∷ (codes "Provider work timeout seconds: " ++ decimal l.limits.provider_work_timeout_seconds)
      ∷ (codes "Maximum assistant output bytes: " ++ decimal l.limits.max_assistant_output_bytes)
      ∷ (codes "Maximum observed tool calls: " ++ decimal l.limits.max_observed_tool_calls)
      ∷ (codes "Model turns started: " ++ decimal l.model_turns_started)
      ∷ (codes "Assistant output bytes: " ++ decimal l.assistant_output_bytes)
      ∷ (codes "Tool calls observed: " ++ decimal l.tool_calls_observed)
      ∷ (codes "Exhausted loop limit: " ++ exhaustion_name l.exhausted)
      ∷ []

  unfoldable pub summary_lines : SessionState → TranscriptEvidence → Text → List Text
  summary_lines state evidence transcript_name =
      codes "Code Assist Harness session summary"
      ∷ []
      ∷ (codes "Transcript: " ++ transcript_name)
      ∷ (codes "Session: " ++ or_unavailable (text_of state.session_id))
      ∷ (codes "Task: " ++ single_line (or_unavailable state.task))
      ∷ (codes "Outcome: " ++ status_name state.status)
      ∷ (usage_lines evidence.model_usage
          ++ (loop_limit_lines evidence.loop_limits
              ++ (unavailable_lines ++ failure_lines state.session_failure)))

  -- `none` is a UnicodeEncodeError.
  unfoldable pub build_summary : SessionState → TranscriptEvidence → Text → Option (List ℕ)
  build_summary state evidence transcript_name =
      encode (end_lines (summary_lines state evidence transcript_name))
