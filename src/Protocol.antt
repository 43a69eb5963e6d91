-- ===== src/Protocol.antt =====
-- The session events of protocol/models.py, as the reducer and the writer see them. The strict
-- wire validation is pydantic's, and is not modelled.
pub mod Reader
pub mod Writer
use code_assist_harness.Prelude.{ℕ, String, Option, Text}

-- The fields that every session event has (`_SessionEventBase`). `protocol_version` is always 1.
pub record Envelope : Type 0 where
  pub session_id : String
  pub sequence : ℕ
  pub timestamp : String
  pub correlation_id : Option String

-- The union `SessionEvent`, each event with its payload.
pub data SessionEvent : Type 0 where
  session_started : Envelope → SessionEvent
  assistant_delta : Envelope → Text → SessionEvent
  assistant_completed : Envelope → Text → SessionEvent
  session_completed : Envelope → SessionEvent
  session_cancelled : Envelope → SessionEvent
  session_failed : Envelope → String → Text → SessionEvent

abbrev pub envelope : SessionEvent → Envelope
envelope (session_started e) = e
envelope (assistant_delta e text) = e
envelope (assistant_completed e text) = e
envelope (session_completed e) = e
envelope (session_cancelled e) = e
envelope (session_failed e code message) = e
