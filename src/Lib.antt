-- ===== src/Lib.antt =====
-- A model of the Python runtime of the code assistant harness, src/code_assist_harness.
--
-- The runtime takes commands from a terminal interface as lines of JSON, runs one session at a time
-- against a provider, and answers with events as lines of JSON. The bytes of the commands go through
-- a bounded line reader; each session is a state that a reducer forms from trusted updates and from
-- its own events; budgets are kept in a tracker; events are numbered by an ordered writer; and paths
-- of the repository are admitted by a workspace boundary. What a session accepts can be recorded in a
-- transcript, a file of lines that is replayed to the same state.
--
-- Files:
--   Session/      src/code_assist_harness/session_state.py. Session.antt has the states and the
--                 updates; Reducer has reduce_session_state, its handlers and
--                 replay_session_updates. Step is the relation of the legal transitions; Tape reads
--                 the events off a list of updates.
--   Limits/       src/code_assist_harness/loop_limits.py. Limits.antt has the validators and
--                 LoopLimits; Tracker has LoopLimitTracker, whose methods return the new tracker, and
--                 LoopLimitsObserved. Python values that a validator looks at are PyValue.
--   Protocol/     src/code_assist_harness/protocol/streams.py. Reader is _BoundedLineReader, with the
--                 line parser as a parameter; Reader/Bytes is a reader that takes one byte at a time.
--                 Writer is OrderedEventWriter, with the validation and the encoding of events as
--                 parameters; each emission comes with the way the call of the sink went.
--                 Protocol.antt has the session events of protocol/models.py.
--   Workspace/    src/code_assist_harness/workspace.py. Workspace.antt has
--                 normalize_workspace_relative_path; Boundary has WorkspaceBoundary over a file
--                 system whose answers depend on the number of calls before them, so that it may
--                 change at any time.
--   ProviderSession/  src/code_assist_harness/provider_session.py. ProviderSession.antt has the
--                 attributes of a session that decisions use; Decisions has what is decided about an
--                 observation of the provider; Operations has the operations that take the decision
--                 lock, and their runs. The clock, the writer and the observers are functions of the
--                 number of the call; an exception is an outcome that leaves the session as it was at
--                 that point.
--   Transcript/   src/code_assist_harness/persistence/transcript.py. Transcript.antt has the records,
--                 Sanitizer bounds their texts, Writer is SessionTranscript (Requests has its
--                 methods), Replay and Lines are replay_transcript, and Summary words the
--                 summary. The file operations are functions of the number of the call, which may
--                 fail or write a part; pydantic's validation, encoding and parsing of records are
--                 parameters, and so are the regular expressions of the redaction, the way a number
--                 is written and the outcome of writing a summary.
--   Repository/   src/code_assist_harness/repository_access.py. Repository.antt has the denied names and
--                 the state of a decision; Grammar and Lines are the policy lines, Ignore is
--                 _is_ignored, Admission and Policies are RepositoryReadPolicy. A method is a function
--                 of the state of the decision. The answers of the workspace boundary and of the file
--                 system depend on the number of the call, and the patterns of pathspec are a
--                 parameter.
--   Utf8          Python's strict UTF-8 codec, on code points and bytes.
--   Prelude       Names of the libraries, Boolean tests, lists, and the values and errors of Python.
--
-- Numbers are unbounded, as Python's are; where a value may be negative it is an integer. Texts are
-- lists of code points, byte strings are lists of numbers. Exceptions are values of result types. The
-- loop of feed runs on the length of the chunk, of which each round takes at least one byte; decode,
-- the loop of _write_all and that over the lines of a transcript run on the number of bytes in the
-- same way; every other loop is structural.
--
-- Not modelled: the JSON codec and the field validation of protocol/models.py, which is pydantic's;
-- emit_runtime, which keeps no state; the tasks of a provider session that clean up its operation;
-- the mock session, the providers and the runtime's command loop; how the files of a transcript are
-- created; and the terminal interface, which is not Python. Locks are taken as held, so that the
-- operations of a component follow one another.
pub mod Limits
pub mod Prelude
pub mod Protocol
pub mod ProviderSession
pub mod Repository
pub mod Session
pub mod Transcript
pub mod Utf8
pub mod Workspace
