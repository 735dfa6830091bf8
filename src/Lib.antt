-- ===== src/Lib.antt =====
-- OPPA, the print agent: its durable job repository, its job processor, its receipt encoder and
-- interpreter, its states and diagnostics, and its connection to the server.
--
-- A server delivers print jobs over a WebSocket. The agent stores each job before it acknowledges
-- it, submits the stored jobs to a printer one after another, and commits each result together with
-- a report that waits in an outbox until the server acknowledges it.
--
-- Common            lists, results, counting, sorting and texts that the parts share. A text is
--                   its list of code points, with its UTF-8 length.
-- Core              crates/oppa-core/src/lib.rs: identifiers and job states
-- Storage           crates/oppa-storage/src/lib.rs and its migrations
--   Schema          the tables as lists of rows in insertion order, limits, errors, checked keys
--   Payload         what is used of serde_json and sha2, as an interface with serde_json's round
--                   trip; bounded_json and payload_fingerprint
--   Insert          insert_received and pending
--   Transition      transition and the mark_ operations
--   Retention       enforce_terminal_retention and maintain_terminal_jobs
--   Outbox          pending_outbound_statuses, acknowledge_outbound_status, and
--                   has_completed_idempotency_key
--   Recovery        recover_interrupted
--   Loading         pending, with its rows decoded
--   Operations      runs of all operations that change the tables
--   Invariant, Consistency, Delivery, Receipt, Reports, Batches, Lifecycle: the theorems
-- Printer           crates/oppa-printer/src/lib.rs: a configured printer; Validation: its validation
-- Renderer          crates/oppa-renderer/src: the receipt layout (page.rs), errors and targets (lib.rs)
--   Wrapping        lib.rs: wrap_text and layout_row
--   Encoding        escpos.rs render_layout, with render_qr and render_barcode of lib.rs
--   Interpreter     escpos.rs: the parser's state; Commands has the commands and the loop; Soundness,
--                   Stepping, Blocks, Rounds, Running: the theorems
--   RoundTrip       what the encoder writes for commands is read back
-- Agent             crates/oppa-agent/src
--   Lifecycle       lib.rs: AgentHandle
--   Sanitize        lib.rs and processor.rs: bounded, printable diagnostics
--   Failure         processor.rs: the failures of a job, with the errors of oppa-spooler and
--                   oppa-documents that they come from
--   Resolver        processor.rs: StaticPrinterResolver; Catalog, Filing: the theorems
--   Services        processor.rs: the collaborators, messages and state of JobProcessor
--   Processor       processor.rs: preparation and failures; Submission has submit and
--                   process_stored_job, Intake the receipt, cancellation, recovery and the drain;
--                   Telling, Outcomes, Handing, Acknowledging, Failing, Storing, Cancelling,
--                   Submitting: the theorems
-- Transport         crates/oppa-transport/src/lib.rs
--   Session         WebSocketTransport and its sending side: connect, send, buffer, close
--   Receive         receive_text_frame, authentication, receive
--   Backoff         ReconnectBackoff and connect_with_backoff
--   Script          runs of any calls, and whether the acceptance was received in them
--   Order, Calls, Arrivals, Reconnecting, Admission, Accepting, Runs, Flushing, Attempts: the
--                   theorems
-- Protocol          crates/oppa-protocol/src/negotiation.rs: version selection and HandshakePlanner
-- Examples          the main theorems at concrete jobs, tables and sessions
--
-- An SQL statement is the list function that it denotes, a transaction is a result that keeps the
-- old database on an error, and the clock is an argument. The connection's mutex makes operations
-- run one after another, so an interleaving is a list of operations. Enumerated columns and
-- serialized records stand as their values. Error messages are left out.
--
-- A socket stands as the frames that were sent on it. What an await returned is an argument, a list of
-- arrivals where a call awaits several; a call that is not answered by the end of it is waiting. The
-- message codec, and whether a send succeeds, are parameters of the transport.
--
-- A processor's collaborators (codec, printer catalog, renderer, fetcher, spooler) are a record of
-- their answers. While a spooler works, other calls may change the agent: they are an argument. The
-- interpreter's stream is the list of bytes that are left.
--
-- Every recursion is structural, but for the interpreter's loop: its fuel is the length of the stream
-- and one, and every round reads a byte or stops. Native numbers stand for u64, i64 and usize, with
-- the conversions that the code checks written out; row counters do not reach their limits.
--
-- Not modelled: the printers, settings and migrations of the storage, the message codec, page
-- drawing, image decoding and PDF rasterization, the construction of a layout from a document, the
-- local test submissions of the processor, the agent's runtime, the discovery, document and spooler
-- crates but for their errors, the delays of a backoff policy, which are floating-point numbers, and
-- the desktop application.
pub mod Common
pub mod Core
pub mod Printer
pub mod Renderer
pub mod Storage
pub mod Agent
pub mod Transport
pub mod Protocol
pub mod Examples
