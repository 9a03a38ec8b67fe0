-- ===== src/Lib.antt =====
-- Mosaic Desktop: a desktop agent that runs a model's commands, in Rust under src-tauri/src.
--
-- The parts modelled, and how they meet. A model's reply streams in as text, which the stream
-- parsers cut into what the user sees, citations and plan segments, behind a buffer for the bytes
-- of characters that have not arrived whole. The turns of the conversation, with the calls of tools
-- and their outputs, are kept in the state of the session by the context manager, which repairs and
-- truncates them before they are sent again; the state of a turn holds what it waits for. What
-- happens is written to a rollout: from it the history is rebuilt when a session resumes, and the
-- builder of the thread history makes the turns that the user sees. A call of a shell command is
-- checked by the exec policy, and what the command prints is kept by a head-tail buffer. Agents
-- that spawn agents share the guards, which limit how many there are and name them. The settings
-- come from layers of configuration, and some are constrained to what an administrator allows.
--
--   file                  source
--   HeadTail              src-tauri/src/core/unified_exec/head_tail_buffer.rs
--   ExecPolicy/Rule       src-tauri/src/execpolicy/prefix_rule.rs, error.rs
--   ExecPolicy/RuleMap    the crate `multimap` and `std::path`, as interfaces
--   ExecPolicy/Network    src-tauri/src/execpolicy/network_rule.rs, mod.rs
--   ExecPolicy/Policy     src-tauri/src/execpolicy/mod.rs
--   Protocol/Items        src-tauri/src/protocol/types.rs, the items of a conversation
--   ContextManager        src-tauri/src/core/context_manager (history.rs, normalize.rs)
--   Protocol/TurnItems    src-tauri/src/protocol/items.rs, the items of a turn
--   Protocol/Events       src-tauri/src/protocol/event.rs, and the items of a rollout
--   Protocol/Utf8         methods of `str`, on UTF-8 bytes
--   Rollout               src-tauri/src/core/rollout (reconstruction.rs, truncation.rs, policy.rs)
--   EventMapping          src-tauri/src/core/event_mapping.rs, as far as the builder calls it
--   ThreadHistory         src-tauri/src/core/thread_history.rs
--   Guards                src-tauri/src/core/agent/guards.rs
--   StreamParser          src-tauri/src/stream_parser
--   Config                src-tauri/src/config (constraint.rs, layer_stack.rs)
--   SessionState          src-tauri/src/core/state (session.rs, turn.rs)
--   HistoryTruncation     src-tauri/src/core/truncation.rs
--   Prelude               names of the libraries, lists, texts, `usize` and `i64` arithmetic
--
-- Each function has the name that it has in the source; a method takes the state and returns the
-- new one with its result. Child modules hold the proofs, named for what they prove, and `Tests`
-- the runs on concrete inputs.
--
-- Representation. Bytes and code points are native numbers and texts lists of them; `usize` is 64
-- bits wide, and its wrap-around and saturation are written out in Prelude/Usize. Maps are
-- functions or, for the crate `multimap`, an interface with the laws that the crate documents. The
-- heuristics that `check` falls back on, the file system's paths, the random choice of a nickname
-- and the UUIDs that are drawn are parameters; JSON payloads are carried along unread.
--
-- Bounds and fuel. The head-tail buffer is studied below 2^63 bytes of budget and 2^64 bytes
-- pushed, which no process reaches. Only the loop of `InlineHiddenTagParser::push_str` runs on
-- fuel, one turn more than the characters pending: every turn that goes on takes a delimiter off
-- them; a number is printed with at most 20 digits, which all below 2^64 fit. The number of the next
-- item, an `i64`, is a natural number: no rollout has 2^63 items.
--
-- Not modelled: the application shell and its commands, network and database clients, the agents'
-- asynchronous loop, processes and sandboxes, all of them I/O or glue; the parser of policy files,
-- which calls an external language; the tasks of a turn, and the files, the TOML types and the
-- requirements of the configuration; the serialized forms of all types.
pub mod Prelude
pub mod StreamParser
pub mod Guards
pub mod Rollout
pub mod Config
pub mod HistoryTruncation
pub mod SessionState
pub mod EventMapping
pub mod ThreadHistory
pub mod HeadTail
pub mod ExecPolicy
pub mod Protocol
pub mod ContextManager
