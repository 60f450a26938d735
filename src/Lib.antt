-- ===== src/Lib.antt =====
-- Arbeiterfarm runs agents over language models: a workflow is a list of steps in numbered groups,
-- each step an agent with its conversation and its tools, and the crates under af/crates hold the
-- parts. This library models the parts whose behaviour is decided by the code itself, and takes
-- what the database, the language models and third-party crates answer as parameters.
--
-- The parts and their files:
--
-- - af/crates/af-agents/src/signal_parser.rs: markers in an agent's output ask for another agent, skip
--   one or put one first. `Agents/Signals.antt` has the parser (`parse_signals`,
--   `parse_one_signal`) and `resolve_conflicts`.
-- - af/crates/af-agents/src/orchestrator.rs: `apply_signals` changes the groups that are still to
--   run by those signals. In `Agents/Workflow.antt` the map of groups is a list of numbers with
--   steps, as the source's BTreeMap iterates it; each branch is one function. `Agents/Workflow/Retarget.antt`
--   has the part of `execute_workflow` that requeues agents for a replacement artifact, and
--   `Agents/Workflow/Fanout.antt` the part that starts a workflow for each extracted artifact.
-- - af/crates/af-core/src/llm_types.rs and af/crates/af-llm/src/request.rs: messages and the estimate
--   of their tokens, in `Agents/Chat.antt`.
-- - af/crates/af-agents/src/compaction.rs: `Agents/Compaction.antt` has the split of a conversation
--   into turns (`parse_turns`) and the choice of what a summary replaces
--   (`select_messages_for_compaction`); `Agents/Preflight.antt` has `preflight_check`, which repairs
--   a conversation before it is sent. `Agents/Trimming.antt` has the parts that its passes share and
--   `Agents/Trimming/Passes.antt` the passes `sliding_window_trim` and `local_context_reset`;
--   `Agents/Summaries.antt` has `compact_messages` and `try_compact`, in which a model writes a summary.
-- - af/crates/af-db/src/messages.rs: what those passes do to the rows of a thread, as functions on an
--   explicit store (`Agents/MessageStore.antt`).
-- - af/crates/af-llm/src/redact.rs: what is stripped from a text before a model in the cloud gets it
--   (`Agents/Redaction.antt`).
-- - af/crates/af-agents/src/thread_memory.rs: the short texts kept of a thread and the message
--   rendered from them, in `Agents/ThreadMemory.antt`.
-- - af/crates/af-web-gateway/src/ssrf.rs and af/crates/af-web-gateway/src/rules.rs: the addresses that
--   are never fetched from (`Gateway/Ssrf.antt`), and the block and allow rules over URLs with
--   their cache of compiled patterns as explicit state (`Gateway/Rules.antt`).
-- - af/crates/af-web-gateway/src/gateway.rs and geoip.rs: `handle_fetch`, in `Gateway/Fetch.antt` (checks, pinned
--   requests, redirects) and `Gateway/Fetch/Handler.antt` (the whole call, with the cache of pages).
--   The network is a record of functions, which may answer each round differently.
-- - af/crates/af-jobs/src and af/crates/af-db/src/tool_runs.rs: the queue of tool runs. The rows and
--   the statements on them are in `Jobs/ToolRuns.antt`, the quota in `Jobs/Quotas.antt`, `enqueue` with
--   its checks and its transaction in `Jobs/Enqueue.antt`, and its test of the depth of an input in
--   `Jobs/Depth.antt`. `Jobs/Worker.antt` has a round of a worker, and `Jobs/Lifecycle.antt` the queue
--   as a step relation: transactions that wait for the lock of their user, hold it, have passed the quota and commit, between them the statements
--   of workers and the reaper, each one step; `Tick` there is a tick of `run_reaper`, with what
--   others do between its two statements.
-- - af/crates/af-core/src/resolver.rs: the artifacts that a tool's input refers to, by its schema
--   (`Core/Resolver.antt`).
-- - af/crates/af-email/src/recipient_rules.rs: whom mail may be sent to (`Email/Recipients.antt`).
-- - af/crates/af-auth/src/authz.rs: what a user may do in a project (`Auth/Access.antt`), over the
--   answers of its three queries.
-- - af/crates/af-core/src/registry.rs: tools by name and version (`Core/Registry.antt`), with the
--   validation of specifications against executors at the start.
-- - af/crates/af-builtin-tools/src/chunking.rs and
--   arbeiterfarm/crates/af-re-tools/src/doc_chunk.rs: a text cut into overlapping chunks, on its
--   UTF-8 bytes (`Tools/Chunking.antt`).
-- - arbeiterfarm/crates/af-re-vt/src/rate_limiter.rs: a token bucket (`Vt/RateLimiter.antt`), with the
--   readings of the clock as inputs and the rounds of all its callers as one sequence.
-- - arbeiterfarm/crates/af-re-tools/src/transform_jq.rs: builtins of a jq interpreter, over its values
--   (`Re/Jq.antt`, with one file for each group of builtins). A builtin is a function to the list of
--   its outputs; one that takes a filter gets the outputs of that filter.
--
-- They interact as follows: the orchestrator applies the signals that the parser reads from an agent's
-- output; the runtime renders the thread memory into a message, which `preflight_check` puts back
-- where it was lost; a pass that shortens a conversation takes the split into turns or the plan of
-- `Compaction.antt`, reads the thread memory again, and marks the rows that stand for what it drops;
-- a summary in the cloud is asked for with redacted text; URL rules use the address types of the guard,
-- and a fetch asks both before each request; `enqueue` takes the artifacts that the resolver finds.
--
-- Conventions: a text is the list of its Unicode scalar values, and `byte_len` is its length in
-- UTF-8; chunking, which computes with byte offsets, takes the bytes themselves. Numbers are natural
-- numbers; where the source computes with a `u32` or a `usize` that may overflow, the wrap-around is
-- kept. Loops are structural recursion on what they walk, or on the index that they count
-- down, but for the loop of the chunks: it runs on fuel, of which one more than the text has bytes
-- is enough where a chunk can hold any character (`Tools/Chunking/Pieces.antt`), and for the loop of
-- `indices` over a string, which takes two more than the string has bytes and never runs out
-- (`Re/Jq/Occurrences.antt`). The loop of `json_depth_bounded` takes one more than the value has values in it (`Jobs/Depth/Nesting.antt`); the
-- redirects of a fetch and the levels of a schema are counted down from the bounds of the code, which
-- need no fuel. The loop of
-- `acquire` in the rate limiter is a sequence of rounds. A bitwise mask of high bits is written as a
-- division (`high_bits`). A statement of SQL is a function on its tables and one step; a row that another
-- transaction holds is passed over by `claim`. Parameters are the Unicode lower case, the crates `regex`,
-- `url` and `uuid`, the network, the
-- address parser of the standard library, the database of the access checks, the arithmetic of `f32` and
-- `f64`, the answer of a language model, the errors of queries, and the comparison and printing of
-- the values of the jq interpreter.
--
-- Not modelled: the rest of the database layer, HTTP and mail clients, the processes of tools, the search
-- of the web gateway, the command line and the web interface,
-- whose behaviour is that of the services they call; the runtime loop and the execution of groups,
-- of which only the pure parts above are here; the prelude of the jq tool, which is jq code, and its
-- parser; log lines.
pub mod Base
pub mod Agents
pub mod Gateway
pub mod Email
pub mod Auth
pub mod Core
pub mod Tools
pub mod Vt
pub mod Re
pub mod Jobs
