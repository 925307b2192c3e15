-- ===== src/Lib.antt =====
-- gude-agents: a Go library for agents that call language models and tools. This library models the
-- parts of it that keep state or decide, and proves what they promise to each other.
--
-- An agent (agent/engine.go) runs turns: it loads a conversation from a store, projects it for the
-- model (a context manager), repairs the order of its messages (normalisation), reserves capacity
-- (the rate limiter), asks a provider, runs the tools that the model calls if their policies admit the
-- caller, and appends the new messages. With a durable execution store each step of a tool batch is
-- first recorded by compare-and-swap, so that a crashed run can be recovered.
--
-- The files and what they model:
--   Prelude, Words, Dict: shared names, 64-bit integers as bit patterns, Go maps as association lists.
--   Message (agent/provider.go, content.go, widget.go): messages and their blocks; Message/Sources:
--     ImageSource.Validate, DocumentSource.Validate and the MIME types of extensions.
--   Normalize (agent/normalize.go): NormalizeMessages; merge_onto, fill_after and remove_onto are the
--     loops of normMerge, normFill and normRemove.
--   Conversation (agent/conversation.go, agent/conversation/conversation.go): the methods of InMemory
--     and ForkConversation. A method takes the store and returns it with its result.
--   ContextManager (agent/contextmanager/contextmanager.go): Passthrough, Window and Filter;
--     ContextManager/Rolling: RollingSummary.Prepare with its state store and summarizer as arguments.
--   RateLimit (agent/ratelimit/store.go): Counter is memoryCounter, MemoryStore the store; Commit and
--     Release share `finish`. A call takes the time that the clock returns.
--   Tool (agent/tool/rbac.go): rolePolicy, its options, and AllowedForPrincipal.
--   Fallback (agent/provider/fallback/fallback.go, agent/capabilities.go): Stream and Capabilities.
--   Execution (agent/execution.go, agent/execution/memory.go,
--     agent/execution/internal/record/record.go): Create, Load and Save of Memory.
--   Execution/Batch (agent/engine.go): planToolBatch, markToolBatchReady, beginToolExecution,
--     removeToolCalls and persistExecution as changes of an execution; Execution/Batch/Recovery:
--     activeToolBatch; Execution/Batch/Manual: what approvals, pauses, resumes, the end of a run and
--     ReconcileToolExecution change. Execution/Batch/Spent follows one call through the loops.
--   Dispatch (agent/tool_exec.go, agent/middleware.go): the checks of executeCall; Dispatch/Pipeline:
--     executeCall with beginToolExecution; Dispatch/Group: executeBatch; Dispatch/Order:
--     agent/turn_messages.go. A call leaves the store, its events and its outcome.
--   Interrupt (agent/interrupt.go): responses and validateResume; Interrupt/Resume (agent/engine.go):
--     resultBlocks, batchOutcomeError, pendingInterrupt and approvalResumeBatch;
--     Interrupt/Remaining: filterCompletedToolCalls.
--   Conversation/Envelope (agent/conversation/json_marshal.go): MarshalMessages and UnmarshalMessages.
--   Mcp/Pool (agent/mcp/pool.go): each section under the lock is a function, and Mcp/Pool/Steps puts
--     them together as a step relation of any number of callers.
--   Rag/Split, Rag/Store (agent/rag/rag.go): SplitText and MemoryStore.
--   Recollection (agent/memory/store.go): the methods of Store, by the owner of the entries.
--   Examples: the theorems at concrete inputs.
--
-- Locks make each method one step, so a step of the model is a whole call, and interleavings are
-- sequences of calls. Integers of the source are numbers with their wrap-around written out; times
-- are nanoseconds. Loops run over a slice or down a counter and are structural, but for SplitText's:
-- it runs on fuel, as many rounds as the text has runes, and its theorem shows that these are enough.
-- A parallel run of a batch is an order of its calls: they share only the run's execution, which is
-- behind a lock. Handlers, guards, middlewares, the schema check, embedders, similarities, the sort by
-- score, encoding/json, SHA-256, strings.ToLower, strings.HasPrefix, providers, summarizers and
-- estimators are parameters. Of encoding/json the stores
-- assume that what was encoded is decoded again to a value with the same identifier, and the messages
-- that texts in valid UTF-8 are decoded again as they were.
--
-- Not modelled: the agent loop, the coordinator of a tool batch and the resume around its parts, the
-- transcript of a manual resolution, the front end of the rate limiter, the subprocesses and calls of the MCP pool, provider
-- adapters, database back ends, remote indexes, and all output. Most of these call remote services; the
-- rest is control flow around the parts above.
pub mod Prelude
pub mod Message
pub mod Normalize
pub mod Words
pub mod Dict
pub mod RateLimit
pub mod Conversation
pub mod ContextManager
pub mod Tool
pub mod Fallback
pub mod Execution
pub mod Dispatch
pub mod Interrupt
pub mod Mcp
pub mod Rag
pub mod Recollection
pub mod Examples
