-- ===== src/Lib.antt =====
-- dreamux: a dispatcher that runs coding agents (dispatchers, teams, teammates) and talks to people
-- over Feishu. This library models the parts that decide who is heard, which team is reached, how
-- often an input is admitted, and how news and answers are delivered.
--
-- How the parts meet. A Feishu message first passes the access gate (Access); an admitted message is
-- routed to a team or to the dispatcher (Routing); the core decides whether an agent takes it
-- (Ledger). When an agent's turn settles, the completion is delivered to the agent that started it
-- (Delivery), whose acceptance is a mapping of the ledger's decision. A card of questions that an
-- agent sent is answered by clicks (AskUser), and the answer comes back as one more input. What an
-- agent does is shown as it happens from a bounded buffer of events (Cot). A scheduled prompt is one
-- more input, submitted when it is due (Scheduler); its answer is again the ledger's decision. What a
-- Codex turn must answer is a schema, compiled before the turn, and the answer is restored (Codec).
-- The tools an agent may call are those of the tokens its generation holds (Mcp).
--
-- Base: the names and list lemmas shared by all. Base/Dict is a JavaScript object or Map with text
-- keys in insertion order; Base/Result is a call that may throw.
--
-- Access: packages/channel/feishu-channel/src/access. State (state.ts), Gate (gate.ts:
-- dreamuxFeishuGate with dmPairPath and the token draw), Commit (index.ts: gate, refreshPairing,
-- recordPairingPrompt, approvePairingByToken). Decision, Slots, History, Cap, Concurrent and Admission
-- hold the properties, over runs in any order of messages, sent prompts and approvals. The clock and the
-- random tokens are arguments; a run of them needs no order in time. The redraw of a token that is
-- taken is bounded by 1000 draws after the first, as in the source.
--
-- Routing: packages/channel/feishu-channel/src/routing. Target (target.ts), Document (document.ts,
-- store.ts: updateRoutingDocument), Plan (index.ts: plan, bindingFor, the space reads), Bindings
-- (bind, fillTopicRoot, unbind, forgetTeam), Policy (spaces and document subscriptions). Rows,
-- Invariant, History, Effects and Forgetting hold the properties. Hashes that name a space and text
-- encodings of keys are parameters; a target key is kept as the tuple it encodes.
--
-- Ledger: packages/dreamux/src/service/agent/admission.ts. Admission has one function for each
-- method of AdmissionLedger; a promise is the number of its task, and JSON.stringify a parameter.
-- Results has the mappings of a decision, Invariant and Reach the invariant of reachable ledgers,
-- Window how long a repeat stays a duplicate. The window is the source's 1024.
--
-- Delivery: packages/dreamux/src/service/completion-router/index.ts. Policy has the deadline and the
-- at most three attempts of deliverPrepared as structural recursion on the passes left; Router the
-- maps, the fence and the tails, on which a delivery waits for the one before it and ends as its
-- attempts say; Tails to Requests are lemmas, Order and Drain the order of the news, Retry the
-- attempts, Agents the submit to an agent (submitCompletionInput of agent/service.ts). What a
-- recipient does is an argument: an operation throws, settles after some time, or never.
--
-- Leases: packages/dreamux/src/service/agent/runtime-state.ts, with the merge of agent/store.ts and the
-- serialized update of dreamux-utils/src/transactional-store.ts. State has the steps of a publish (wait,
-- second check, durable write, continuation); Fence and Receipt hold the properties.
--
-- AskUser: packages/channel/feishu-channel/src/ask-user/registry.ts and the data of
-- cards/ask-user.ts. Round has the data and the settlement, Registry the operations, Events
-- the runs of them, Choice and Settlement the properties. A card or a toast is what it is built from; trim is a parameter.
--
-- Cot: packages/channel/feishu-channel/src/cot. Bytes (bytes.ts: the split and the truncation of text to
-- a budget of escaped bytes), Group (the merge and the bounded group of events), Outbox (recipients.ts:
-- CotOutbox). Splitting, Fitting, Grouping and Buffering hold the properties. What a character costs
-- once escaped, and how long an event is as JSON, are parameters; the budgets are the source's. What
-- a merge adds is a signed count (Base/Int), since a joined surrogate pair costs less than its halves.
--
-- Scheduler: packages/dreamux/src/service/scheduler. Store (store.ts: the rows), Service (index.ts:
-- start, stop, destroy, create, update, delete, the arming of timers), Fire (the timers, dispatch and
-- the two settlements), with Rows, Generations, Starting, Covering, Fair, Pending and Beside for lemmas and Stopping,
-- Settling and Standing for properties. The cron parser is a parameter. A store call is one step. A
-- start has a step for the list, one for each reconciliation and a last one that arms; other steps may
-- come between them. A step reads the clock once, and clocks need no order. A timer waits in one piece.
--
-- Codec: packages/agent-runtime/codex/src/output-schema-codec.ts. Json (the values), Schema and Level
-- (what one level of a schema says), Compile (compileCodexOutputSchema), Restore (restoreValue on a
-- parsed answer). Conformance says what it is to conform to a JSON schema, apart from the code. Typing to
-- Roundtrip compare a schema with its wire schema; Reading and Deep are about the recursion. compileSchema
-- runs on fuel, one more than the depth of the schema, since each level of it is deeper in the document.
-- A number is a code for its double; the orders of texts and the canonical text of a primitive are
-- parameters. An error is its reason, without its place.
--
-- Mcp: packages/dreamux/src/service/mcp/leases.ts. Leases has the operations of McpLeaseRegistry,
-- Authority the properties. The description of a delegate, copied and validated, is an argument of mint,
-- and so is the token that is drawn.
--
-- Every other loop of the modelled code is structural recursion, so no function can fail to return.
-- Not modelled: the drawing of cards, log lines, validation of files on disk, and the other parts of
-- the repository (the agent, team and workflow services, the runtimes, the transport,
-- the command line), which are input and output around processes, sockets and files, or wait for a
-- model of their own.
pub mod Access
pub mod AskUser
pub mod Base
pub mod Codec
pub mod Cot
pub mod Delivery
pub mod Leases
pub mod Ledger
pub mod Mcp
pub mod Routing
pub mod Scheduler
