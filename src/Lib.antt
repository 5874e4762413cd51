-- ===== src/Lib.antt =====
-- A verification library for the agent core of assistant_agent: the state of a run and its
-- transitions, the budgets, the permissions, the registry and the batch that run tools, and the context
-- that a model is sent.
--
-- The parts and the files that model them (paths from the repository's root):
--   Budget, Budget/Limits     ToolBudget of src/assistant_agent/tools/models.py, with the codec of
--                             agent/run/checkpoint.py.
--   ToolResult                ToolResult of tools/models.py, its constructor's normalisation and codec.
--   Run/State, Run/Consistency
--                             the checkpoint document of agent/run/state.py and its validators, as
--                             `is_consistent`; Run/Failures is agent/run/failures.py.
--   Run/Coordinator, Run/Items, Run/Lifecycle, Run/Capture, Run/Ending
--                             RunCoordinator of agent/run/coordinator.py: each method is a function
--                             of its name in the monad `Action`, a state with an error.
--   Run/Normalize             its normalize_tool_calls, which names the calls of a model.
--   Run/Calls, Run/Ready      lemmas on calls, and on when a checkpoint succeeds (`IsSound`).
--   Continuation              agent/run/budgets.py: ContinuationController and the coordinator's part.
--   Permissions               tools/permissions.py, PermissionPolicy of tools/policy.py, and
--                             ToolContext.request_permissions of tools/context.py with
--                             approve_via_port of tools/interaction_bridge.py.
--   Registry                  ToolRegistry.execute of tools/registry.py: Registry/Execute has its
--                             steps, Registry/Output the limits on a result.
--   Batch                     execute_tool_batch and _cancel_pending of agent/tool_batch.py, over a port
--                             for the registry, the control and the offer of more budget; Batch/Order
--                             is about the results it adds, Batch/Replay about a resumed batch;
--                             Batch/Ending has the cursor, and finish_control of agent/run/control.py.
--   Control                   ControlState of agent/run/ports.py and RunControl of execution/control.py.
--   Context                   agent/context: Context/Window has the estimates of window.py,
--                             Context/Blocks the protocol blocks and Context/Conversation the class of
--                             conversation.py (`truncated` is _truncated, `keep` its loop,
--                             `provider_messages` is messages), Context/Compaction is compaction.py
--                             with _maybe_compact of agent/loop.py; Context/Session exports and loads.
--   Artifact                  ArtifactCaptureWriter of agent/artifact_capture.py over a draft store.
--   Edit                      tools/file_edit.py over a file that is a port: Edit/Pieces is about one
--                             replacement, Edit/Atomic about several.
--   Lease                     persistence/execution_lease.py as steps of processes and threads.
--   Base                      names of the libraries, tests on numbers, lists, and the result monad.
--   Tests                     sample data and runs on it.
--
-- How they interact. The loop calls the registry; the registry asks the gate, charges the budget and
-- tells the lifecycle, which is the coordinator: `tool_started` before a run and `tool_completed` after
-- it. The batch asks the coordinator which calls have a result, calls the registry for the others and
-- adds the results to the conversation. Each transition of the coordinator ends in a checkpoint, which
-- validates the whole state and then saves it. The conversation is what the model is sent, cut to its
-- window; the run's own messages are set from its history. The budget and the grants are shared objects of the loop and the coordinator: they are the
-- fields `budget` and `grants` of `Coordinator`, read back at each checkpoint once bound.
--
-- Conventions. A Python int that is never negative is an ℕ; a text whose length matters is a list of code
-- points and an identifier a String. The store is `accepts`, which says whether a save succeeds, and the
-- list of saved states, the newest first. Callbacks are functions, and `none` is an exception of theirs.
-- The file system (path resolution, parents), fnmatch, decimal notation, `strip`, the parsing and
-- the preview of a user's content, tools, the model's stream and the draft store are parameters. Where other threads act, readings of the control come from
-- a port, and the lease is a relation of steps.
--
-- Fuel. The loops are recursions on lists, save three, whose fuel is fixed by the caller: the bisection
-- of Artifact has the buffer's length, and the bounds close in by one at least each round; the writing
-- of chunks has the buffer's length, and each round takes a code point at least; the search for a free
-- name of Run/Normalize has two more than the names in use, one for the first candidate, and the
-- suffixed ones differ.
--
-- Not modelled: timestamps, payloads of items, the reasoning text, definition hashes, the observability
-- snapshot with the task plan, events, logging and timing, since no transition reads them; the sorting
-- of captured grants; attachments of user messages but for
-- their cost and the validation of a content that has them; the bounds of a run id and of chart and
-- output artifacts, which their own patterns keep; a tool whose replay_policy raises; the texts of prompts; estimators
-- of tokens other than the default. The rounds of the agent loop, the stores of runs and sessions, the other tools, providers and user interfaces are not part of the
-- library.
mod Base
pub mod Budget
pub mod ToolResult
pub mod Run
pub mod Continuation
pub mod Edit
pub mod Lease
pub mod Permissions
pub mod Artifact
pub mod Batch
pub mod Context
pub mod Control
pub mod Registry
pub mod Tests
