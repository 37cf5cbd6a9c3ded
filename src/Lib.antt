-- ===== src/Lib.antt =====
-- Verification of the control plane of incidentlens.
--
-- The control plane (apps/control-plane/src/incidentlens_control_plane, below called the package)
-- runs investigations of incidents by a model, under approval, over SSH. Work that outlives an HTTP
-- request is a durable operation: a row of a SQLite table that a worker claims, runs and moves
-- through a state machine. A mutation over HTTP runs under an idempotency key. An investigation
-- runs in rounds that a guard admits. The modules here model these parts:
--
--   Common      shared names; tests on numbers, lists, texts; results (Common/Results); the SQL
--               statements that the stores use over a table that is the list of its rows
--               (Common/Sql); tables with a primary key (Common/Keyed); ORDER BY (Common/Ordered).
--   Machine     investigation/state_machine.py and operations/state_machine.py: the statuses
--               (Status), class StateMachine (Core), its five tables (Tables).
--   Operation   operations/: the rows (Types), the payload redaction (Payload), OperationStore
--               (Store), OperationService and its events (Service), OperationRecovery (Recovery).
--   Dispatcher  operations/dispatcher.py: the shared state (State), _claim_next (Select), _execute,
--               the sweep, start and stop (Finish).
--   Idempotency idempotency/ and api/idempotency.py: the table (Types, Store), the service
--               (Service), the key's grammar and execute_idempotent (Api).
--   Guard       investigation/guard.py (Checks), the types that it reads (Types), and
--               _pause_status_for and _stop_reason_for of investigation/orchestrator.py (Reasons).
--   Policy      remote_ops/policy.py: the path policy (Paths), the operation policy (Operations),
--               shlex.split and the shell features that are refused (Shlex, Parse), the argument
--               lists of reads (Reads, Find), CommandPolicy (Command).
--   Approvals   approvals/: the records (Types), ApprovalStore (Store, Decisions), ApprovalService
--               (Service), the life of one approval that the store refines (Token).
--   Changes     changes/: ChangeSetStore (Store, Files), the order of the states (Life, Moves) and
--               the vault of encrypted backups (Vault, Segments, Backups).
--   Manager     changes/manager.py, ChangeManager: the edits (Paths, Edits), the calls that it makes
--               (Monad), the steps of apply (Preflight, Backups, Replace, Apply), its failure handler
--               (Restore), verify and rollback (Rollback).
--   Events      events/: the log of runtime events and its pages (Store, Order, Rows, Pages) and
--               the broker of the subscribers' queues (Broker).
--
-- How they interact: the operations' store asks the generic state machine before it moves a row;
-- recovery and the dispatcher go through the service, which announces each change as an event;
-- the guard asks the machines of investigations and agent runs; the idempotency table is apart.
-- The command policy asks the path policy's lexical check of each path argument. The change manager
-- asks the path policy of each file, keeps its backups in the vault and its steps in the journal of
-- change sets, and consumes an approval before it renames over a protected path.
--
-- How the code corresponds. A method of a store is one transaction: a function from the tables to a
-- result and tables (Common/Results, Action), which leaves the tables alone where it raises, as
-- ROLLBACK does; ChangeSetStore's update_file_change and transition are two transactions each, and
-- the first stays when the second raises. The arguments are ones that pydantic admits. A function
-- has its method's name, its arguments in the method's order; what differs is said at the
-- definition. A conditional UPDATE, its rowcount and the SELECT after it are written out, so that
-- races are sequences of such transactions. Workers and requests that run side by side are the
-- orders of their steps (Dispatcher/Reach, Idempotency/Others): SQLite's BEGIN IMMEDIATE and the
-- dispatcher's lock make each step atomic.
--
-- Numbers and times: all numbers are natural numbers; a timestamp is the number of microseconds
-- since an epoch in UTC, whose ISO text sorts alike; a lease or a wall-clock budget of n seconds is
-- n * 1000000. Python's int has no width, so no arithmetic wraps. Where the policies read single
-- characters, a text is the list of its code points (Common/Texts). The source's loops are over
-- lists that are read before the loop starts, and take no fuel; the reader of Events/Pages, which
-- asks for page after page, is bounded by a number of calls, and more calls than there are events
-- left are enough. A cursor below 0, which list_page refuses, is no natural number.
--
-- Parameters, where the code calls what is not modelled: the redactor of logs/redaction.py (a
-- function of a bound and a text), what recovery reads of the investigation store (a function of an
-- id), the handler of an operation (what it ends with is an argument), the action of a mutation (a
-- call on the table as well), the encoder and the validator of a response body (pydantic), the text
-- of an exception, the ids that uuid4 draws, the SHA-256 of an approval's canonical intent and
-- Python's str of a JSON value, a remote host's realpath and lstat, AESGCM, SHA-256 and the bytes
-- of a text for the vault (Changes/Vault, Crypto), the classes of the characters above ASCII and
-- Python's urlsplit (Policy/Parse, Python); for the change manager the transport and the backends
-- of containers, which act on a remote state of any type, the approvals' consume, the parsers of
-- the edited files and the UTF-8 codec (Manager/Types, Backend and Runtime). The clock readings of
-- one apply are one. A call that times out or loses its connection may have changed the remote
-- files: the theorem on a failed replacement is about failures that are no such call. The search of
-- _find_occurrences takes one round for each character of the text and one more, which is enough.
--
-- Not modelled: schema migration, the locks of ChangeManager (an apply is one step), the listings of
-- operations and of approvals, the hash of a request, the asyncio tasks, timers and logging; and the
-- other packages: auth, evidence, logs, the investigation's orchestrator and store, projections,
-- project_registry, the rest of remote_ops, reports, routes, streams, targets, and the clients in
-- TypeScript.
pub mod Common
pub mod Machine
pub mod Operation
pub mod Dispatcher
pub mod Idempotency
pub mod Manager
pub mod Guard
pub mod Policy
pub mod Approvals
pub mod Changes
pub mod Events
