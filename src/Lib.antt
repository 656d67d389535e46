-- ===== src/Lib.antt =====
-- A runtime for multi-step AI-agent workflows over one Postgres database. Workers, orchestrators and
-- an HTTP API share no memory: every effect of one on another is a row that a transaction wrote. The
-- development models those transactions and their interleavings.
--
-- Parts, and the files that model them:
--   db/schema.sql               Schema         the tables as records of rows; Db is a database
--   common/tiers.py             Tiers          the escalation ladder (Tiers/Climb: next_tier)
--   common/failures.py          Failures       the three failure classes, the backoff
--   common/protocol.py          Protocol       what a task sees, what its code may do
--   common/config.py            Config         the settings of a process
--   common/registry.py          Registry       the task registry (Registry/Discover: task, discover)
--   common/runtime.py           Runtime        flags and their cache
--   common/metrics.py           Metrics        the counts, costs and percentiles of the dashboard
--   worker/claim.py             Worker/Claim         claim_one
--   worker/heartbeat.py         Worker/Heartbeat     renewal of leases
--   worker/main.py              Worker/Checkpoint    checkpoint_success, report_failure
--   worker/main.py              Worker/Process       process_one (Worker/Loop: the loop of main)
--   worker/executor.py          Worker/Executor      run_task behind the ledger
--   orchestrator/reaper.py      Orchestrator/Reaper    expired leases
--   orchestrator/queue.py       Orchestrator/Queue     repair, completion, depth
--   orchestrator/classify.py    Orchestrator/Classify  routing of failures
--   orchestrator/ledger.py      Orchestrator/Ledger    reservations of external actions
--   orchestrator/main.py        Orchestrator/Sweeps    tick, the loop of main
--   scale/autoscaler.py         Scale          how many orchestrators run (Scale/Command: main)
--   tasks/tools.py              Tasks/Tools    settings of tools, call, the mocks, the live tools
--   tasks/registry.py           Tasks/Library  the tasks
--   api/main.py                 Api            submission with admission control, flags, seeding
--   api/main.py                 Api/Chaos      POST /chaos/tool
--   api/main.py                 Api/Views      the endpoints that read
--   chaos/harness.py            Harness        named plans, the commands that write, worker pools
--   chaos/harness.py            Harness/Commands   the commands that list, `workers`
-- System is the whole: a state is a database with the rows that claims have handed out, a step is one
-- transaction of any process with arguments of its own choosing, and a crash is a process that steps no
-- more. System/Steps has the steps, and the files beside it what holds along their paths and how a
-- turn goes that nothing disturbs. Tests holds concrete runs.
--
-- How code corresponds to definitions. A function on the database takes the database last and returns
-- it with the function's result; an SQL statement is select, update_where, delete_where and order_by
-- of Prelude/Table with the statement's own WHERE and SET; a transaction that is rolled back returns
-- the database it was given. `now` is the time of the transaction, in milliseconds. SKIP LOCKED is the
-- parameter `locked`, which says of each row whether another open transaction holds it. What Postgres
-- draws is a parameter: `uuid` for ids, `jitter` for random(). A sha256 digest is a parameter too; no
-- theorem supposes that it is injective, so what the ledger guarantees it guarantees for a key. A text
-- that is only stored is a value of Detail or Reason, one constructor for each message. An exception is
-- `none`, a constructor of its own, or a flag beside the result.
--
-- No function of the model needs fuel: the loops run over lists of rows, of heartbeat rounds or of
-- submitted agents. Integers of the source are Python's or counts of rows, which stay far below the
-- bounds of their columns; they are natural numbers here. A difference that the source lets go below
-- zero is written out where it occurs.
--
-- A tool's implementation is a function to Run, which returns, raises one of the failures, or raises
-- anything else. What files, processes and servers answer is the record Outside of Tasks/Tools/Live.
--
-- Orchestrator/Ledger/Spec is the ledger as its clients see it, a slot for each action id; the code is
-- compared with it in Orchestrator/Ledger/Refinement.
--
-- Not modelled: the status screen and argument parsing of chaos/harness.py; the connection pool;
-- signals, sleeping and logging; what docker, the environment and importlib answer, which are
-- arguments. The other parts take their settings as arguments too, and Config says where a process
-- gets them.
mod Prelude
pub mod Json
pub mod Schema
pub mod Tiers
pub mod Failures
pub mod Protocol
pub mod Registry
pub mod Tasks
pub mod Runtime
pub mod Metrics
pub mod Worker
pub mod Orchestrator
pub mod Scale
pub mod Api
pub mod Harness
pub mod System
mod Tests
pub mod Config
