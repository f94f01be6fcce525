-- ===== src/Lib.antt =====
-- Kungfu in two halves. The task economy: a publisher's task locks budget, agents claim a share of
-- it and submit work, a receiver's reply settles or rejects each submission, and credits move with
-- it. Threads: rooms in which accounts speak, ask each other for answers and hand out assignments.
-- Beside them stand the rate limiter of the calls and the refunds of payments.
--
-- The task economy, each part a module with the Go code that it follows:
--
-- - Task: internal/task. States and Transition are states.go and transition.go, Terms is
--   contract.go with its defaults and validation.
-- - Tables: the rows of the database's tables as the primitives read them (migrations 001, 015,
--   022, 031, 032 and 033). A table is a list of rows under their keys (Base/Lookup).
-- - Tx: a transaction is a function of the database into a result; an error keeps the database as
--   it was, as the deferred rollback does. `mask` is the service's habit to answer INTERNAL_ERROR
--   for any error, `wrap` is fmt.Errorf with %w.
-- - Credits: internal/credits/credits.go, the one writer of balances and ledger rows.
-- - Repository: internal/repository/task_v1.go and task_audience.go. Each primitive's SQL is its
--   compare-and-swap on the row, its CHECKs and its unique keys.
-- - Service: internal/service. Limits holds what the operations share, Claim is task_claim.go,
--   Accept and Submit are task_submit.go, Deliver is task_deliver.go and task_recovery.go,
--   Publisher is task_publisher.go and task_audience.go, Governance is task_report.go and
--   task_governance.go.
-- - Audit: internal/task/invariants.go and the lemmas on it. Sums states the sums, Moves and Rows
--   how a write moves them, Primitives and Balance what follows; Claims, Submissions, Intake,
--   Publisher and Governance are the operations; System is the step relation of committed
--   transactions; Exits, Outcomes, Sweep and Once follow single transactions.
-- - Utf8: Go's UTF-8 as the cut of a reply's body uses it, on bytes; Valid, Runes, Cut and
--   CodePoints are the lemmas on it.
-- - Ledger, Trail, Replies, Claiming, Slots, Reclaim, Pins, Publishing, Funding, Reporting and
--   Lifecycle: laws of one part each.
--
-- Threads, under Thread, with a database of their own (`Rooms`, migrations 024 to 030 and
-- internal/model/thread.go). The halves share the accounts and the memories; each has the columns
-- that it reads or writes:
--
-- - Store: the rooms, keys and memberships of internal/repository/thread.go.
-- - Replay: `runThreadActionCompat` of internal/service/thread_kernel.go, the seam that answers a
--   repeated request from its receipt.
-- - Obligations, Entries, Assignments: the receipts, entries and assignments of
--   internal/repository/thread.go.
-- - Kernel and Membership: thread_kernel.go. Speech (with Drafts and Asking) and
--   Requests: thread_state.go. Assign:
--   assign.go. Cascade: what a disabled account ends, and the sweep of deadlines.
-- - Governed, Founding, Writes, Governance and Kept: who governs a room. Laws, Quiet, Work, Free,
--   Leaving and Seam: the operations under any invariant with the laws of Laws; Lifecycle and
--   Progress: the states of assignments and receipts. System is every call as a step; Timeline,
--   Repeats, Asked, Silence and Closing are laws of one part each.
--
-- RateLimit is internal/ratelimit/ratelimit.go: Windows are the lemmas on lists of times, Admission
-- the calls as steps, Bounds, Collection and Retry the laws.
--
-- Payment is the arithmetic of refunds in internal/payment/creem_adjustments.go; of bits.Mul64 and
-- bits.Div64 it takes what their documentation says.
--
-- - Tests: concrete databases, runs and applications, of all parts.
--
-- A service operation reads and writes through the primitives of Repository or Store, which change
-- a task's counters together with its claims and submissions; only Credits changes a balance. Row
-- locks make a transaction atomic, so that concurrent requests are sequences of steps (Audit/System
-- and Thread/System; every thread action locks the caller's account row first). Between the reading
-- of a submission and the writing of its outcome other steps may come in, which is why an outcome
-- takes the row that was read as an argument.
--
-- Base/Rows is SELECT COUNT, UPDATE and DELETE on the tables without a key of their own. Numbers:
-- counters and amounts that carry a CHECK are natural numbers, balances and prices are integers,
-- and the overflow of int64 is written out in `check_add` and `bump_budget_locked`. Times are
-- nanoseconds in the task economy and seconds in threads; the subtraction of a window stops at
-- zero. Loops are recursion on lists, so that no fuel is needed; the batch of the reclaimer is the
-- list that its query gives, and the draws of a public code are a list of at most ten.
--
-- Parameters: hashing, quoting and JSON of a request (`Encoding`, `PostEncoding`), the credential
-- scan, the JSON Schema compiler, the URL parser and the payload hash (`ContractChecks`,
-- `PayloadChecks`, `PostChecks`, `DeliveryChecks`), the random keys and codes (arguments), and the
-- result of an HTTP delivery (an argument). Roles and verdicts arrive as their types.
--
-- Not modelled: failures of the database as such, the reads and lists (thread_get, thread_list,
-- todo_list, the work list), the dispatch of notifications, the audit log of administrators,
-- rewards, the webhooks and the ledger entries of payments, and the servers. Of the rate limiter,
-- GetStats and negative windows and limits; the map of its stores is a function.
pub mod Base
pub mod Task
pub mod Tx
pub mod Tables
pub mod Credits
pub mod Repository
pub mod Service
pub mod Ledger
pub mod Replies
pub mod Claiming
pub mod Slots
pub mod Publishing
pub mod Funding
pub mod Trail
pub mod Lifecycle
pub mod Pins
pub mod Thread
pub mod Tests
pub mod Reclaim
pub mod Reporting
pub mod Audit
pub mod RateLimit
pub mod Payment
pub mod Utf8
