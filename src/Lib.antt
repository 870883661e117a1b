-- ===== src/Lib.antt =====
-- Amazing Chance: the core of the lottery's server, apps/api/src, with its theorems.
--
-- The parts, in the order in which money and tickets pass through them:
--   * Tickets models tickets/ticket-allocation.service.ts: `reserveRange` hands a purchase its range
--     of ticket numbers. Tickets.Allocation has the operations, Tickets.Sequence,
--     Tickets.Reserving and Tickets.Ranges what they keep.
--   * Finance models finance/financial-allocation.service.ts: a payment is divided among the two
--     jackpots and the company under the one rule in effect, and becomes postings for the ledger.
--   * Payments models payments/payment-orchestrator.service.ts: `confirmPayment` turns a succeeded
--     payment into ledger entries and tickets, with the help of Finance, Ledger and Tickets.
--     Payments.Bookings, Payments.Completed, Payments.Issuing and Payments.Confirmation have the code;
--     Payments.Parts takes a call apart, Payments.Issued, Payments.Evidence, Payments.Again and
--     Payments.Repetition treat what it leaves, Payments.Soundness and Payments.Retries the loop over
--     its attempts.
--   * Ledger models ledger/ledger.service.ts (Ledger.Service) and ledger/ledger-integrity.service.ts
--     (Ledger.Integrity). Ledger.Validation, Ledger.Store and Ledger.Append treat what is stored,
--     Ledger.Steps and Ledger.Retry a call among others, Ledger.Defects and Ledger.Audit the scan.
--   * Draws models lottery-draws: sales-window.policy.ts (Draws.SalesWindow), lottery-draws.service.ts
--     (Draws.Service and Draws.Creation for `create` and the checks, Draws.Transitions for the changes
--     of status, Draws.Publication for `publish`) and weekly-draw-sales.service.ts
--     (Draws.WeeklySales, Draws.Availability).
--     Draws.Lifecycle, Draws.Runs and Draws.Commands treat the statuses under all operations,
--     Draws.Slots the weekly rollover, Draws.Earliest and Draws.Offers what it offers, Draws.Outbox and
--     Draws.Notices the notifications.
--   * Snapshots models snapshots/snapshot-cryptography.service.ts: the canonical text of a snapshot,
--     its hash and its Merkle tree. Snapshots.Encoding reads the text back, Snapshots.Levels,
--     Snapshots.Proofs and Snapshots.Completeness treat honest proofs, Snapshots.Climbs and
--     Snapshots.Binding all others.
--     Snapshots.Finalizer models snapshot-finalizer.service.ts, whose transaction stores the
--     commitment; Snapshots.Finalization, Snapshots.Rows and Snapshots.Repetition treat it.
--     Snapshots.Builder models snapshot-builder.service.ts, which numbers the tickets;
--     Snapshots.Numbering, Snapshots.Building and Snapshots.Handover follow what it leaves to the
--     finalizer.
--   * Randomness models randomness/randomness-evidence.service.ts: Randomness.Provider has what is asked,
--     what is answered and the validation, Randomness.Evidence the transactions, Randomness.Request the
--     call. Randomness.Selection follows the positions to Winners, Randomness.Outcomes the draw.
--   * Winners models winners/winner-selection.util.ts: the winners' positions from random ones.
--     Winners.Selection has the code, Winners.Collecting and Winners.Order its theorems.
--     It also models winners/winner-selection.service.ts: Winners.Tables has its rows, Winners.Existing
--     the results, Winners.Evidence the guards, Winners.Recognition the prizes and Winners.Finalizer the
--     transaction. Winners.Completion takes a call apart; Winners.Ranking and Winners.Results treat the
--     winners, Winners.Money, Winners.Claimed and Winners.Settlement the prizes, Winners.Repetition a
--     second call.
--   * Prizes models prizes/prize-pool.service.ts (Prizes.Pool), the pool of a draw from the ledger,
--     and prizes/prize-distribution.service.ts (Prizes.Distribution), the prizes from the pool.
--     Prizes.Sums, Prizes.Payments, Prizes.Sources and Prizes.Growth have the theorems of the one,
--     Prizes.Rounding and Prizes.Calculation of the other.
--   * Workers models workers/automated-draw-lifecycle.service.ts (Workers.Lifecycle), which takes a draw
--     through Snapshots, Randomness, Winners and the publication of Draws. It knows these by a record
--     of operations; Workers.Queue treats which draw it takes, Workers.Progress and Workers.Review what
--     it makes of their results.
--   * Base has what these share: numbers, lists, tables, integers, texts and exceptions.
--
-- How code corresponds to definitions: a function of the source is a definition of its name in
-- small letters, its branches in the source's order. A table is a list of rows, and a query a filter
-- with an order. An operation takes the tables and returns an `Outcome`: the new tables with the
-- result, or the exception, after which the transaction is rolled back (`state_after`). Messages
-- stand without the values that the source puts into them. The ids that the database makes and the
-- clock are arguments. A `bigint` is an integer; a count or a basis-point share is a natural number;
-- a date is a number of milliseconds from 1970 on, and `none` if it is invalid.
--
-- Loops: those over rows are structural. The loops of the Merkle tree have the length of the level
-- as fuel, which is enough since each round halves it, and the paged scan of the ledger has one more
-- than the number of rows. The attempts at a payment are counted down from three.
-- The digits of a number have the number itself, and one, as fuel.
--
-- Concurrency: `append` sees three states of the tables, at its look-up, in its transaction and at
-- its commit, and any two may differ. The other operations run in a serializable transaction, under a
-- lock, or update a row only if it has the status that they expect; they are single steps, and runs
-- are sequences of them. A request for randomness is several transactions, with the provider's answers
-- between them, and returns tables where it throws as well.
--
-- Not modelled: SHA-256, its HMAC, the canonical JSON and its hash, the provider of randomness and what
-- the database makes of its response, which are parameters; foreign keys,
-- triggers and the schema; the HTTP layer, guards, timers and queues; purchases before their payment,
-- payment intents, webhooks, refunds, prize claims and payouts; queries that format rows for the public;
-- authentication, compliance, the delivery of notifications and the audit log; the web application.
pub mod Base
pub mod Ledger
pub mod Finance
pub mod Draws
pub mod Prizes
pub mod Winners
pub mod Randomness
pub mod Snapshots
pub mod Tickets
pub mod Payments
pub mod Workers
