-- ===== src/Lib.antt =====
-- The core of the Hixaa distributor management system: money, tax, discounts, the state machines of
-- its documents, the stock ledger with its reservations, the party ledger, and payments with their
-- allocations to invoices. The repository is a NestJS API (apps/api), a web application (apps/web) and
-- the contracts that they share (packages/contracts).
--
-- Prelude: Boolean tests, lists and signed integers over the native numbers; Prelude.Results has the
--   error classes of apps/api/src/common/errors/domain.error.ts and results that carry them.
-- Decimal: the decimal.js library, which is not part of the repository, as an interface: the operations
--   that the code calls with laws from its documentation. Its rounding to 34 significant digits is left
--   aside: a column holds 18 digits, and a product of two numbers of at most 17 digits stays exact.
--   Decimal.Scaled meets the interface.
-- Money: `class Money` of packages/contracts/src/primitives/money.ts. A money string is a number of
--   ten-thousandths, `Amount`, since the wire and the columns have four places. Money.Shares is its
--   `allocate`.
-- Gst: apps/api/src/modules/pricing/gst-calculator.ts, `computeLine` and `computeDocument`.
-- Discount: apps/api/src/modules/pricing/discount-resolver.ts, `selectDiscount` and `applyDiscount`.
-- Statuses: the enumerations and transition tables of packages/contracts/src/enums.ts, with the rules
--   that they carry: movement signs, overdue invoices, aging buckets.
-- Inventory: apps/api/src/modules/inventory. Inventory.Costing is costing.ts; Inventory.Tables has the
--   rows of apps/api/prisma/schema.prisma that the services read and write, the state `Db`, and the
--   transaction `Tx`, which fails and leaves no trace or returns a value and the new tables;
--   Inventory.Ledger is stock-ledger.service.ts (`move`, `adjustReserved`, `reserveUpTo`,
--   `lockBalance`); Inventory.Reservations is reservations.service.ts, whose operations call the ledger.
--   The `CHECK`s and the index of apps/api/prisma/migrations/20260804105731_0007_inventory_ledger that
--   can refuse a ledger row or a reservation are part of the operations.
--   A row lock serialises transactions, so a transaction is one function of the tables. What the code
--   reads before its transaction is a separate step (`load`, then `consume_loaded` or `close_loaded`),
--   so that two callers can be interleaved.
-- Finance: apps/api/src/modules/finance/ledger.service.ts, the party ledger, over the state `Books`:
--   `post`, `contra`, `balanceFor`; Finance.Acts has `writeOff` and `adjust`, Finance.Statements has
--   `statement`. A sum over rows is the database's.
--   Finance.Rows has what an accepted entry looks like.
-- Settlement: the rows of payments, allocations, invoices and tax notes, their `CHECK`s and the trigger
--   of apps/api/prisma/migrations/20260804135114_0010_finance/migration.sql, the state `Accounts`, and
--   `refreshSettlement` of apps/api/src/modules/finance/invoices.service.ts.
-- Payments: apps/api/src/modules/finance/payments.service.ts, over `Accounts` and the books of Finance:
--   `create`, `update`, `verify`; Payments.Allocate has `allocate` and `removeAllocation`,
--   Payments.Bounce has `bounce`. What a transaction uses of the row that its call loads before it is
--   an argument of the transaction (`verify_loaded`, `allocate_loaded`, `bounce_loaded`), so that it
--   can be run on a row which has changed since. The number of a payment is drawn from a sequence and is an argument of
--   `create`. `Payments.Reachable.run` is a sequence of operations of which the failed ones change
--   nothing.
--
-- Loops are recursion on lists, so no fuel is needed, but for the loop of `Money.allocate`, which takes
-- a number of rounds, of which as many as there are parts are enough; `expire_stale` takes 500 rows, as
-- the code does.
-- Ids and instants are numbers. Not modelled: messages of errors, parsing and printing of text, reads
-- for display, the remaining services (sales, the issuing and cancelling of invoices and tax notes,
-- transfers), the web application, and I/O.
pub mod Prelude
pub mod Decimal
pub mod Money
pub mod Gst
pub mod Discount
pub mod Payments
pub mod Settlement
pub mod Statuses
pub mod Inventory
pub mod Finance
