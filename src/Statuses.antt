-- ===== src/Statuses.antt =====
-- The domain enumerations of packages/contracts/src/enums.ts and the tables that the services consult:
-- transition tables, status lists, ledger sides, movement signs, overdue and aging rules.
-- Two members of an enumeration are compared as the strings that they are; here by their number.
pub mod Orders
pub mod Stock
pub mod Invoices
mod Tests
