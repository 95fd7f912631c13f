-- ===== src/Inventory.antt =====
-- apps/api/src/modules/inventory: costing, the stock ledger and reservations, over the tables that
-- they read and write.
pub mod Costing
pub mod Tables
pub mod Ledger
pub mod Reservations
mod Tests
