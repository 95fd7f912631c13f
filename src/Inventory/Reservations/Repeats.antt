-- ===== src/Inventory/Reservations/Repeats.antt =====
-- The transaction of `consume` on a row that was loaded before it.
use distribuitor_app.Decimal.{Decimal}
