-- ===== src/Inventory/Tests.antt =====
-- Runs of the inventory services on a small warehouse, and what the theorems say of them.
mod Examples
use distribuitor_app.Prelude.{
  ℕ, ◌≡◌, refl, Bool, true, false, ℤ, pos, negsuc, Option, none, some, List, [], ◌∷◌, neg, ◌+ℤ◌,
  ◌-ℤ◌, ◌*ℤ◌,
}
use distribuitor_app.Prelude.Results.{Result, ok, err, insufficient_stock, conflict}
use distribuitor_app.Decimal.Scaled.{scaled_decimal}
use distribuitor_app.Money.{Amount, whole}
use distribuitor_app.Statuses.Stock.{
  opening, issue, active, released, consumed, expired, sign_for_movement,
  can_transition_reservation,
}
use distribuitor_app.Inventory.Tables.{
  BalanceKey, Balance, StockEntry, Reservation, Audit, Db, stock_reserved, reservation_consumed,
  reservation_released, reservation_expired,
}
use distribuitor_app.Inventory.Ledger.{
  Movement, Moved, Held, hold_key, move, adjust_reserved, reserve_up_to, hold, signed_quantity,
  lock_balance, refuses_entry,
}
use distribuitor_app.Inventory.Costing.{next_average_cost, ledger_unit_cost}
use distribuitor_app.Inventory.Reservations.{
  CreateReservation, Draw, reserve, refuses_reservation, consume, consume_loaded, close,
  close_loaded, load, draw_from, consume_quantity, expire_stale, ref_reservation, ref_shipment,
}

abbrev pub shelf : BalanceKey
shelf = hold_key 1 2 none

abbrev pub everywhere : ℕ → Bool
everywhere w = true

abbrev pub empty_db : Db
empty_db = record {
  warehouses = 1 ∷ [];
  products = 2 ∷ [];
  balances = [];
  entries = [];
  reservations = [];
  audits = [];
  next_id = 7;
}

-- Ten pieces at 5 each.
abbrev pub opening_stock : Movement
opening_stock = record {
  key = shelf;
  movement_type = opening;
  quantity = whole 10;
  unit_cost = some (whole 5);
  ref_type = none;
  ref_id = none;
  reason = none;
  occurred_at = none;
  actor = none;
}

abbrev pub row : Amount → Amount → ℕ → Balance
row on_hand reserved at = record {
  key = shelf;
  on_hand = on_hand;
  reserved = reserved;
  average_cost = whole 5;
  last_movement_at = some at;
}

abbrev pub opening_entry : StockEntry
opening_entry = record {
  key = shelf;
  movement_type = opening;
  quantity = whole 10;
  unit_cost = whole 5;
  ref_type = none;
  ref_id = none;
  reason = none;
  occurred_at = 1;
  created_by = none;
}

abbrev pub stocked_db : Db
stocked_db = record empty_db {
  balances = row (whole 10) (pos 0) 1 ∷ [];
  entries = opening_entry ∷ [];
}

pub opening_run :
    move 1 opening_stock empty_db
    ≡ ok (record { on_hand = whole 10; average_cost = whole 5 }, stocked_db)
unfolding move refuses_entry signed_quantity sign_for_movement ◌*ℤ◌ lock_balance ◌+ℤ◌
    next_average_cost ledger_unit_cost
opening_run = refl

abbrev pub four_pieces : CreateReservation
four_pieces = record {
  warehouse = 1;
  product = 2;
  variant = none;
  order = some 3;
  quantity = whole 4;
  expires_at = some 20;
}

abbrev pub held_row : Reservation
held_row = record {
  id = 7;
  warehouse = 1;
  product = 2;
  variant = none;
  order = some 3;
  quantity = whole 4;
  status = active;
  expires_at = some 20;
  released_at = none;
  consumed_at = none;
  created_by = some 9;
}

abbrev pub reserved_db : Db
reserved_db = record stocked_db {
  balances = row (whole 10) (whole 4) 1 ∷ [];
  reservations = held_row ∷ [];
  audits = (record { act = stock_reserved; entity = 7 }) ∷ [];
  next_id = 8;
}

pub reserve_run : reserve everywhere four_pieces 9 stocked_db ≡ ok (7, reserved_db)
unfolding reserve refuses_reservation adjust_reserved lock_balance ◌*ℤ◌ ◌+ℤ◌
reserve_run = refl

-- An issue of `quantity` at the instant `at`, with what it refers to.
abbrev pub issue_entry : ℕ → ℕ → ℕ → ℕ → StockEntry
issue_entry quantity at ref_type ref_id = record {
  key = shelf;
  movement_type = issue;
  quantity = neg (whole quantity);
  unit_cost = whole 5;
  ref_type = some ref_type;
  ref_id = some ref_id;
  reason = none;
  occurred_at = at;
  created_by = some 9;
}

abbrev pub consumed_db : Db
consumed_db = record reserved_db {
  balances = row (whole 6) (pos 0) 2 ∷ [];
  entries = issue_entry 4 2 ref_reservation 7 ∷ opening_entry ∷ [];
  reservations = record held_row { status = consumed; consumed_at = some 2 } ∷ [];
  audits = (record { act = reservation_consumed; entity = 7 }) ∷ reserved_db.audits;
}

pub consume_run : consume everywhere 2 7 9 reserved_db ≡ ok (tt, consumed_db)
unfolding consume load can_transition_reservation consume_loaded adjust_reserved move refuses_entry
    signed_quantity sign_for_movement ◌*ℤ◌ lock_balance ◌+ℤ◌ next_average_cost ledger_unit_cost neg
consume_run = refl

-- One piece of the four goes out first.
abbrev pub one_piece : Draw
one_piece = record {
  order = 3;
  warehouse = 1;
  product = 2;
  variant = none;
  quantity = whole 1;
  ref_type = none;
  ref_id = some 11;
  actor = 9;
}

abbrev pub drawn_db : Db
drawn_db = record reserved_db {
  balances = row (whole 9) (whole 3) 2 ∷ [];
  entries = issue_entry 1 2 ref_shipment 11 ∷ opening_entry ∷ [];
  reservations = record held_row { quantity = whole 3 } ∷ [];
}

pub draw_run : consume_quantity everywhere 2 one_piece reserved_db ≡ ok (whole 3, drawn_db)
unfolding consume_quantity draw_from adjust_reserved move refuses_entry signed_quantity
    sign_for_movement ◌*ℤ◌ lock_balance ◌+ℤ◌ ◌-ℤ◌ next_average_cost ledger_unit_cost neg
draw_run = refl

abbrev pub released_db : Db
released_db = record reserved_db {
  balances = row (whole 10) (pos 0) 1 ∷ [];
  reservations = record held_row { status = released; released_at = some 2 } ∷ [];
  audits = (record { act = reservation_released; entity = 7 }) ∷ reserved_db.audits;
}

pub release_run : close everywhere 2 7 released reserved_db ≡ ok (tt, released_db)
unfolding close load can_transition_reservation close_loaded adjust_reserved ◌*ℤ◌ lock_balance ◌+ℤ◌
    neg
release_run = refl

-- Of twelve wanted pieces ten are there.
abbrev pub ten_held_db : Db
ten_held_db = record stocked_db { balances = row (whole 10) (whole 10) 1 ∷ [] }

pub reserve_up_to_run :
    reserve_up_to 1 2 none (whole 12) stocked_db
    ≡ ok (record { reserved = whole 10; backordered = whole 2 }, ten_held_db)
unfolding reserve_up_to hold ◌*ℤ◌ lock_balance ◌+ℤ◌ ◌-ℤ◌ neg
reserve_up_to_run = refl

-- Four pieces are held.
abbrev pub four_held_db : Db
four_held_db = record stocked_db { balances = row (whole 10) (whole 4) 1 ∷ [] }

pub adjust_run : adjust_reserved 1 2 none (whole 4) stocked_db ≡ ok (whole 4, four_held_db)
unfolding adjust_reserved lock_balance ◌*ℤ◌ ◌+ℤ◌
adjust_run = refl
