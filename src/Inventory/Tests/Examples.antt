-- ===== src/Inventory/Tests/Examples.antt =====
-- The theorems on stock, applied to the runs.
use distribuitor_app.Prelude.{
  ℕ, ◌+◌, ◌*◌, ◌≤◌, [], ◌∷◌, ◌≡◌, refl, inl, inr, true, pos, neg, ◌+ℤ◌, none, some, Bool-cases,
  arith,
}
use distribuitor_app.Prelude.Results.{ok, err, insufficient_stock, conflict}
use distribuitor_app.Decimal.{half_up, rounded_ℕ}
use distribuitor_app.Decimal.Scaled.{scaled_decimal}
use distribuitor_app.Money.{whole, money}
use distribuitor_app.Statuses.Stock.{active, released, expired, issue, sign_for_movement}
use distribuitor_app.Inventory.Costing.{next_average_cost}
use distribuitor_app.Inventory.Costing.Bounds.{cost_input, next_average_cost_between}
use distribuitor_app.Inventory.Tables.{Db, Reservation, same_key}
use distribuitor_app.Inventory.Ledger.{Movement, Moved, hold_key, move}
use distribuitor_app.Inventory.Ledger.Invariant.{IsSound, move-IsSound}
use distribuitor_app.Inventory.Ledger.Holds.{Reserves, reserve_up_to-Reserves}
use distribuitor_app.Inventory.Ledger.Effects.{
  IsMoved, move-IsMoved, IsAdjusted, adjust_reserved-IsAdjusted,
}
use distribuitor_app.Inventory.Ledger.Outcomes.{move_succeeds, move_oversell_refused}
use distribuitor_app.Inventory.Reservations.{close, consume, find_reservation, expire_stale}
use distribuitor_app.Inventory.Reservations.Invariant.{IsConsistent}
use distribuitor_app.Inventory.Reservations.Operations.{
  close-IsConsistent, consume-IsConsistent, consume_quantity-IsConsistent,
}
use distribuitor_app.Inventory.Reservations.Sweep.{reserve-IsConsistent}
use distribuitor_app.Inventory.Reservations.Stale.{Swept, expire_stale_sweeps}
use distribuitor_app.Inventory.Reservations.Outcomes.{
  Issues, consumed_row, consume-Issues, consume_once,
}
use distribuitor_app.Inventory.Tests.{
  shelf, everywhere, empty_db, opening_stock, stocked_db, opening_run, four_pieces, held_row,
  reserved_db, reserve_run, consumed_db, consume_run, one_piece, drawn_db, draw_run, released_db,
  release_run, ten_held_db, reserve_up_to_run, row, four_held_db, adjust_run,
}

empty-IsSound : IsSound empty_db
empty-IsSound = record { agrees = λ k. refl; covered = tt }

stocked-IsSound : IsSound stocked_db
stocked-IsSound =
    move-IsSound 1 opening_stock empty_db stocked_db
      (record { on_hand = whole 10; average_cost = whole 5 }) empty-IsSound opening_run

stocked-IsConsistent : IsConsistent stocked_db
stocked-IsConsistent = record {
  sound = stocked-IsSound;
  holds_agree = λ w p v. elim (Bool-cases (same_key shelf (hold_key w p v))) [
    | inl same ↦ rw same
    | inr other ↦ rw other
  ];
  distinct = tt;
  fresh = tt;
}

reserved-IsConsistent : IsConsistent reserved_db
reserved-IsConsistent =
    reserve-IsConsistent everywhere four_pieces 9 7 stocked_db reserved_db stocked-IsConsistent
      reserve_run

move-IsSound_example : IsSound stocked_db
move-IsSound_example =
    move-IsSound 1 opening_stock empty_db stocked_db
      (record { on_hand = whole 10; average_cost = whole 5 }) empty-IsSound opening_run

move-IsMoved_example :
    IsMoved 1 opening_stock empty_db
      (record { on_hand = whole 10; average_cost = whole 5 })
      stocked_db
move-IsMoved_example =
    move-IsMoved 1 opening_stock empty_db stocked_db
      (record { on_hand = whole 10; average_cost = whole 5 }) opening_run

-- An issue of `quantity` pieces.
abbrev issue_of_pieces : ℕ → Movement
issue_of_pieces quantity = record opening_stock { movement_type = issue; quantity = whole quantity }

six_taken : sign_for_movement issue ≡ neg (pos 1)
unfolding sign_for_movement neg
six_taken = refl

move_succeeds_example :
    (r : Moved) × (new : Db) × (move 2 (issue_of_pieces 6) reserved_db ≡ ok (r, new))
unfolding sign_for_movement neg ◌+ℤ◌
move_succeeds_example =
    move_succeeds 2 (issue_of_pieces 6) reserved_db (refl, refl) (inr (omega arith)) (ground arith)
      (omega arith) (omega arith) (inl refl) (omega arith, inr (whole 5, refl, omega arith))

move_oversell_refused_example : move 2 (issue_of_pieces 11) reserved_db ≡ err insufficient_stock
unfolding sign_for_movement neg ◌+ℤ◌
move_oversell_refused_example =
    move_oversell_refused 2 (issue_of_pieces 11) reserved_db (refl, refl) (inr (omega arith))
      (ground arith) (omega arith)

adjust_reserved-IsAdjusted_example : IsAdjusted shelf (whole 4) stocked_db (whole 4) four_held_db
adjust_reserved-IsAdjusted_example =
    adjust_reserved-IsAdjusted 1 2 none (whole 4) stocked_db four_held_db (whole 4) adjust_run

reserve_up_to-Reserves_example :
    Reserves shelf
      (whole 12)
      stocked_db
      (record { reserved = whole 10; backordered = whole 2 })
      ten_held_db
reserve_up_to-Reserves_example =
    reserve_up_to-Reserves 1 2 none (whole 12) stocked_db ten_held_db
      (record { reserved = whole 10; backordered = whole 2 }) stocked-IsSound (omega arith)
      reserve_up_to_run

reserve-IsConsistent_example : IsConsistent reserved_db
reserve-IsConsistent_example =
    reserve-IsConsistent everywhere four_pieces 9 7 stocked_db reserved_db stocked-IsConsistent
      reserve_run

consume-IsConsistent_example : IsConsistent consumed_db
consume-IsConsistent_example =
    consume-IsConsistent everywhere 2 7 9 reserved_db consumed_db reserved-IsConsistent consume_run

consume_quantity-IsConsistent_example : IsConsistent drawn_db
consume_quantity-IsConsistent_example =
    consume_quantity-IsConsistent everywhere 2 one_piece (whole 3) reserved_db drawn_db
      reserved-IsConsistent draw_run

close-IsConsistent_example : IsConsistent released_db
close-IsConsistent_example =
    close-IsConsistent everywhere 2 7 released reserved_db released_db reserved-IsConsistent
      release_run

consume-Issues_example :
    (r : Reservation) × (find_reservation 7 reserved_db.reservations ≡ some r)
    × (everywhere r.warehouse ≡ true)
    × (r.status ≡ active)
    × (find_reservation 7 consumed_db.reservations ≡ some (consumed_row 2 r))
    × Issues r reserved_db consumed_db
consume-Issues_example = consume-Issues everywhere 2 7 9 reserved_db consumed_db consume_run

consume_once_example :
    (consume everywhere 3 7 9 consumed_db ≡ err conflict)
    × (close everywhere 3 7 expired consumed_db ≡ err conflict)
consume_once_example = consume_once everywhere 2 7 9 3 9 expired reserved_db consumed_db consume_run

-- At the instant 30 the hold is stale.
expire_stale_sweeps_example :
    IsConsistent (expire_stale everywhere 30 reserved_db).1
    × Swept everywhere 30 7 reserved_db.reservations
        (expire_stale everywhere 30 reserved_db).1.reservations
expire_stale_sweeps_example = expire_stale_sweeps everywhere 30 reserved_db 7 reserved-IsConsistent

-- The row 7 was consumed after it was loaded; four more pieces of the key are held for another order.
abbrev late_db : Db
late_db = record consumed_db {
  balances = row (whole 16) (whole 4) 2 ∷ [];
  reservations = record held_row { id = 8; order = some 4 } ∷ consumed_db.reservations;
}

-- Ten pieces at 5.00 and five at 8.00 average 6.00.
next_average_cost_between_example :
    (average : ℕ) × (next_average_cost
        (cost_input (pos 100_000) (pos 50_000) (pos 50_000) (some (pos 80_000)))
      ≡ ok (money (pos average)))
    × (average ≡ rounded_ℕ half_up (100_000 * 50_000 + 50_000 * 80_000) (100_000 + 50_000))
    × (50_000 ≤ average)
    × (average ≤ 80_000)
next_average_cost_between_example =
    next_average_cost_between 99_999 49_999 50_000 80_000 50_000 80_000 (omega arith) (omega arith)
      (omega arith) (omega arith)
