-- ===== src/Inventory/Reservations.antt =====
-- apps/api/src/modules/inventory/reservations.service.ts: `ReservationsService`. The scope of the
-- caller, which the Prisma client applies to each read through the warehouse, is the parameter
-- `visible`; an update by id finds the row that was read, so it is in scope too. A clock is read once in an
-- operation. A `findFirst` without an order takes the first row of the table, whatever its order is.
pub mod Rows
pub mod Steps
pub mod Invariant
pub mod Operations
pub mod Sweep
pub mod Stale
pub mod Repeats
pub mod Outcomes
use distribuitor_app.Prelude.{
  ℕ, zero, suc, Bool, true, false, not, ◌&&◌, ◌||◌, pos, leb_ℤ, Option, none, some, List, [], ◌∷◌,
  any, find_first, select, ◌==◌, leb, ◌+◌, if◌then◌else◌,
}
use distribuitor_app.Prelude.Results.{Result, ok, err, conflict, not_found, database}
use distribuitor_app.Decimal.{Decimal}
use distribuitor_app.Money.{Amount, Money, money, negate, subtract, gt, is_zero, to_string}
use distribuitor_app.Statuses.Stock.{
  issue, ReservationStatus, active, released, consumed, expired, reservation_number,
  can_transition_reservation,
}
use distribuitor_app.Inventory.Tables.{
  BalanceKey, Reservation, Audit, stock_reserved, reservation_released, reservation_expired,
  reservation_consumed, Act, Db, Tx, ◌>>=◌, ◌>>◌, pure, throw_if, modify, same_option,
}
use distribuitor_app.Inventory.Ledger.{Movement, hold_key, move, adjust_reserved, is_some}

pub record CreateReservation : Type 0 where
  pub warehouse : ℕ
  pub product : ℕ
  pub variant : Option ℕ
  pub order : Option ℕ
  pub quantity : Amount
  pub expires_at : Option ℕ

pub record Draw : Type 0 where
  pub order : ℕ
  pub warehouse : ℕ
  pub product : ℕ
  pub variant : Option ℕ
  pub quantity : Amount
  pub ref_type : Option ℕ
  pub ref_id : Option ℕ
  pub actor : ℕ

-- The reference types that the service writes.
abbrev pub ref_reservation : ℕ
ref_reservation = 0

abbrev pub ref_shipment : ℕ
ref_shipment = 1

abbrev pub or_default : Option ℕ → ℕ → ℕ
or_default none d = d
or_default (some a) d = a

abbrev pub is_active : ReservationStatus → Bool
is_active status = reservation_number status == reservation_number active

abbrev pub key_of : Reservation → BalanceKey
key_of r = hold_key r.warehouse r.product r.variant

abbrev pub find_reservation : ℕ → List Reservation → Option Reservation
find_reservation id = find_first (λ r. r.id == id)

-- An update of the row that `find_reservation` finds.
abbrev pub update_reservation :
    ℕ → (Reservation → Reservation) → List Reservation → List Reservation
update_reservation id f [] = []
update_reservation id f (r ∷ rest) =
    if r.id == id then f r ∷ rest else r ∷ update_reservation id f rest

abbrev pub set_reservation : ℕ → (Reservation → Reservation) → Tx (Unit {0})
set_reservation id f =
    modify (λ db. record db { reservations = update_reservation id f db.reservations })

abbrev pub record_audit : Act → ℕ → Tx (Unit {0})
record_audit act entity =
    modify (λ db. record db { audits = (record { act = act; entity = entity }) ∷ db.audits })

-- The index on active reservations: one for an order, a product and a warehouse; NULL clashes with
-- nothing.
abbrev pub clashes : CreateReservation → Reservation → Bool
clashes dto r =
    is_some dto.order
    && (same_option r.order dto.order
        && (r.product == dto.product && (r.warehouse == dto.warehouse && is_active r.status)))

-- The `CHECK` on the quantity of a new row, which is active, and that index.
unfoldable pub refuses_reservation : CreateReservation → List Reservation → Bool
refuses_reservation dto rows = leb_ℤ dto.quantity (pos 0) || any (clashes dto) rows

-- `stockReservation.create`, with the next id.
create_reservation : CreateReservation → ℕ → Tx ℕ
create_reservation dto actor db =
    if refuses_reservation dto db.reservations
    then err database
    else ok (
      db.next_id,
      record db {
        next_id = suc db.next_id;
        reservations =
            record {
              id = db.next_id;
              warehouse = dto.warehouse;
              product = dto.product;
              variant = dto.variant;
              order = dto.order;
              quantity = dto.quantity;
              status = active;
              expires_at = dto.expires_at;
              released_at = none;
              consumed_at = none;
              created_by = some actor;
            }
            ∷ db.reservations;
      },
    )

abbrev pub assert_transition : ReservationStatus → ReservationStatus → Tx (Unit {0})
assert_transition from to = throw_if (not (can_transition_reservation from to)) conflict

-- The audit of `close`.
abbrev pub closing_act : ReservationStatus → Act
closing_act released = reservation_released
closing_act _ = reservation_expired

-- The active reservations past their date, at most 500.
abbrev is_stale : ℕ → Reservation → Bool
is_stale now r = is_active r.status && elim r.expires_at [ none ↦ false | some at ↦ leb at now ]

abbrev take_ids : ℕ → List Reservation → List ℕ
take_ids zero rs = []
take_ids (suc n) [] = []
take_ids (suc n) (r ∷ rs) = r.id ∷ take_ids n rs

module _ ⦃dec : Decimal⦄ where
  -- The transaction of `close`, for the row that was loaded before it.
  unfoldable pub close_loaded : ℕ → ℕ → ReservationStatus → Reservation → Tx (Unit {0})
  close_loaded now id to reservation = do
    reserved ←
        adjust_reserved reservation.warehouse reservation.product reservation.variant
          (to_string (negate (money reservation.quantity)))
    set_reservation id (λ r. record r { status = to; released_at = some now })
    record_audit (closing_act to) id

  -- The movement of `consume`.
  abbrev pub consume_movement : ℕ → Reservation → Movement
  consume_movement actor reservation = record {
    key = key_of reservation;
    movement_type = issue;
    quantity = reservation.quantity;
    unit_cost = none;
    ref_type = some ref_reservation;
    ref_id = some reservation.id;
    reason = none;
    occurred_at = none;
    actor = some actor;
  }

  -- The transaction of `consume`, for the row that was loaded before it.
  unfoldable pub consume_loaded : ℕ → ℕ → ℕ → Reservation → Tx (Unit {0})
  consume_loaded now id actor reservation = do
    reserved ←
        adjust_reserved reservation.warehouse reservation.product reservation.variant
          (to_string (negate (money reservation.quantity)))
    moved ← move now (consume_movement actor reservation)
    set_reservation id (λ r. record r { status = consumed; consumed_at = some now })
    record_audit reservation_consumed id

  -- The reservation that `consumeQuantity` draws from.
  abbrev pub covers : Draw → Reservation → Bool
  covers input r =
      same_option r.order (some input.order)
      && (r.warehouse == input.warehouse
          && (r.product == input.product
              && (same_option r.variant input.variant && is_active r.status)))

  abbrev pub draw_movement : Draw → Movement
  draw_movement input = record {
    key = hold_key input.warehouse input.product input.variant;
    movement_type = issue;
    quantity = to_string (money input.quantity);
    unit_cost = none;
    ref_type = some (or_default input.ref_type ref_shipment);
    ref_id = some (or_default input.ref_id input.order);
    reason = none;
    occurred_at = none;
    actor = some input.actor;
  }

  -- The row after a draw that leaves `remaining`.
  abbrev pub drawn : ℕ → Money → Reservation → Reservation
  drawn now remaining r =
      if is_zero remaining
      then record r { quantity = to_string remaining; status = consumed; consumed_at = some now }
      else record r { quantity = to_string remaining }

  -- `consumeQuantity` from the row that was found.
  unfoldable pub draw_from : ℕ → Draw → Reservation → Tx Amount
  draw_from now input reservation = do
    let held = money reservation.quantity
    let wanted = money input.quantity
    throw_if (gt wanted held) conflict
    reserved ←
        adjust_reserved input.warehouse input.product input.variant (to_string (negate wanted))
    moved ← move now (draw_movement input)
    let remaining = subtract held wanted
    set_reservation reservation.id (drawn now remaining)
    pure (to_string remaining)

  module _ (visible : ℕ → Bool) where
    unfoldable pub reserve : CreateReservation → ℕ → Tx ℕ
    unfolding create_reservation
    reserve dto actor db =
        (do
          throw_if (not (any (λ w. w == dto.warehouse) db.warehouses && visible dto.warehouse))
              not_found
          reserved ← adjust_reserved dto.warehouse dto.product dto.variant dto.quantity
          id ← create_reservation dto actor
          record_audit stock_reserved id
          pure id)
          db

    unfoldable pub consume_quantity : ℕ → Draw → Tx Amount
    consume_quantity now input db =
        elim (find_first (λ r. covers input r && visible r.warehouse) db.reservations) [
          | none ↦ err conflict
          | some reservation ↦ draw_from now input reservation db
        ]

    unfoldable pub load : ℕ → Tx Reservation
    load id db = elim (find_reservation id db.reservations) [
      | none ↦ err not_found
      | some r ↦ if visible r.warehouse then ok (r, db) else err not_found
    ]

    unfoldable pub close : ℕ → ℕ → ReservationStatus → Tx (Unit {0})
    close now id to = do
      reservation ← load id
      assert_transition reservation.status to
      close_loaded now id to reservation

    abbrev pub release : ℕ → ℕ → Tx (Unit {0})
    release now id = close now id released

    abbrev pub expire : ℕ → ℕ → Tx (Unit {0})
    expire now id = close now id expired

    unfoldable pub consume : ℕ → ℕ → ℕ → Tx (Unit {0})
    consume now id actor = do
      reservation ← load id
      assert_transition reservation.status consumed
      consume_loaded now id actor reservation

    -- A failure to close a row is logged, and the sweep goes on.
    expire_each : ℕ → List ℕ → Db → ℕ × Db
    expire_each now [] db = (0, db)
    expire_each now (id ∷ ids) db = elim (close now id expired db) [
      | ok (_, new) ↦ let (n, last) = expire_each now ids new in (suc n, last)
      | err e ↦ expire_each now ids db
    ]

    unfoldable pub expire_stale : ℕ → Db → ℕ × Db
    unfolding expire_each
    expire_stale now db =
        expire_each now
          (take_ids 500 (select (λ r. is_stale now r && visible r.warehouse) db.reservations)) db
