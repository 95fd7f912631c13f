-- ===== src/Inventory/Reservations/Steps.antt =====
-- What the operations on reservations do, step by step, when they succeed.
use distribuitor_app.Prelude.{
  ℕ, suc, ◌≡◌, Bool, true, false, not, ◌&&◌, neg, ◌-ℤ◌, ◌≤ℤ◌, none, some, ◌∷◌, find_first, arith,
  Option-cases, Bool-cases, inl, inr, any, ◌==◌,
}
use distribuitor_app.Prelude.Results.{ok}
use distribuitor_app.Decimal.{Decimal}
use distribuitor_app.Decimal.Laws.{
  negated_amount, to_fixed_amount, minus_amounts, greater_than_amounts,
}
use distribuitor_app.Money.{Amount, money, gt}
use distribuitor_app.Statuses.Stock.{ReservationStatus, issue, active, consumed}
use distribuitor_app.Inventory.Tables.{Reservation, Act, Db, reservation_consumed, stock_reserved}
use distribuitor_app.Inventory.Tables.Steps.{Ensures, continue-Ensures, throw_if-Ensures}
use distribuitor_app.Inventory.Ledger.{Moved, Movement, move, adjust_reserved, hold_key}
use distribuitor_app.Inventory.Reservations.{
  close_loaded, consume_loaded, consume_movement, closing_act, update_reservation, draw_from, Draw,
  drawn, or_default, ref_shipment, reserve, refuses_reservation, CreateReservation, load,
  find_reservation, consume_quantity, covers,
}

-- The tables after a row is updated.
abbrev pub updated_db : ℕ → (Reservation → Reservation) → Db → Db
updated_db id f db = record db { reservations = update_reservation id f db.reservations }

abbrev pub audited_db : Act → ℕ → Db → Db
audited_db act id db = record db { audits = (record { act = act; entity = id }) ∷ db.audits }

-- The row that `reserve` creates.
abbrev pub reserved_row : CreateReservation → ℕ → ℕ → Reservation
reserved_row dto actor id = record {
  id = id;
  warehouse = dto.warehouse;
  product = dto.product;
  variant = dto.variant;
  order = dto.order;
  quantity = dto.quantity;
  status = active;
  expires_at = dto.expires_at;
  released_at = none;
  consumed_at = none;
  created_by = some actor;
}

abbrev pub created_db : CreateReservation → ℕ → Db → Db
created_db dto actor db = record db {
  next_id = suc db.next_id;
  reservations = reserved_row dto actor db.next_id ∷ db.reservations;
}

-- The movement of a draw, its quantity read.
abbrev pub issue_of : Draw → Movement
issue_of input = record {
  key = hold_key input.warehouse input.product input.variant;
  movement_type = issue;
  quantity = input.quantity;
  unit_cost = none;
  ref_type = some (or_default input.ref_type ref_shipment);
  ref_id = some (or_default input.ref_id input.order);
  reason = none;
  occurred_at = none;
  actor = some input.actor;
}

module _ ⦃dec : Decimal⦄ where
  module _ {κ} (P : Unit {0} → Db → Type κ) (now id : ℕ) (db : Db) (r : Reservation) where
    pub close_loaded-Ensures :
        (to : ReservationStatus)
        → ((held : Amount) (mid : Db)
            → adjust_reserved r.warehouse r.product r.variant (neg r.quantity) db ≡ ok (held, mid)
            → P tt (
                audited_db
                  (closing_act to)
                  id
                  (updated_db id (λ row. record row { status = to; released_at = some now }) mid)))
        → Ensures P (close_loaded now id to r db)
    unfolding close_loaded
    close_loaded-Ensures to h =
        simp (negated_amount, to_fixed_amount)
          (continue-Ensures P (adjust_reserved r.warehouse r.product r.variant (neg r.quantity) db)
            _ h)

    pub consume_loaded-Ensures :
        (actor : ℕ)
        → ((held : Amount) (mid : Db) (moved : Moved) (last : Db)
            → adjust_reserved r.warehouse r.product r.variant (neg r.quantity) db ≡ ok (held, mid)
            → move now (consume_movement actor r) mid ≡ ok (moved, last)
            → P tt (
                audited_db reservation_consumed id (
                  updated_db id
                    (λ row. record row { status = consumed; consumed_at = some now })
                    last)))
        → Ensures P (consume_loaded now id actor r db)
    unfolding consume_loaded
    consume_loaded-Ensures actor h =
        simp (negated_amount, to_fixed_amount)
          (continue-Ensures P (adjust_reserved r.warehouse r.product r.variant (neg r.quantity) db)
            _
            λ held mid e.
              continue-Ensures P (move now (consume_movement actor r) mid) _
                λ moved last f. h held mid moved last e f)

  coverable : (h w : Amount) → gt (money w) (money h) ≡ false → w ≤ℤ h
  coverable h w e = let g = simp greater_than_amounts at e in ground arith

  module _ {κ} (P : Amount → Db → Type κ) (now : ℕ) (input : Draw) (db : Db) (r : Reservation) where
    pub draw_from-Ensures :
        ((held : Amount) (mid : Db) (moved : Moved) (last : Db)
          → input.quantity ≤ℤ r.quantity
          → adjust_reserved input.warehouse input.product input.variant (neg input.quantity) db
            ≡ ok (held, mid)
          → move now (issue_of input) mid ≡ ok (moved, last)
          → P
              (r.quantity -ℤ input.quantity)
              (updated_db r.id (drawn now (money (r.quantity -ℤ input.quantity))) last))
        → Ensures P (draw_from now input r db)
    unfolding draw_from
    draw_from-Ensures h =
        throw_if-Ensures P (gt (money input.quantity) (money r.quantity)) _ _ db λ low.
          simp (negated_amount, to_fixed_amount, minus_amounts)
            (continue-Ensures P
              (adjust_reserved input.warehouse input.product input.variant (neg input.quantity) db)
              _
              λ held mid e.
                continue-Ensures P (move now (issue_of input) mid) _ λ moved last f.
                  h held mid moved last (coverable r.quantity input.quantity low) e f)

  module _ {κ} (visible : ℕ → Bool) (db : Db) where
    pub reserve-Ensures :
        (P : ℕ → Db → Type κ) (dto : CreateReservation) (actor : ℕ)
        → ((held : Amount) (mid : Db)
            → adjust_reserved dto.warehouse dto.product dto.variant dto.quantity db ≡ ok (held, mid)
            → P mid.next_id (audited_db stock_reserved mid.next_id (created_db dto actor mid)))
        → Ensures P (reserve visible dto actor db)
    unfolding reserve
    reserve-Ensures P dto actor h =
        throw_if-Ensures P
          (not (any (λ w. w == dto.warehouse) db.warehouses && visible dto.warehouse)) _ _ db
          λ _.
            continue-Ensures P
              (adjust_reserved dto.warehouse dto.product dto.variant dto.quantity db) _
              λ held mid e. elim (Bool-cases (refuses_reservation dto mid.reservations)) [
                | inl refused ↦ rw refused tt
                | inr fine ↦ rw fine (h held mid e)
              ]

  module _ (visible : ℕ → Bool) (db : Db) where
    -- What is loaded is the row of the id, in scope, and the tables stay.
    pub load_found :
        (id : ℕ) (r : Reservation) (new : Db)
        → load visible id db ≡ ok (r, new)
        → (new ≡ db) × (find_reservation id db.reservations ≡ some r) × (visible r.warehouse ≡ true)
    unfolding load
    load_found id r new e = elim (Option-cases (find_reservation id db.reservations)) [
      | inl missing ↦ absurd (ground arith)
      | inr (c, found) ↦ ground arith
    ]

    pub load_seen :
        (id : ℕ) (r : Reservation)
        → find_reservation id db.reservations ≡ some r
        → visible r.warehouse ≡ true
        → load visible id db ≡ ok (r, db)
    unfolding load
    load_seen id r found seen = ground arith

    -- A draw that succeeds draws from a row that covers it.
    pub consume_quantity_found :
        (now : ℕ) (input : Draw) (remaining : Amount) (new : Db)
        → consume_quantity visible now input db ≡ ok (remaining, new)
        → (r : Reservation) × (find_first
              (λ c. covers input c && visible c.warehouse)
              db.reservations
            ≡ some r)
          × (draw_from now input r db ≡ ok (remaining, new))
    unfolding consume_quantity
    consume_quantity_found now input remaining new e =
        elim (Option-cases
          (find_first (λ c. covers input c && visible c.warehouse) db.reservations)) [
            | inl missing ↦ absurd (ground arith)
            | inr (r, found) ↦ (r, found, ground arith)
          ]
