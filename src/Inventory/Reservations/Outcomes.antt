-- ===== src/Inventory/Reservations/Outcomes.antt =====
-- What a successful operation on a reservation has done to its row and to the stock of its key.
use distribuitor_app.Prelude.{ℕ, ◌≡◌, refl, ◌∙◌, Bool, true, false, not, neg, ◌+ℤ◌, some, arith}
use distribuitor_app.Prelude.Results.{Result, ok, err, conflict}
use distribuitor_app.Decimal.{Decimal}
use distribuitor_app.Money.{Amount}
use distribuitor_app.Statuses.Stock.{
  ReservationStatus, active, consumed, can_transition_reservation, sign_for_movement, issue,
}
use distribuitor_app.Inventory.Tables.{Reservation, Db}
use distribuitor_app.Inventory.Tables.Rows.{on_hand_of, reserved_of, same_key_refl}
use distribuitor_app.Inventory.Tables.Steps.{
  Ensures, Ensures-ok, continue-Ensures, throw_if-Ensures,
}
use distribuitor_app.Inventory.Ledger.Effects.{adjust_reserved-IsAdjusted, move-IsMoved}
use distribuitor_app.Inventory.Ledger.Moves.{signed_amount}
use distribuitor_app.Inventory.Reservations.{
  key_of, find_reservation, consume_loaded, consume_movement, load, close, consume,
}
use distribuitor_app.Inventory.Reservations.Rows.{find_reservation-update}
use distribuitor_app.Inventory.Reservations.Steps.{consume_loaded-Ensures, load_found, load_seen}

-- The quantity of the row has left the stock of its key and the hold on it.
abbrev pub Issues : Reservation → Db → Db → Type 0
Issues r db new =
    (on_hand_of (key_of r) new.balances ≡ on_hand_of (key_of r) db.balances +ℤ neg r.quantity)
    × (reserved_of (key_of r) new.balances ≡ reserved_of (key_of r) db.balances +ℤ neg r.quantity)

pub issue_amount : (q : Amount) → signed_amount issue q ≡ neg q
unfolding sign_for_movement
issue_amount q = refl

module _ ⦃dec : Decimal⦄ where
  pub consume_loaded-Issues :
      (now id actor : ℕ) (r : Reservation) (db : Db)
      → Ensures (λ _ new. Issues r db new) (consume_loaded now id actor r db)
  consume_loaded-Issues now id actor r db =
      consume_loaded-Ensures (λ _ new. Issues r db new) now id db r actor
        λ held mid moved last e f.
          let k = key_of r in
          let adjusted =
            adjust_reserved-IsAdjusted r.warehouse r.product r.variant _ db mid held e in
          let issued = move-IsMoved now (consume_movement actor r) mid last moved f in
          (
            issued.on_hand_changed k
                ∙ rw (same_key_refl k) (issued.result ∙ rw (issue_amount, adjusted.on_hand_kept k)),
            issued.reserved_kept k ∙ adjusted.reserved_changed k ∙ rw (same_key_refl k),
          )

  -- The row of a reservation after it is consumed.
  abbrev pub consumed_row : ℕ → Reservation → Reservation
  consumed_row now r = record r { status = consumed; consumed_at = some now }

  consume_loaded_row :
      (now id actor : ℕ) (r : Reservation) (db : Db)
      → find_reservation id db.reservations ≡ some r
      → Ensures
          (λ _ new. find_reservation id new.reservations ≡ some (consumed_row now r))
          (consume_loaded now id actor r db)
  consume_loaded_row now id actor r db found =
      consume_loaded-Ensures
        (λ _ new. find_reservation id new.reservations ≡ some (consumed_row now r)) now id db r
        actor
        λ held mid moved last e f.
          let adjusted =
            adjust_reserved-IsAdjusted r.warehouse r.product r.variant _ db mid held e in
          let issued = move-IsMoved now (consume_movement actor r) mid last moved f in
          rw (issued.reservations_kept, adjusted.reservations_kept)
            (find_reservation-update id (consumed_row now) (λ row. refl) db.reservations r found)

  allowed : (s t : ReservationStatus) → can_transition_reservation s t ≡ true → s ≡ active
  unfolding can_transition_reservation
  allowed s t e = ground arith

  refused : (t : ReservationStatus) → can_transition_reservation consumed t ≡ false
  unfolding can_transition_reservation
  refused t = refl

  module _ (visible : ℕ → Bool) where
    -- A reservation that is consumed was in the caller's scope and ACTIVE; its quantity leaves the stock of its key and the hold
    -- on it, and its row is CONSUMED.
    pub consume-Issues :
        (now id actor : ℕ) (db new : Db)
        → consume visible now id actor db ≡ ok (tt, new)
        → (r : Reservation) × (find_reservation id db.reservations ≡ some r)
          × (visible r.warehouse ≡ true)
          × (r.status ≡ active)
          × (find_reservation id new.reservations ≡ some (consumed_row now r))
          × Issues r db new
    unfolding consume
    consume-Issues now id actor db new e =
        Ensures-ok P (consume visible now id actor db)
          (continue-Ensures P (load visible id db) _ λ r mid l.
            let (same, found, seen) = load_found visible db id r mid l in
            rw same (
              throw_if-Ensures P (not (can_transition_reservation r.status consumed)) _ _ db λ step.
                both r found seen (allowed r.status consumed (ground arith))
                  (consume_loaded now id actor r db) (consume_loaded_row now id actor r db found)
                  (consume_loaded-Issues now id actor r db)))
          e
      where
        P : Unit {0} → Db → Type 0
        P _ new =
            (r : Reservation) × (find_reservation id db.reservations ≡ some r)
            × (visible r.warehouse ≡ true)
            × (r.status ≡ active)
            × (find_reservation id new.reservations ≡ some (consumed_row now r))
            × Issues r db new

        both :
            (r : Reservation)
            → find_reservation id db.reservations ≡ some r
            → visible r.warehouse ≡ true
            → r.status ≡ active
            → (x : Result (Unit {0} × Db))
            → Ensures (λ _ new. find_reservation id new.reservations ≡ some (consumed_row now r)) x
            → Ensures (λ _ new. Issues r db new) x
            → Ensures P x
        both r found seen a (ok (u, last)) row issues = (r, found, seen, a, row, issues)
        both r found seen a (err x) row issues = tt

    -- Once a reservation is consumed, neither it is consumed again nor is it closed: a later call
    -- of the same scope is a conflict.
    pub consume_once :
        (now id actor now' actor' : ℕ) (to : ReservationStatus) (db new : Db)
        → consume visible now id actor db ≡ ok (tt, new)
        → (consume visible now' id actor' new ≡ err conflict)
          × (close visible now' id to new ≡ err conflict)
    unfolding consume close
    consume_once now id actor now' actor' to db new e =
        let (r, found, seen, a, row, issues) = consume-Issues now id actor db new e in
        let there = load_seen visible new id (consumed_row now r) row seen in
        (rw there (rw (refused consumed)), rw there (rw (refused to)))
