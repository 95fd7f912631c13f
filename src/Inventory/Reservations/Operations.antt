-- ===== src/Inventory/Reservations/Operations.antt =====
-- Every operation on reservations keeps the tables consistent.
use distribuitor_app.Prelude.{
  ℕ, ◌≡◌, refl, subst, Bool, true, false, not, ◌&&◌, ℤ, pos, neg, ◌+ℤ◌, ◌-ℤ◌, eqb_ℤ, some, pos_part,
  neg_part, arith, if◌then◌else◌, int_laws, Bool-cases, inl, inr,
}
use distribuitor_app.Prelude.Results.{ok}
use distribuitor_app.Decimal.{Decimal}
use distribuitor_app.Decimal.Laws.{is_zero_amount, to_fixed_amount}
use distribuitor_app.Money.{Amount, money}
use distribuitor_app.Statuses.Stock.{ReservationStatus, consumed, can_transition_reservation}
use distribuitor_app.Inventory.Tables.{BalanceKey, Reservation, Db, same_key}
use distribuitor_app.Inventory.Tables.Rows.{same_option_iff}
use distribuitor_app.Inventory.Tables.Steps.{
  Ensures, Ensures-ok, continue-Ensures, throw_if-Ensures,
}
use distribuitor_app.Inventory.Ledger.{hold_key}
use distribuitor_app.Inventory.Ledger.Invariant.{move-IsSound}
use distribuitor_app.Inventory.Ledger.Holds.{adjust_reserved-IsSound}
use distribuitor_app.Inventory.Ledger.Effects.{adjust_reserved-IsAdjusted, move-IsMoved}
use distribuitor_app.Inventory.Reservations.{
  is_active, key_of, find_reservation, close_loaded, consume_loaded, consume_movement, draw_from,
  Draw, drawn, covers, load, close, consume, consume_quantity,
}
use distribuitor_app.Inventory.Reservations.Rows.{share, find_reservation-found, found_passes}
use distribuitor_app.Inventory.Reservations.Steps.{
  close_loaded-Ensures, consume_loaded-Ensures, draw_from-Ensures, load_found, issue_of,
  consume_quantity_found,
}
use distribuitor_app.Inventory.Reservations.Invariant.{
  IsConsistent, audit-IsConsistent, adjusted-IsHeld, moved-IsHeld, update-IsConsistent,
}

and_left : (a b : Bool) → a && b ≡ true → a ≡ true
and_left a b e = ground arith

leaves_active :
    (s t : ReservationStatus)
    → can_transition_reservation s t ≡ true
    → (is_active s ≡ true) × (is_active t ≡ false)
unfolding can_transition_reservation
leaves_active s t e = ground arith

-- A row that leaves ACTIVE gives up its share.
closed_share :
    (j : BalanceKey) (r row : Reservation)
    → is_active r.status ≡ true
    → is_active row.status ≡ false
    → share j row ≡ share j r +ℤ (if same_key (key_of r) j then neg r.quantity else pos 0)
closed_share j r row a b = elim (Bool-cases (same_key (key_of r) j)) [
  | inl same ↦ rw (a, b, same) (omega int_laws)
  | inr other ↦ rw (a, b, other) (omega int_laws)
]

spent_lem : (a b : ℤ) → eqb_ℤ (a -ℤ b) (pos 0) ≡ true → pos 0 ≡ a +ℤ neg b
spent_lem a b e = let parts : pos_part (a -ℤ b) ≡ neg_part (a -ℤ b) = ground arith in omega int_laws

module _ ⦃dec : Decimal⦄ where
  close_loaded-IsConsistent :
      (now id : ℕ) (to : ReservationStatus) (r : Reservation) (db : Db)
      → IsConsistent db
      → find_reservation id db.reservations ≡ some r
      → can_transition_reservation r.status to ≡ true
      → Ensures (λ _ new. IsConsistent new) (close_loaded now id to r db)
  close_loaded-IsConsistent now id to r db consistent found leaves =
      let (a, b) = leaves_active r.status to leaves in
      close_loaded-Ensures (λ _ new. IsConsistent new) now id db r to
        λ held mid e.
          let kept =
            update-IsConsistent (key_of r) (neg r.quantity) db mid id
              (λ row. record row { status = to; released_at = some now }) r consistent
              (adjusted-IsHeld
                (adjust_reserved-IsAdjusted r.warehouse r.product r.variant _ db mid held e))
              (adjust_reserved-IsSound r.warehouse r.product r.variant _ db mid held
                consistent.sound e)
              found (λ row. refl)
              (λ j. closed_share j r (record r { status = to; released_at = some now }) a b) in
          audit-IsConsistent _ id _ kept

  consume_loaded-IsConsistent :
      (now id actor : ℕ) (r : Reservation) (db : Db)
      → IsConsistent db
      → find_reservation id db.reservations ≡ some r
      → can_transition_reservation r.status consumed ≡ true
      → Ensures (λ _ new. IsConsistent new) (consume_loaded now id actor r db)
  consume_loaded-IsConsistent now id actor r db consistent found leaves =
      let (a, b) = leaves_active r.status consumed leaves in
      let input = consume_movement actor r in
      consume_loaded-Ensures (λ _ new. IsConsistent new) now id db r actor
        λ held mid moved last e f.
          let sound =
            adjust_reserved-IsSound r.warehouse r.product r.variant _ db mid held consistent.sound
              e in
          let given =
            adjusted-IsHeld
              (adjust_reserved-IsAdjusted r.warehouse r.product r.variant _ db mid held e) in
          let kept =
            update-IsConsistent (key_of r) (neg r.quantity) db last id
              (λ row. record row { status = consumed; consumed_at = some now }) r consistent
              (moved-IsHeld given (move-IsMoved now input mid last moved f))
              (move-IsSound now input mid last moved sound f) found (λ row. refl)
              (λ j.
                closed_share j r (record r { status = consumed; consumed_at = some now }) a b) in
          audit-IsConsistent _ id _ kept

  -- What a draw leaves of a row gives up the share that it takes.
  share-drawn :
      (now : ℕ) (wanted : Amount) (j : BalanceKey) (r : Reservation)
      → is_active r.status ≡ true
      → share j (drawn now (money (r.quantity -ℤ wanted)) r)
        ≡ share j r +ℤ (if same_key (key_of r) j then neg wanted else pos 0)
  share-drawn now wanted j r a = elim (Bool-cases (eqb_ℤ (r.quantity -ℤ wanted) (pos 0))) [
    | inl none_left ↦
        let spent = spent_lem r.quantity wanted none_left in
        elim (Bool-cases (same_key (key_of r) j)) [
          | inl same ↦ simp (is_zero_amount, none_left, a, same) spent
          | inr other ↦ simp (is_zero_amount, none_left, a, other) (omega int_laws)
        ]
    | inr some_left ↦ elim (Bool-cases (same_key (key_of r) j)) [
      | inl same ↦ simp (is_zero_amount, to_fixed_amount, some_left, a, same) (omega int_laws)
      | inr other ↦ simp (is_zero_amount, to_fixed_amount, some_left, a, other) (omega int_laws)
    ]
  ]

  covered_key :
      (input : Draw) (r : Reservation)
      → covers input r ≡ true
      → (key_of r ≡ hold_key input.warehouse input.product input.variant)
        × (is_active r.status ≡ true)
  covered_key input r e =
      let w : r.warehouse ≡ input.warehouse = ground arith in
      let p : r.product ≡ input.product = ground arith in
      let v : r.variant ≡ input.variant =
        (same_option_iff r.variant input.variant).0 (ground arith) in
      (cc, ground arith)

  drawn_id :
      (now : ℕ) (left : Amount) (row : Reservation) → (drawn now (money left) row).id ≡ row.id
  drawn_id now left row = ground arith

  draw_from-IsConsistent :
      (now : ℕ) (input : Draw) (r : Reservation) (db : Db)
      → IsConsistent db
      → find_reservation r.id db.reservations ≡ some r
      → covers input r ≡ true
      → Ensures (λ _ new. IsConsistent new) (draw_from now input r db)
  draw_from-IsConsistent now input r db consistent found covered =
      let (key, a) = covered_key input r covered in
      let k = hold_key input.warehouse input.product input.variant in
      draw_from-Ensures (λ _ new. IsConsistent new) now input db r
        λ held mid moved last low e f.
          let sound =
            adjust_reserved-IsSound input.warehouse input.product input.variant _ db mid held
              consistent.sound e in
          let given = adjusted-IsHeld (
            adjust_reserved-IsAdjusted input.warehouse input.product input.variant _ db mid held
              e) in
          update-IsConsistent k (neg input.quantity) db last r.id
            (drawn now (money (r.quantity -ℤ input.quantity))) r consistent
            (moved-IsHeld given (move-IsMoved now (issue_of input) mid last moved f))
            (move-IsSound now (issue_of input) mid last moved sound f) found (drawn_id now _)
            (subst
              (λ x.
                (j : BalanceKey)
                → share j (drawn now (money (r.quantity -ℤ input.quantity)) r)
                  ≡ share j r +ℤ (if same_key x j then neg input.quantity else pos 0))
              key (λ j. share-drawn now input.quantity j r a))

  module _ (visible : ℕ → Bool) where
    -- On consistent tables, a close that succeeds, a release or an expiry, leaves consistent tables.
    pub close-IsConsistent :
        (now id : ℕ) (to : ReservationStatus) (db new : Db)
        → IsConsistent db
        → close visible now id to db ≡ ok (tt, new)
        → IsConsistent new
    unfolding close
    close-IsConsistent now id to db new consistent e =
        Ensures-ok (λ _ new. IsConsistent new) (close visible now id to db)
          (continue-Ensures (λ _ new. IsConsistent new) (load visible id db) _
            λ r mid l.
              let (same, found, seen) = load_found visible db id r mid l in
              rw same (
                throw_if-Ensures (λ _ new. IsConsistent new)
                  (not (can_transition_reservation r.status to)) _ _ db
                  λ ok_step.
                    close_loaded-IsConsistent now id to r db consistent found (ground arith)))
          e

    -- On consistent tables (the ledger adds up to the stock at hand, no row reserves more than it
    -- holds, each reserved figure is the sum of the active reservations of its key, the ids of the
    -- reservations are distinct and used up), a consume that succeeds leaves consistent tables.
    pub consume-IsConsistent :
        (now id actor : ℕ) (db new : Db)
        → IsConsistent db
        → consume visible now id actor db ≡ ok (tt, new)
        → IsConsistent new
    unfolding consume
    consume-IsConsistent now id actor db new consistent e =
        Ensures-ok (λ _ new. IsConsistent new) (consume visible now id actor db)
          (continue-Ensures (λ _ new. IsConsistent new) (load visible id db) _
            λ r mid l.
              let (same, found, seen) = load_found visible db id r mid l in
              rw same (
                throw_if-Ensures (λ _ new. IsConsistent new)
                  (not (can_transition_reservation r.status consumed)) _ _ db
                  λ ok_step.
                    consume_loaded-IsConsistent now id actor r db consistent found (ground arith)))
          e

    -- On consistent tables, a draw of part or all of a reservation that succeeds leaves consistent
    -- tables.
    pub consume_quantity-IsConsistent :
        (now : ℕ) (input : Draw) (remaining : Amount) (db new : Db)
        → IsConsistent db
        → consume_quantity visible now input db ≡ ok (remaining, new)
        → IsConsistent new
    consume_quantity-IsConsistent now input remaining db new consistent e =
        let (r, there, drawing) = consume_quantity_found visible db now input remaining new e in
        let p = λ (c : Reservation). covers input c && visible c.warehouse in
        let found = find_reservation-found p db.reservations r consistent.distinct there in
        let passes : covers input r && visible r.warehouse ≡ true =
          found_passes p db.reservations r there in
        Ensures-ok (λ _ new. IsConsistent new) (draw_from now input r db)
          (draw_from-IsConsistent now input r db consistent found
            (and_left (covers input r) _ passes))
          drawing
