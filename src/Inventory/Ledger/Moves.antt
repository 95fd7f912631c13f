-- ===== src/Inventory/Ledger/Moves.antt =====
-- What a successful `move` has done.
use distribuitor_app.Prelude.{
  ℕ, ◌≡◌, ◌≢◌, ◌⊎◌, false, ℤ, pos, ◌+ℤ◌, ◌≤ℤ◌, some, ◌∷◌, arith, if◌then◌else◌, neg, ltb_ℤ, eqb_ℤ,
}
use distribuitor_app.Prelude.Results.{ok, err, conflict, database}
use distribuitor_app.Decimal.{Decimal}
use distribuitor_app.Decimal.Laws.{
  to_fixed_amount, greater_than_zero, less_than_zero, negated_amount, is_zero_amount, plus_amounts,
  less_than_amounts,
}
use distribuitor_app.Money.{Amount, Money, money, add, lt, is_zero, is_negative, to_string}
use distribuitor_app.Statuses.Stock.{MovementType, sign_for_movement}
use distribuitor_app.Inventory.Costing.{next_average_cost, ledger_unit_cost}
use distribuitor_app.Inventory.Costing.Bounds.{cost_input}
use distribuitor_app.Inventory.Tables.{Balance, StockEntry, Db, update_balance}
use distribuitor_app.Inventory.Tables.Steps.{
  Ensures, continue-Ensures, throw_if-Ensures, lift-Ensures,
}
use distribuitor_app.Inventory.Ledger.{
  Movement, Moved, lock_balance, signed_quantity, move, post_movement, or_now, refuses_entry,
}

-- The quantity that a movement carries into the ledger: an ISSUE, a TRANSFER_OUT and a SCRAP count
-- down, an ADJUSTMENT as it is given, and the rest up.
abbrev pub with_sign : ℤ → Amount → Amount
with_sign sign quantity =
    if eqb_ℤ sign (pos 0) then quantity else if eqb_ℤ sign (pos 1) then quantity else neg quantity

abbrev pub signed_amount : MovementType → Amount → Amount
signed_amount type quantity = with_sign (sign_for_movement type) quantity

-- A quantity that the type of the movement takes.
abbrev pub IsTaken : MovementType → Amount → Type 0
IsTaken type quantity = (sign_for_movement type ≡ pos 0) ⊎ (pos 0 ≤ℤ quantity)

module _ ⦃dec : Decimal⦄ where
  signed_quantity_ok :
      (type : MovementType) (quantity : Amount) (signed : Money)
      → signed_quantity type quantity ≡ ok signed
      → (signed ≡ money (signed_amount type quantity)) × IsTaken type quantity
  unfolding signed_quantity
  signed_quantity_ok type quantity signed h =
      let g = simp (less_than_zero, negated_amount) at h in go (sign_for_movement type) g
    where
      go :
          (sign : ℤ)
          → (if eqb_ℤ sign (pos 0)
              then ok (money quantity)
              else if ltb_ℤ quantity (pos 0)
              then err conflict
              else if eqb_ℤ sign (pos 1)
              then ok (money quantity)
              else ok (money (neg quantity)))
            ≡ ok signed
          → (signed ≡ money (with_sign sign quantity)) × ((sign ≡ pos 0) ⊎ (pos 0 ≤ℤ quantity))
      go sign e = ground arith

  nonzero : (s : Amount) → is_zero (money s) ≡ false → s ≢ pos 0
  nonzero s h = let g = simp is_zero_amount at h in ground arith

  nonnegative : (a s : Amount) → is_negative (add (money a) (money s)) ≡ false → pos 0 ≤ℤ a +ℤ s
  nonnegative a s h = let g = simp (plus_amounts, less_than_zero) at h in ground arith

  covered : (a s r : Amount) → lt (add (money a) (money s)) (money r) ≡ false → r ≤ℤ a +ℤ s
  covered a s r h = let g = simp (plus_amounts, less_than_amounts) at h in ground arith

  -- The row that a movement appends.
  abbrev pub entry_of : ℕ → Movement → Amount → Balance → StockEntry
  entry_of now input s b = record {
    key = input.key;
    movement_type = input.movement_type;
    quantity = s;
    unit_cost =
        to_string (ledger_unit_cost (ltb_ℤ (pos 0) s) (money b.average_cost) input.unit_cost);
    ref_type = input.ref_type;
    ref_id = input.ref_id;
    reason = input.reason;
    occurred_at = or_now input.occurred_at now;
    created_by = input.actor;
  }

  -- The tables after a movement of `s` from the locked row `b`.
  abbrev pub moved_db : ℕ → Movement → Amount → Balance → Amount → Db → Db
  moved_db now input s b average db = record db {
    entries = entry_of now input s b ∷ db.entries;
    balances =
        update_balance input.key
          (λ row. record row {
            on_hand = b.on_hand +ℤ s;
            average_cost = average;
            last_movement_at = some (or_now input.occurred_at now);
          })
          db.balances;
  }

  module _ {κ} (P : Moved → Db → Type κ) (now : ℕ) (input : Movement) (db : Db) where
    post_movement-Ensures :
        (s : Amount) (b : Balance) (locked : Db)
        → ((average : Money)
            → next_average_cost (cost_input b.on_hand b.average_cost s input.unit_cost) ≡ ok average
            → P
                (record { on_hand = b.on_hand +ℤ s; average_cost = to_string average })
                (moved_db now input s b (to_string average) locked))
        → Ensures P (post_movement now input (money s) b locked)
    unfolding post_movement
    post_movement-Ensures s b locked h =
        simp (plus_amounts, to_fixed_amount, greater_than_zero)
          (lift-Ensures P (next_average_cost _) _ locked λ average e.
            throw_if-Ensures P (refuses_entry (entry_of now input s b)) database
              (λ d. ok (
                record { on_hand = b.on_hand +ℤ s; average_cost = to_string average },
                moved_db now input s b (to_string average) d,
              ))
              locked λ _. h average e)

    pub move-Ensures :
        ((b : Balance) (locked : Db) (average : Money)
          → let s = signed_amount input.movement_type input.quantity in
            IsTaken input.movement_type input.quantity
            → s ≢ pos 0
            → lock_balance input.key db ≡ ok (b, locked)
            → pos 0 ≤ℤ b.on_hand +ℤ s
            → b.reserved ≤ℤ b.on_hand +ℤ s
            → next_average_cost (cost_input b.on_hand b.average_cost s input.unit_cost) ≡ ok average
            → P
                (record { on_hand = b.on_hand +ℤ s; average_cost = to_string average })
                (moved_db now input s b (to_string average) locked))
        → Ensures P (move now input db)
    unfolding move
    move-Ensures h =
        lift-Ensures P (signed_quantity input.movement_type input.quantity) _ db λ signed e.
          let (eq, taken) = signed_quantity_ok input.movement_type input.quantity signed e in
          let s = signed_amount input.movement_type input.quantity in
          rw eq (
            throw_if-Ensures P (is_zero (money s)) _ _ db λ nz.
              continue-Ensures P (lock_balance input.key db) _ λ b locked el.
                let after = add (money b.on_hand) (money s) in
                throw_if-Ensures P (is_negative after) _ _ locked λ nn.
                  throw_if-Ensures P (lt after (money b.reserved)) _ _ locked λ nl.
                    post_movement-Ensures s b locked λ average ea.
                      h b locked average taken (nonzero s nz) el (nonnegative b.on_hand s nn)
                        (covered b.on_hand s b.reserved nl) ea)
