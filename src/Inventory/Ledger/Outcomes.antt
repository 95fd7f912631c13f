-- ===== src/Inventory/Ledger/Outcomes.antt =====
-- When `move` succeeds, and how it refuses to oversell.
use distribuitor_app.Prelude.{
  ℕ, ◌≡◌, ◌≢◌, ◌∙◌, Option, ◌⊎◌, refl, sym, subst, Bool, ◌&&◌, not, some, none, true, false, ℤ, pos,
  neg, ◌+ℤ◌, ◌≤ℤ◌, ◌<ℤ◌, eqb_ℤ, ltb_ℤ, ◌∷◌, arith, if◌then◌else◌, Option-cases, inl, inr,
}
use distribuitor_app.Prelude.Results.{ok, err, insufficient_stock, conflict}
use distribuitor_app.Decimal.{Decimal}
use distribuitor_app.Decimal.Laws.{
  plus_amounts, less_than_zero, less_than_amounts, is_zero_amount, negated_amount, to_fixed_amount,
  greater_than_zero, greater_than_amounts,
}
use distribuitor_app.Money.{Amount, money, to_string}
use distribuitor_app.Statuses.Stock.{
  MovementType, opening, receipt, issue, transfer_in, transfer_out, adjustment, scrap, sales_return,
  sign_for_movement,
}
use distribuitor_app.Inventory.Costing.{ledger_unit_cost}
use distribuitor_app.Inventory.Costing.Bounds.{next_average_cost_total}
use distribuitor_app.Inventory.Tables.{BalanceKey, Balance, Db, find_balance}
use distribuitor_app.Inventory.Tables.Rows.{
  on_hand_of, reserved_of, average_of, average_of-update, same_key_refl,
}
use distribuitor_app.Inventory.Ledger.{
  Movement, Moved, move, adjust_reserved, hold_key, lock_balance, signed_quantity, known,
  new_balance, post_movement, refuses_entry, needs_reason, has_sign, is_some,
}
use distribuitor_app.Inventory.Ledger.Holds.{held_db}
use distribuitor_app.Inventory.Ledger.Locks.{lock-IsLocked}
use distribuitor_app.Inventory.Ledger.Effects.{
  row_reserved, row_on_hand, row_average, recorded_cost,
}
use distribuitor_app.Inventory.Ledger.Moves.{signed_amount, with_sign, IsTaken, entry_of, moved_db}

-- The warehouse and the product of a key exist.
abbrev pub IsKnown : BalanceKey → Db → Type 0
IsKnown k db = (known k.warehouse db.warehouses ≡ true) × (known k.product db.products ≡ true)

lock_total :
    (k : BalanceKey) (db : Db)
    → IsKnown k db
    → (b : Balance) × (locked : Db) × (lock_balance k db ≡ ok (b, locked)) × IsKnown k locked
unfolding lock_balance
lock_total k db (w, p) = elim (Option-cases (find_balance k db.balances)) [
  | inl e ↦ (
    new_balance k,
    record db { balances = new_balance k ∷ db.balances },
    ground (arith, same_key_refl k),
    (w, p),
  )
  | inr (b, e) ↦ (b, db, ground arith, (w, p))
]

-- A movement that needs a reason has one.
abbrev pub IsReasoned : Movement → Type 0
IsReasoned input = (needs_reason input.movement_type ≡ false) ⊎ (is_some input.reason ≡ true)

-- The cost that the ledger records is not negative, and neither is the average.
abbrev pub IsCosted : Movement → Amount → Type 0
IsCosted input average =
    (pos 0 ≤ℤ average)
    × ((input.unit_cost ≡ none) ⊎ (cost : Amount) × (input.unit_cost ≡ some cost) × (pos 0 ≤ℤ cost))

signed-has_sign :
    (type : MovementType) (quantity : Amount)
    → IsTaken type quantity
    → signed_amount type quantity ≢ pos 0
    → has_sign type (signed_amount type quantity) ≡ true
unfolding sign_for_movement neg
signed-has_sign opening quantity taken nonzero = ground arith
signed-has_sign receipt quantity taken nonzero = ground arith
signed-has_sign issue quantity taken nonzero = ground arith
signed-has_sign transfer_in quantity taken nonzero = ground arith
signed-has_sign transfer_out quantity taken nonzero = ground arith
signed-has_sign adjustment quantity taken nonzero = refl
signed-has_sign sales_return quantity taken nonzero = ground arith
signed-has_sign scrap quantity taken nonzero = ground arith

module _ ⦃dec : Decimal⦄ where
  cost_accepted :
      (inbound : Bool) (input : Movement) (average : Amount)
      → IsCosted input average
      → ltb_ℤ (to_string (ledger_unit_cost inbound (money average) input.unit_cost)) (pos 0) ≡ false
  cost_accepted inbound input average (fine, inr (cost, stated, least)) =
      rw (recorded_cost inbound average input.unit_cost, stated) (ground arith)
  cost_accepted inbound input average (fine, inl stated) =
      rw (recorded_cost inbound average input.unit_cost, stated) (ground arith)

  entry_accepted :
      (now : ℕ) (input : Movement) (b : Balance)
      → IsTaken input.movement_type input.quantity
      → signed_amount input.movement_type input.quantity ≢ pos 0
      → IsReasoned input
      → IsCosted input b.average_cost
      → refuses_entry (entry_of now input (signed_amount input.movement_type input.quantity) b)
        ≡ false
  unfolding refuses_entry
  entry_accepted now input b taken nonzero reasoned costed =
      let s = signed_amount input.movement_type input.quantity in
      let some_quantity : eqb_ℤ s (pos 0) ≡ false = ground arith in
      let given : needs_reason input.movement_type && not (is_some input.reason) ≡ false =
        ground arith in
      rw
        (
          some_quantity,
          cost_accepted (ltb_ℤ (pos 0) s) input b.average_cost costed,
          signed-has_sign input.movement_type input.quantity taken nonzero,
          given,
        )
        refl

  signed_quantity_taken :
      (type : MovementType) (quantity : Amount)
      → IsTaken type quantity
      → signed_quantity type quantity ≡ ok (money (signed_amount type quantity))
  unfolding signed_quantity
  signed_quantity_taken type quantity taken =
      simp (less_than_zero, negated_amount) (go (sign_for_movement type) taken)
    where
      go :
          (sign : ℤ)
          → (sign ≡ pos 0) ⊎ (pos 0 ≤ℤ quantity)
          → (if eqb_ℤ sign (pos 0)
              then ok (money quantity)
              else if ltb_ℤ quantity (pos 0)
              then err conflict
              else if eqb_ℤ sign (pos 1)
              then ok (money quantity)
              else ok (money (neg quantity)))
            ≡ ok (money (with_sign sign quantity))
      go sign h = ground arith

  module _ (now : ℕ) (input : Movement) (db : Db) (b : Balance) (locked : Db) where
    move_locked :
        let s = signed_amount input.movement_type input.quantity in
        IsTaken input.movement_type input.quantity
        → lock_balance input.key db ≡ ok (b, locked)
        → eqb_ℤ s (pos 0) ≡ false
        → ltb_ℤ (b.on_hand +ℤ s) (pos 0) ≡ false
        → ltb_ℤ (b.on_hand +ℤ s) b.reserved ≡ false
        → move now input db ≡ post_movement now input (money s) b locked
    unfolding move
    move_locked taken el nz nn nl =
        rw (signed_quantity_taken input.movement_type input.quantity taken)
          (simp (el, is_zero_amount, plus_amounts, less_than_zero, less_than_amounts, nz, nn, nl))

    post_total :
        (s : Amount)
        → refuses_entry (entry_of now input s b) ≡ false
        → (r : Moved) × (new : Db) × (post_movement now input (money s) b locked ≡ ok (r, new))
    unfolding post_movement
    post_total s fine =
        let average = next_average_cost_total b.on_hand b.average_cost s input.unit_cost in
        (
          record { on_hand = b.on_hand +ℤ s; average_cost = to_string average.0 },
          moved_db now input s b (to_string average.0) locked,
          simp (average.1, plus_amounts, to_fixed_amount, greater_than_zero, fine),
        )

  module _ (now : ℕ) (input : Movement) (db : Db) where
    -- A movement succeeds when its warehouse and product exist, its type takes its quantity, that is
    -- not zero, what it leaves at hand is not negative and no less than what is reserved, it has a
    -- reason if it is an ADJUSTMENT or a SCRAP, and neither its stated cost nor the average before it is
    -- negative.
    pub move_succeeds :
        let s = signed_amount input.movement_type input.quantity in
        let left = on_hand_of input.key db.balances +ℤ s in
        IsKnown input.key db
        → IsTaken input.movement_type input.quantity
        → s ≢ pos 0
        → pos 0 ≤ℤ left
        → reserved_of input.key db.balances ≤ℤ left
        → IsReasoned input
        → IsCosted input (average_of input.key db.balances)
        → (r : Moved) × (new : Db) × (move now input db ≡ ok (r, new))
    move_succeeds there taken nonzero low high reasoned costed =
        let s = signed_amount input.movement_type input.quantity in
        let (b, locked, el, _) = lock_total input.key db there in
        let lock = lock-IsLocked input.key db b locked el in
        let low_row : pos 0 ≤ℤ b.on_hand +ℤ s = rw (row_on_hand lock) low in
        let high_row : b.reserved ≤ℤ b.on_hand +ℤ s =
          rw (row_on_hand lock, row_reserved lock) high in
        rw (move_locked now input db b locked taken el (ground arith) (ground arith) (ground arith))
          (post_total now input db b locked s (
            entry_accepted now input b taken nonzero reasoned
              (subst (IsCosted input) (sym (row_average lock)) costed)))

    -- A movement of known stock that would take more than is at hand is refused as insufficient stock.
    pub move_oversell_refused :
        let s = signed_amount input.movement_type input.quantity in
        IsKnown input.key db
        → IsTaken input.movement_type input.quantity
        → s ≢ pos 0
        → on_hand_of input.key db.balances +ℤ s <ℤ pos 0
        → move now input db ≡ err insufficient_stock
    unfolding move
    move_oversell_refused there taken nonzero short =
        let s = signed_amount input.movement_type input.quantity in
        let (b, locked, el, _) = lock_total input.key db there in
        let lock = lock-IsLocked input.key db b locked el in
        let short_row : b.on_hand +ℤ s <ℤ pos 0 = rw (row_on_hand lock) short in
        let nz : eqb_ℤ s (pos 0) ≡ false = ground arith in
        let neg_row : ltb_ℤ (b.on_hand +ℤ s) (pos 0) ≡ true = ground arith in
        rw (signed_quantity_taken input.movement_type input.quantity taken)
          (simp (el, is_zero_amount, plus_amounts, less_than_zero, nz, neg_row))

    -- A change of the reserved figure of known stock succeeds within what is at hand; the average stays.
    pub adjust_reserved_succeeds :
        (w p : ℕ) (v : Option ℕ) (delta : Amount)
        → let k = hold_key w p v in
          IsKnown k db
          → pos 0 ≤ℤ reserved_of k db.balances +ℤ delta
          → reserved_of k db.balances +ℤ delta ≤ℤ on_hand_of k db.balances
          → (r : Amount) × (new : Db) × (adjust_reserved w p v delta db ≡ ok (r, new))
            × IsKnown k new
            × (average_of k new.balances ≡ average_of k db.balances)
    unfolding adjust_reserved
    adjust_reserved_succeeds w p v delta there low high =
        let k = hold_key w p v in
        let (b, locked, el, known_after) = lock_total k db there in
        let lock = lock-IsLocked k db b locked el in
        let low_row : ltb_ℤ (b.reserved +ℤ delta) (pos 0) ≡ false =
          rw (row_reserved lock) (ground arith) in
        let high_row : ltb_ℤ b.on_hand (b.reserved +ℤ delta) ≡ false =
          rw (row_reserved lock, row_on_hand lock) (ground arith) in
        (
          b.reserved +ℤ delta,
          held_db k (b.reserved +ℤ delta) locked,
          simp (
            el, plus_amounts, less_than_zero, greater_than_amounts, low_row, high_row,
            to_fixed_amount,
          ),
          known_after,
          average_of-update k _ (λ _. refl) k locked.balances b lock.found
              ∙ rw (same_key_refl k) (row_average lock),
        )
