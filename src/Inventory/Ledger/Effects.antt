-- ===== src/Inventory/Ledger/Effects.antt =====
-- What successful calls of `adjustReserved` and `move` change, key by key.
use distribuitor_app.Prelude.{
  ℕ, ◌≡◌, ◌≢◌, refl, sym, ap, ◌∙◌, ℤ, pos, ◌+ℤ◌, ◌≤ℤ◌, ltb_ℤ, Bool, true, false, Option, none, some,
  ◌∷◌, if◌then◌else◌, Bool-cases, inl, inr,
}
use distribuitor_app.Prelude.Results.{ok}
use distribuitor_app.Decimal.{Decimal}
use distribuitor_app.Decimal.Laws.{to_fixed_amount}
use distribuitor_app.Money.{Amount, Money, money, to_string}
use distribuitor_app.Inventory.Costing.{next_average_cost, ledger_unit_cost}
use distribuitor_app.Inventory.Costing.Bounds.{cost_input, or_else}
use distribuitor_app.Inventory.Tables.{BalanceKey, Balance, StockEntry, Db, same_key}
use distribuitor_app.Inventory.Tables.Rows.{
  on_hand_of, reserved_of, average_of, reserved_in, average_in, on_hand_of-update,
  reserved_of-update, average_of-update, same_key_eq,
}
use distribuitor_app.Inventory.Tables.Steps.{Ensures-ok}
use distribuitor_app.Inventory.Ledger.{Movement, Moved, move, hold_key, adjust_reserved, or_now}
use distribuitor_app.Inventory.Ledger.Locks.{IsLocked, lock-IsLocked}
use distribuitor_app.Inventory.Ledger.Moves.{
  move-Ensures, moved_db, entry_of, signed_amount, IsTaken,
}
use distribuitor_app.Inventory.Ledger.Holds.{adjust_reserved-Ensures, held_db}
use distribuitor_app.Inventory.Ledger.Invariant.{locked_row}

pub record IsAdjusted (k : BalanceKey) (delta : Amount) (db : Db) (r : Amount) (new : Db)
    : Type 0 where
  pub result : r ≡ reserved_of k db.balances +ℤ delta
  pub not_negative : pos 0 ≤ℤ reserved_of k db.balances +ℤ delta
  pub at_hand : reserved_of k db.balances +ℤ delta ≤ℤ on_hand_of k db.balances
  pub reserved_changed :
      (j : BalanceKey)
      → reserved_of j new.balances
        ≡ (if same_key k j then reserved_of k db.balances +ℤ delta else reserved_of j db.balances)
  pub on_hand_kept : (j : BalanceKey) → on_hand_of j new.balances ≡ on_hand_of j db.balances
  pub entries_kept : new.entries ≡ db.entries
  pub reservations_kept : new.reservations ≡ db.reservations
  pub next_id_kept : new.next_id ≡ db.next_id

-- The ledger row of a movement, given the average cost before it: stock that comes in at a stated cost
-- is recorded at that cost, any other at the average.
pub record IsEntryOf (now : ℕ) (input : Movement) (average : Amount) (e : StockEntry) : Type 0 where
  pub key_is : e.key ≡ input.key
  pub type_is : e.movement_type ≡ input.movement_type
  pub quantity_is : e.quantity ≡ signed_amount input.movement_type input.quantity
  pub cost_is : e.unit_cost ≡ (
      if ltb_ℤ (pos 0) (signed_amount input.movement_type input.quantity)
      then or_else input.unit_cost average
      else average)
  pub reference_is : (e.ref_type ≡ input.ref_type) × (e.ref_id ≡ input.ref_id)
  pub reason_is : e.reason ≡ input.reason
  pub dated : e.occurred_at ≡ or_now input.occurred_at now
  pub creator_is : e.created_by ≡ input.actor

pub record IsMoved ⦃dec : Decimal⦄ (now : ℕ) (input : Movement) (db : Db) (r : Moved) (new : Db)
    : Type 0 where
  pub taken : IsTaken input.movement_type input.quantity
  pub not_zero : signed_amount input.movement_type input.quantity ≢ pos 0
  pub result :
      r.on_hand
      ≡ on_hand_of input.key db.balances +ℤ signed_amount input.movement_type input.quantity
  pub not_negative : pos 0 ≤ℤ r.on_hand
  pub reserved_at_hand : reserved_of input.key db.balances ≤ℤ r.on_hand
  pub on_hand_changed :
      (j : BalanceKey)
      → on_hand_of j new.balances
        ≡ (if same_key input.key j then r.on_hand else on_hand_of j db.balances)
  pub reserved_kept : (j : BalanceKey) → reserved_of j new.balances ≡ reserved_of j db.balances
  pub average_costed :
      (average : Money) × (next_average_cost (
          cost_input
            (on_hand_of input.key db.balances)
            (average_of input.key db.balances)
            (signed_amount input.movement_type input.quantity)
            input.unit_cost)
        ≡ ok average)
      × (r.average_cost ≡ to_string average)
  pub average_changed :
      (j : BalanceKey)
      → average_of j new.balances
        ≡ (if same_key input.key j then r.average_cost else average_of j db.balances)
  pub entry_appended :
      (e : StockEntry) × (new.entries ≡ e ∷ db.entries)
      × IsEntryOf now input (average_of input.key db.balances) e
  pub reservations_kept : new.reservations ≡ db.reservations
  pub next_id_kept : new.next_id ≡ db.next_id

pub row_reserved :
    {k : BalanceKey} {db : Db} {b : Balance} {locked : Db}
    → IsLocked k db b locked
    → b.reserved ≡ reserved_of k db.balances
row_reserved {k} lock = sym (ap reserved_in lock.found) ∙ lock.reserved_kept k

pub row_average :
    {k : BalanceKey} {db : Db} {b : Balance} {locked : Db}
    → IsLocked k db b locked
    → b.average_cost ≡ average_of k db.balances
row_average {k} lock = sym (ap average_in lock.found) ∙ lock.average_kept k

pub row_on_hand :
    {k : BalanceKey} {db : Db} {b : Balance} {locked : Db}
    → IsLocked k db b locked
    → b.on_hand ≡ on_hand_of k db.balances
row_on_hand {k} lock = sym (locked_row lock) ∙ lock.on_hand_kept k

held-IsAdjusted :
    (k : BalanceKey) (delta : Amount) (db : Db) (b : Balance) (locked : Db)
    → IsLocked k db b locked
    → pos 0 ≤ℤ b.reserved +ℤ delta
    → b.reserved +ℤ delta ≤ℤ b.on_hand
    → IsAdjusted k delta db (b.reserved +ℤ delta) (held_db k (b.reserved +ℤ delta) locked)
held-IsAdjusted k delta db b locked lock low high =
    let was = row_reserved lock in
    let had = row_on_hand lock in
    record {
      result = rw was;
      not_negative = rw was at low;
      at_hand = rw (was, had) at high;
      reserved_changed = λ j.
          reserved_of-update k _ (λ _. refl) j locked.balances b lock.found
          ∙ rw (was, lock.reserved_kept j);
      on_hand_kept = λ j.
          on_hand_of-update k _ (λ _. refl) j locked.balances b lock.found
          ∙ elim (Bool-cases (same_key k j)) [
            | inl same ↦ rw (same, had, same_key_eq k j same)
            | inr other ↦ rw other (lock.on_hand_kept j)
          ];
      entries_kept = lock.entries_kept;
      reservations_kept = lock.reservations_kept;
      next_id_kept = lock.next_id_kept;
    }

module _ ⦃dec : Decimal⦄ where
  -- A successful `adjustReserved` adds the change to the reserved figure of its key, within what is at
  -- hand, and leaves every other figure, the ledger and the reservations alone.
  pub adjust_reserved-IsAdjusted :
      (w p : ℕ) (v : Option ℕ) (delta : Amount) (db new : Db) (r : Amount)
      → adjust_reserved w p v delta db ≡ ok (r, new)
      → IsAdjusted (hold_key w p v) delta db r new
  adjust_reserved-IsAdjusted w p v delta db new r e =
      let k = hold_key w p v in
      Ensures-ok (IsAdjusted k delta db) (adjust_reserved w p v delta db)
        (adjust_reserved-Ensures w p v db (IsAdjusted k delta db) delta
          λ b locked el. held-IsAdjusted k delta db b locked (lock-IsLocked k db b locked el))
        e

  pub recorded_cost :
      (inbound : Bool) (average : Amount) (cost : Option Amount)
      → to_string (ledger_unit_cost inbound (money average) cost)
        ≡ (if inbound then or_else cost average else average)
  unfolding ledger_unit_cost
  recorded_cost true average none = to_fixed_amount average
  recorded_cost true average (some c) = to_fixed_amount c
  recorded_cost false average none = to_fixed_amount average
  recorded_cost false average (some c) = to_fixed_amount average

  entry_of-IsEntryOf :
      (now : ℕ) (input : Movement) (db : Db) (b : Balance) (locked : Db)
      → IsLocked input.key db b locked
      → IsEntryOf now input
          (average_of input.key db.balances)
          (entry_of now input (signed_amount input.movement_type input.quantity) b)
  entry_of-IsEntryOf now input db b locked lock = record {
    key_is = refl;
    type_is = refl;
    quantity_is = refl;
    cost_is =
        recorded_cost (ltb_ℤ (pos 0) (signed_amount input.movement_type input.quantity))
          b.average_cost input.unit_cost
        ∙ rw (row_average lock);
    reference_is = (refl, refl);
    reason_is = refl;
    dated = refl;
    creator_is = refl;
  }

  moved_db-IsMoved :
      (now : ℕ) (input : Movement) (db : Db) (b : Balance) (locked : Db) (average : Money)
      → let s = signed_amount input.movement_type input.quantity in
        IsTaken input.movement_type input.quantity
        → s ≢ pos 0
        → IsLocked input.key db b locked
        → pos 0 ≤ℤ b.on_hand +ℤ s
        → b.reserved ≤ℤ b.on_hand +ℤ s
        → next_average_cost (cost_input b.on_hand b.average_cost s input.unit_cost) ≡ ok average
        → IsMoved now input db
            (record { on_hand = b.on_hand +ℤ s; average_cost = to_string average })
            (moved_db now input s b (to_string average) locked)
  moved_db-IsMoved now input db b locked average taken nonzero lock low high costed =
      let s = signed_amount input.movement_type input.quantity in
      let k = input.key in
      record {
        taken = taken;
        not_zero = nonzero;
        result = ap (λ (a : ℤ). a +ℤ s) (row_on_hand lock);
        not_negative = low;
        reserved_at_hand = rw (← row_reserved lock) high;
        on_hand_changed = λ j.
            on_hand_of-update k _ (λ _. refl) j locked.balances b lock.found
            ∙ rw (lock.on_hand_kept j);
        reserved_kept = λ j.
            reserved_of-update k _ (λ _. refl) j locked.balances b lock.found
            ∙ elim (Bool-cases (same_key k j)) [
              | inl same ↦ rw (same, row_reserved lock, same_key_eq k j same)
              | inr other ↦ rw other (lock.reserved_kept j)
            ];
        average_costed = (average, rw (row_on_hand lock, row_average lock) at costed, refl);
        average_changed = λ j.
            average_of-update k _ (λ _. refl) j locked.balances b lock.found
            ∙ rw (lock.average_kept j);
        entry_appended = (
          entry_of now input s b,
          rw lock.entries_kept,
          entry_of-IsEntryOf now input db b locked lock,
        );
        reservations_kept = lock.reservations_kept;
        next_id_kept = lock.next_id_kept;
      }

  -- A successful movement adds its signed quantity to the stock at hand of its key, which stays at or
  -- above zero and what is reserved, sets the average cost of the key to the moving average, and appends
  -- one row to the ledger, with that quantity, at the stated cost when stock comes in at one and at the
  -- average before the movement otherwise. The figures of other keys, every reserved figure and the
  -- reservations stay.
  pub move-IsMoved :
      (now : ℕ) (input : Movement) (db new : Db) (r : Moved)
      → move now input db ≡ ok (r, new)
      → IsMoved now input db r new
  move-IsMoved now input db new r e =
      Ensures-ok (IsMoved now input db) (move now input db)
        (move-Ensures (IsMoved now input db) now input db λ b locked average taken nonzero el.
          moved_db-IsMoved now input db b locked average taken nonzero
            (lock-IsLocked input.key db b locked el))
        e
