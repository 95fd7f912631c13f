-- ===== src/Inventory/Ledger.antt =====
-- apps/api/src/modules/inventory/stock-ledger.service.ts: `StockLedgerService`. A lock serialises
-- transactions, which is how each operation is one function of the tables. The scope of the caller,
-- which the Prisma client adds to the update of a row, is left to the services that call it. Left
-- out are the `CHECK`s on a balance row, which repeat what the code has checked, but for that of an average cost that
-- is not negative: a ledger row with a negative cost is refused before it.
pub mod Locks
pub mod Moves
pub mod Holds
pub mod Invariant
pub mod Effects
pub mod Outcomes
use distribuitor_app.Prelude.{
  ℕ, Bool, true, false, not, ◌&&◌, ◌||◌, ℤ, pos, negsuc, eqb_ℤ, ltb_ℤ, Option, none, some, List, [],
  ◌∷◌, any, ◌==◌, if◌then◌else◌,
}
use distribuitor_app.Prelude.Results.{Result, ok, err, conflict, insufficient_stock, database}
use distribuitor_app.Decimal.{Decimal}
use distribuitor_app.Money.{
  Amount, Money, money, zero_money, add, subtract, negate, is_zero, is_negative, is_positive, lt,
  gt, min, max, to_string,
}
use distribuitor_app.Statuses.Stock.{
  MovementType, opening, receipt, issue, transfer_in, transfer_out, adjustment, scrap, sales_return,
  sign_for_movement,
}
use distribuitor_app.Inventory.Costing.{next_average_cost, ledger_unit_cost}
use distribuitor_app.Inventory.Tables.{
  BalanceKey, Balance, StockEntry, Db, Tx, ◌>>=◌, ◌>>◌, pure, throw_if, lift, modify, find_balance,
  update_balance,
}

pub record Movement : Type 0 where
  pub key : BalanceKey
  pub movement_type : MovementType
  pub quantity : Amount
  pub unit_cost : Option Amount
  pub ref_type : Option ℕ
  pub ref_id : Option ℕ
  pub reason : Option ℕ
  pub occurred_at : Option ℕ
  pub actor : Option ℕ

pub record Moved : Type 0 where
  pub on_hand : Amount
  pub average_cost : Amount

pub record Held : Type 0 where
  pub reserved : Amount
  pub backordered : Amount

abbrev pub is_some {ℓ} : {A : Type ℓ} → Option A → Bool
is_some none = false
is_some (some a) = true

abbrev known : ℕ → List ℕ → Bool
known id ids = any (λ i. i == id) ids

abbrev new_balance : BalanceKey → Balance
new_balance k = record {
  key = k;
  on_hand = pos 0;
  reserved = pos 0;
  average_cost = pos 0;
  last_movement_at = none;
}

-- `SELECT … FROM stock_balance b JOIN warehouse w … FOR UPDATE OF b`.
select_balance : BalanceKey → Db → Option Balance
select_balance k db = if known k.warehouse db.warehouses then find_balance k db.balances else none

-- `INSERT INTO stock_balance … ON CONFLICT DO NOTHING`.
insert_balance : BalanceKey → Tx (Unit {0})
insert_balance k db =
    if is_some (find_balance k db.balances)
    then ok (tt, db)
    else if known k.warehouse db.warehouses && known k.product db.products
    then ok (tt, record db { balances = new_balance k ∷ db.balances })
    else err database

-- The second `SELECT` of `lockBalance`, and its check.
select_or_conflict : BalanceKey → Tx Balance
select_or_conflict k db = elim (select_balance k db) [ some b ↦ ok (b, db) | none ↦ err conflict ]

unfoldable pub lock_balance : BalanceKey → Tx Balance
unfolding select_balance insert_balance select_or_conflict
lock_balance k db = elim (select_balance k db) [
  | some b ↦ ok (b, db)
  | none ↦ (insert_balance k >> select_or_conflict k) db
]

-- The key of a hold: reservations are not kept by batch.
abbrev pub hold_key : ℕ → ℕ → Option ℕ → BalanceKey
hold_key warehouse product variant = record {
  warehouse = warehouse;
  product = product;
  variant = variant;
  batch = none;
}

abbrev set_reserved : BalanceKey → Amount → Tx (Unit {0})
set_reserved k reserved = modify (λ db. record db {
  balances = update_balance k (λ b. record b { reserved = reserved }) db.balances;
})

abbrev pub or_now : Option ℕ → ℕ → ℕ
or_now none now = now
or_now (some at) now = at

-- The `CHECK`s on a ledger row: a quantity that is not zero and has the sign of its type, a cost that is
-- not negative, and a reason for an ADJUSTMENT or a SCRAP.
abbrev pub has_sign : MovementType → Amount → Bool
has_sign opening quantity = ltb_ℤ (pos 0) quantity
has_sign receipt quantity = ltb_ℤ (pos 0) quantity
has_sign issue quantity = ltb_ℤ quantity (pos 0)
has_sign transfer_in quantity = ltb_ℤ (pos 0) quantity
has_sign transfer_out quantity = ltb_ℤ quantity (pos 0)
has_sign adjustment quantity = true
has_sign scrap quantity = ltb_ℤ quantity (pos 0)
has_sign sales_return quantity = ltb_ℤ (pos 0) quantity

abbrev pub needs_reason : MovementType → Bool
needs_reason adjustment = true
needs_reason scrap = true
needs_reason _ = false

unfoldable pub refuses_entry : StockEntry → Bool
refuses_entry e =
    eqb_ℤ e.quantity (pos 0)
    || (ltb_ℤ e.unit_cost (pos 0)
        || (not (has_sign e.movement_type e.quantity)
            || needs_reason e.movement_type && not (is_some e.reason)))

module _ ⦃dec : Decimal⦄ where
  -- ADJUSTMENT carries its own sign; any other type takes a quantity that is not negative.
  unfoldable pub signed_quantity : MovementType → Amount → Result Money
  signed_quantity type quantity =
      let sign = sign_for_movement type in
      let magnitude = money quantity in
      if eqb_ℤ sign (pos 0)
      then ok magnitude
      else if is_negative magnitude
      then err conflict
      else if eqb_ℤ sign (pos 1)
      then ok magnitude
      else ok (negate magnitude)

  -- Steps 3 to 5 of `move`, under the lock and past the checks.
  post_movement : ℕ → Movement → Money → Balance → Tx Moved
  post_movement now input signed balance = do
    let on_hand_before = money balance.on_hand
    let on_hand_after = add on_hand_before signed
    let current_average = money balance.average_cost
    average_cost ← lift (
        next_average_cost (record {
          on_hand_before = on_hand_before;
          current_average = current_average;
          movement_quantity = signed;
          movement_unit_cost = input.unit_cost;
        }))
    let recorded_unit_cost = ledger_unit_cost (is_positive signed) current_average input.unit_cost
    let occurred_at = or_now input.occurred_at now
    let entry : StockEntry = record {
      key = input.key;
      movement_type = input.movement_type;
      quantity = to_string signed;
      unit_cost = to_string recorded_unit_cost;
      ref_type = input.ref_type;
      ref_id = input.ref_id;
      reason = input.reason;
      occurred_at = occurred_at;
      created_by = input.actor;
    }
    throw_if (refuses_entry entry) database
    modify (λ db. record db { entries = entry ∷ db.entries })
    modify (λ db. record db {
      balances =
          update_balance input.key
            (λ b. record b {
              on_hand = to_string on_hand_after;
              average_cost = to_string average_cost;
              last_movement_at = some occurred_at;
            })
            db.balances;
    })
    pure (record { on_hand = to_string on_hand_after; average_cost = to_string average_cost })

  unfoldable pub move : ℕ → Movement → Tx Moved
  unfolding post_movement
  move now input = do
    signed ← lift (signed_quantity input.movement_type input.quantity)
    throw_if (is_zero signed) conflict
    balance ← lock_balance input.key
    let on_hand_after = add (money balance.on_hand) signed
    throw_if (is_negative on_hand_after) insufficient_stock
    throw_if (lt on_hand_after (money balance.reserved)) conflict
    post_movement now input signed balance

  unfoldable pub adjust_reserved : ℕ → ℕ → Option ℕ → Amount → Tx Amount
  adjust_reserved warehouse product variant delta = do
    let k = hold_key warehouse product variant
    balance ← lock_balance k
    let on_hand = money balance.on_hand
    let reserved_after = add (money balance.reserved) (money delta)
    throw_if (is_negative reserved_after) conflict
    throw_if (gt reserved_after on_hand) insufficient_stock
    set_reserved k (to_string reserved_after)
    pure (to_string reserved_after)

  -- The write and the result of `reserveUpTo`.
  unfoldable pub hold : BalanceKey → Money → Money → Money → Tx Held
  hold k requested already_reserved to_reserve = do
    if is_positive to_reserve
        then set_reserved k (to_string (add already_reserved to_reserve))
        else pure tt
    pure (record {
      reserved = to_string to_reserve;
      backordered = to_string (subtract requested to_reserve);
    })

  unfoldable pub reserve_up_to : ℕ → ℕ → Option ℕ → Amount → Tx Held
  reserve_up_to warehouse product variant wanted = do
    let k = hold_key warehouse product variant
    balance ← lock_balance k
    let requested = money wanted
    let on_hand = money balance.on_hand
    let already_reserved = money balance.reserved
    let available = max (subtract on_hand already_reserved) zero_money
    hold k requested already_reserved (min requested available)
