-- ===== src/Inventory/Ledger/Holds.antt =====
-- `adjustReserved` and `reserveUpTo`.
use distribuitor_app.Prelude.{
  ℕ, ◌≡◌, refl, sym, ap, ◌∙◌, false, pos, ◌+ℤ◌, ◌-ℤ◌, ◌≤ℤ◌, ltb_ℤ, leb_ℤ, Option, arith,
  if◌then◌else◌, int_laws, Bool-cases, inl, inr,
}
use distribuitor_app.Prelude.Results.{ok}
use distribuitor_app.Decimal.{Decimal}
use distribuitor_app.Decimal.Laws.{
  plus_amounts, less_than_zero, greater_than_amounts, to_fixed_amount, greater_than_zero,
  minus_amounts, greater_than_or_equal_amounts, less_than_or_equal_amounts,
}
use distribuitor_app.Money.{Amount, money, add, gt, is_negative, min, max}
use distribuitor_app.Inventory.Tables.{BalanceKey, Balance, Db, same_key, update_balance}
use distribuitor_app.Inventory.Tables.Rows.{
  on_hand_of, reserved_of, on_hand_of-update, reserved_of-update, All-update, IsSoundRow,
  same_key_eq, same_key_refl, reserved_in,
}
use distribuitor_app.Inventory.Tables.Steps.{
  Ensures, Ensures-ok, continue-Ensures, throw_if-Ensures,
}
use distribuitor_app.Inventory.Ledger.{
  lock_balance, hold_key, adjust_reserved, reserve_up_to, hold, Held,
}
use distribuitor_app.Inventory.Ledger.Locks.{IsLocked, lock-IsLocked}
use distribuitor_app.Inventory.Ledger.Invariant.{IsSound, locked-agrees, locked_row, row-IsSound}

-- The tables after the reserved figure of `k` is set.
abbrev pub held_db : BalanceKey → Amount → Db → Db
held_db k reserved db = record db {
  balances = update_balance k (λ b. record b { reserved = reserved }) db.balances;
}

pub held-IsSound :
    (k : BalanceKey) (reserved : Amount) (db : Db) (b : Balance) (locked : Db)
    → IsSound db
    → IsLocked k db b locked
    → pos 0 ≤ℤ reserved
    → reserved ≤ℤ b.on_hand
    → IsSound (held_db k reserved locked)
held-IsSound k reserved db b locked sound lock low high =
    let rows = lock.rows_kept sound.covered in
    record {
      agrees = λ j.
          on_hand_of-update k _ (λ _. refl) j locked.balances b lock.found
          ∙ elim (Bool-cases (same_key k j)) [
            | inl same ↦
                rw (same, ← locked-agrees sound lock j, ← same_key_eq k j same, locked_row lock)
            | inr other ↦ rw other (locked-agrees sound lock j)
          ];
      covered = All-update k _ (λ _. refl) IsSoundRow locked.balances b rows lock.found (low, high);
    }

-- How much `reserveUpTo` takes.
abbrev pub up_to : Amount → Balance → Amount
up_to wanted b =
    let left = b.on_hand -ℤ b.reserved in
    let available = if leb_ℤ (pos 0) left then left else pos 0 in
    if leb_ℤ wanted available then wanted else available

up_to_bounds :
    (wanted : Amount) (b : Balance)
    → pos 0 ≤ℤ wanted
    → pos 0 ≤ℤ b.on_hand -ℤ b.reserved
    → (pos 0 ≤ℤ up_to wanted b) × (up_to wanted b ≤ℤ b.on_hand -ℤ b.reserved)
up_to_bounds wanted b positive free = ground arith

up_to_free :
    (wanted : Amount) (b : Balance)
    → pos 0 ≤ℤ b.on_hand -ℤ b.reserved
    → let free = b.on_hand -ℤ b.reserved in
      up_to wanted b ≡ (if leb_ℤ wanted free then wanted else free)
up_to_free wanted b free = ground arith

locked-IsSound :
    {k : BalanceKey} {db : Db} {b : Balance} {locked : Db}
    → IsSound db
    → IsLocked k db b locked
    → IsSound locked
locked-IsSound sound lock = record {
  agrees = locked-agrees sound lock;
  covered = lock.rows_kept sound.covered;
}

module _ ⦃dec : Decimal⦄ where
  releasable : (r d : Amount) → is_negative (add (money r) (money d)) ≡ false → pos 0 ≤ℤ r +ℤ d
  releasable r d h = let g = simp (plus_amounts, less_than_zero) at h in ground arith

  promised : (r d a : Amount) → gt (add (money r) (money d)) (money a) ≡ false → r +ℤ d ≤ℤ a
  promised r d a h = let g = simp (plus_amounts, greater_than_amounts) at h in ground arith

  module _ {κ} (w p : ℕ) (v : Option ℕ) (db : Db) where
    pub adjust_reserved-Ensures :
        (P : Amount → Db → Type κ) (delta : Amount)
        → ((b : Balance) (locked : Db)
            → lock_balance (hold_key w p v) db ≡ ok (b, locked)
            → pos 0 ≤ℤ b.reserved +ℤ delta
            → b.reserved +ℤ delta ≤ℤ b.on_hand
            → P (b.reserved +ℤ delta) (held_db (hold_key w p v) (b.reserved +ℤ delta) locked))
        → Ensures P (adjust_reserved w p v delta db)
    unfolding adjust_reserved
    adjust_reserved-Ensures P delta h =
        continue-Ensures P (lock_balance (hold_key w p v) db) _ λ b locked el.
          let after = add (money b.reserved) (money delta) in
          throw_if-Ensures P (is_negative after) _ _ locked λ low.
            throw_if-Ensures P (gt after (money b.on_hand)) _ _ locked λ high.
              simp (plus_amounts, to_fixed_amount)
                (h b locked el (releasable b.reserved delta low)
                  (promised b.reserved delta b.on_hand high))

  max_amounts : (a b : Amount) → max (money a) (money b) ≡ money (if leb_ℤ b a then a else b)
  max_amounts a b = elim (Bool-cases (leb_ℤ b a)) [
    | inl e ↦ simp (greater_than_or_equal_amounts, e)
    | inr e ↦ simp (greater_than_or_equal_amounts, e)
  ]

  min_amounts : (a b : Amount) → min (money a) (money b) ≡ money (if leb_ℤ a b then a else b)
  min_amounts a b = elim (Bool-cases (leb_ℤ a b)) [
    | inl e ↦ simp (less_than_or_equal_amounts, e)
    | inr e ↦ simp (less_than_or_equal_amounts, e)
  ]

  hold_amounts :
      (k : BalanceKey) (wanted r t : Amount) (db : Db)
      → hold k (money wanted) (money r) (money t) db
        ≡ ok (
          record { reserved = t; backordered = wanted -ℤ t },
          if ltb_ℤ (pos 0) t then held_db k (r +ℤ t) db else db,
        )
  unfolding hold
  hold_amounts k wanted r t db = elim (Bool-cases (ltb_ℤ (pos 0) t)) [
    | inl e ↦ simp (greater_than_zero, e, plus_amounts, minus_amounts, to_fixed_amount)
    | inr e ↦ simp (greater_than_zero, e, minus_amounts, to_fixed_amount)
  ]

  module _ {κ} (w p : ℕ) (v : Option ℕ) (db : Db) where
    pub reserve_up_to-Ensures :
        (P : Held → Db → Type κ) (wanted : Amount)
        → ((b : Balance) (locked : Db)
            → lock_balance (hold_key w p v) db ≡ ok (b, locked)
            → P
                (record { reserved = up_to wanted b; backordered = wanted -ℤ up_to wanted b })
                (if ltb_ℤ (pos 0) (up_to wanted b)
                  then held_db (hold_key w p v) (b.reserved +ℤ up_to wanted b) locked
                  else locked))
        → Ensures P (reserve_up_to w p v wanted db)
    unfolding reserve_up_to
    reserve_up_to-Ensures P wanted h =
        continue-Ensures P (lock_balance (hold_key w p v) db) _ λ b locked el.
          simp (minus_amounts, max_amounts, min_amounts, hold_amounts) (h b locked el)

  -- On sound tables, a change of the reserved figure that succeeds leaves sound tables.
  pub adjust_reserved-IsSound :
      (w p : ℕ) (v : Option ℕ) (delta : Amount) (db new : Db) (r : Amount)
      → IsSound db
      → adjust_reserved w p v delta db ≡ ok (r, new)
      → IsSound new
  adjust_reserved-IsSound w p v delta db new r sound e =
      Ensures-ok (λ _ new. IsSound new) (adjust_reserved w p v delta db)
        (adjust_reserved-Ensures w p v db (λ _ new. IsSound new) delta
          λ b locked el low high.
            held-IsSound (hold_key w p v) _ db b locked sound
              (lock-IsLocked (hold_key w p v) db b locked el) low high)
        e

  -- Of a request at a key: as much of it as is free is reserved, the rest is reported as backordered,
  -- and the figure of the key grows by what is reserved.
  abbrev pub Reserves : BalanceKey → Amount → Db → Held → Db → Type 0
  Reserves k wanted db held new =
      let free = on_hand_of k db.balances -ℤ reserved_of k db.balances in
      (held.reserved ≡ (if leb_ℤ wanted free then wanted else free))
      × (held.backordered ≡ wanted -ℤ held.reserved)
      × (reserved_of k new.balances ≡ reserved_of k db.balances +ℤ held.reserved)
      × IsSound new

  held_or_kept :
      (k : BalanceKey) (t : Amount) (db : Db) (b : Balance) (locked : Db)
      → IsSound db
      → IsLocked k db b locked
      → pos 0 ≤ℤ t
      → b.reserved +ℤ t ≤ℤ b.on_hand
      → let new = if ltb_ℤ (pos 0) t then held_db k (b.reserved +ℤ t) locked else locked in
        (reserved_of k new.balances ≡ b.reserved +ℤ t) × IsSound new
  held_or_kept k t db b locked sound lock positive fits =
      let row = row-IsSound k locked.balances b (lock.rows_kept sound.covered) lock.found in
      elim (Bool-cases (ltb_ℤ (pos 0) t)) [
        | inl e ↦ rw e (
          reserved_of-update k _ (λ _. refl) k locked.balances b lock.found ∙ rw (same_key_refl k),
          held-IsSound k (b.reserved +ℤ t) db b locked sound lock (omega int_laws) fits,
        )
        | inr e ↦
            let none_taken : t ≡ pos 0 = ground arith in
            rw (e, none_taken)
              (ap reserved_in lock.found ∙ omega int_laws, locked-IsSound sound lock)
      ]

  -- The step from the locked row `b`, with its figures named.
  Reserves-row :
      (k : BalanceKey) (wanted : Amount) (db : Db) (b : Balance) (locked : Db)
      → IsSound db
      → pos 0 ≤ℤ wanted
      → IsLocked k db b locked
      → let t = up_to wanted b in
        Reserves k wanted db
          (record { reserved = t; backordered = wanted -ℤ t })
          (if ltb_ℤ (pos 0) t then held_db k (b.reserved +ℤ t) locked else locked)
  Reserves-row k wanted db b locked sound positive lock =
      let row = row-IsSound k locked.balances b (lock.rows_kept sound.covered) lock.found in
      let at_hand : on_hand_of k db.balances ≡ b.on_hand =
        sym (lock.on_hand_kept k) ∙ locked_row lock in
      let held : reserved_of k db.balances ≡ b.reserved =
        sym (lock.reserved_kept k) ∙ ap reserved_in lock.found in
      let free : pos 0 ≤ℤ b.on_hand -ℤ b.reserved = omega int_laws in
      let bounds = up_to_bounds wanted b positive free in
      let rest =
        held_or_kept k (up_to wanted b) db b locked sound lock bounds.0
          (omega (int_laws, bounds.1)) in
      rw (at_hand, held) (up_to_free wanted b free, refl, rest.0, rest.1)

  -- A request that is not negative, on sound tables, is reserved as far as there is free stock; the
  -- rest is backordered; the tables stay sound.
  pub reserve_up_to-Reserves :
      (w p : ℕ) (v : Option ℕ) (wanted : Amount) (db new : Db) (held : Held)
      → IsSound db
      → pos 0 ≤ℤ wanted
      → reserve_up_to w p v wanted db ≡ ok (held, new)
      → Reserves (hold_key w p v) wanted db held new
  reserve_up_to-Reserves w p v wanted db new held sound positive e =
      let k = hold_key w p v in
      Ensures-ok (Reserves k wanted db) (reserve_up_to w p v wanted db)
        (reserve_up_to-Ensures w p v db (Reserves k wanted db) wanted λ b locked el.
          Reserves-row k wanted db b locked sound positive (lock-IsLocked k db b locked el))
        e
