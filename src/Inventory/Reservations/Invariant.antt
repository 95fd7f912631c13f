-- ===== src/Inventory/Reservations/Invariant.antt =====
-- The active reservations and the reserved figures agree, and every operation keeps that.
use distribuitor_app.Prelude.{
  ℕ, ◌≡◌, ◌<◌, ◌∙◌, pos, ◌+ℤ◌, Option, some, All, if◌then◌else◌, int_laws, Bool-cases, inl, inr,
}
use distribuitor_app.Decimal.{Decimal}
use distribuitor_app.Money.{Amount}
use distribuitor_app.Inventory.Tables.{BalanceKey, Reservation, Act, Db, same_key}
use distribuitor_app.Inventory.Tables.Rows.{reserved_of, same_key_eq}
use distribuitor_app.Inventory.Ledger.{Movement, Moved, hold_key}
use distribuitor_app.Inventory.Ledger.Invariant.{IsSound}
use distribuitor_app.Inventory.Ledger.Effects.{IsAdjusted, IsMoved}
use distribuitor_app.Inventory.Reservations.{find_reservation}
use distribuitor_app.Inventory.Reservations.Rows.{
  share, held_total, held_total-update, Distinct, Distinct-update, All-update_reservation,
}
use distribuitor_app.Inventory.Reservations.Steps.{updated_db, audited_db}

-- The reserved figure of each key is the sum of its active reservations.
abbrev pub HoldsAgree : Db → Type 0
HoldsAgree db =
    (w p : ℕ) (v : Option ℕ)
    → reserved_of (hold_key w p v) db.balances ≡ held_total (hold_key w p v) db.reservations

pub record IsConsistent (db : Db) : Type 0 where
  pub sound : IsSound db
  pub holds_agree : HoldsAgree db
  pub distinct : Distinct db.reservations
  pub fresh : All (λ (r : Reservation). r.id < db.next_id) db.reservations

-- What a change of `delta` in the reserved figure of `k` comes to, whatever is issued besides.
pub record IsHeld (k : BalanceKey) (delta : Amount) (db new : Db) : Type 0 where
  pub reserved_changed :
      (j : BalanceKey)
      → reserved_of j new.balances
        ≡ (if same_key k j then reserved_of k db.balances +ℤ delta else reserved_of j db.balances)
  pub reservations_kept : new.reservations ≡ db.reservations
  pub next_id_kept : new.next_id ≡ db.next_id

pub adjusted-IsHeld :
    {k : BalanceKey} {delta held : Amount} {db mid : Db}
    → IsAdjusted k delta db held mid
    → IsHeld k delta db mid
adjusted-IsHeld adjusted = record {
  reserved_changed = adjusted.reserved_changed;
  reservations_kept = adjusted.reservations_kept;
  next_id_kept = adjusted.next_id_kept;
}

pub moved-IsHeld :
    ⦃dec : Decimal⦄ {k : BalanceKey} {delta : Amount} {db mid last : Db} {now : ℕ}
    {input : Movement} {moved : Moved}
    → IsHeld k delta db mid
    → IsMoved now input mid moved last
    → IsHeld k delta db last
moved-IsHeld held moved = record {
  reserved_changed = λ j. moved.reserved_kept j ∙ held.reserved_changed j;
  reservations_kept = moved.reservations_kept ∙ held.reservations_kept;
  next_id_kept = moved.next_id_kept ∙ held.next_id_kept;
}

-- A change of `delta` in the reserved figure of `k`, and of the same in the shares of one row.
update-HoldsAgree :
    (k : BalanceKey) (delta : Amount) (db mid : Db) (id : ℕ) (f : Reservation → Reservation)
    (r : Reservation)
    → HoldsAgree db
    → IsHeld k delta db mid
    → find_reservation id db.reservations ≡ some r
    → ((j : BalanceKey) → share j (f r) ≡ share j r +ℤ (if same_key k j then delta else pos 0))
    → HoldsAgree (updated_db id f mid)
update-HoldsAgree k delta db mid id f r agree adjusted found shares w p v =
    let j = hold_key w p v in
    let total = held_total-update j id f db.reservations r found in
    let here = adjusted.reserved_changed j in
    rw (adjusted.reservations_kept, total, shares j, here)
      (elim (Bool-cases (same_key k j)) [
        | inl same ↦ rw (same, same_key_eq k j same, ← agree w p v) (omega int_laws)
        | inr other ↦ rw (other, ← agree w p v) (omega int_laws)
      ])

-- With the row updated and audited, the tables are consistent again.
pub update-IsConsistent :
    (k : BalanceKey) (delta : Amount) (db mid : Db) (id : ℕ) (f : Reservation → Reservation)
    (r : Reservation)
    → IsConsistent db
    → IsHeld k delta db mid
    → IsSound mid
    → find_reservation id db.reservations ≡ some r
    → ((row : Reservation) → (f row).id ≡ row.id)
    → ((j : BalanceKey) → share j (f r) ≡ share j r +ℤ (if same_key k j then delta else pos 0))
    → IsConsistent (updated_db id f mid)
update-IsConsistent k delta db mid id f r consistent adjusted sound found keeps shares = record {
  sound = record { agrees = sound.agrees; covered = sound.covered };
  holds_agree =
      update-HoldsAgree k delta db mid id f r consistent.holds_agree adjusted found shares;
  distinct =
      rw adjusted.reservations_kept
        (Distinct-update id f keeps db.reservations consistent.distinct);
  fresh =
      rw (adjusted.reservations_kept, adjusted.next_id_kept)
        (All-update_reservation id f keeps (λ i. i < db.next_id) db.reservations consistent.fresh);
}

-- An audit changes none of it.
pub audit-IsConsistent :
    (act : Act) (id : ℕ) (db : Db) → IsConsistent db → IsConsistent (audited_db act id db)
audit-IsConsistent act id db c = record {
  sound = record { agrees = c.sound.agrees; covered = c.sound.covered };
  holds_agree = c.holds_agree;
  distinct = c.distinct;
  fresh = c.fresh;
}
