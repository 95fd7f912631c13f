-- ===== src/Inventory/Reservations/Sweep.antt =====
-- Making a reservation and sweeping the stale ones keep the tables consistent.
use distribuitor_app.Prelude.{
  ℕ, suc, ◌≡◌, ◌<◌, refl, ap, Bool, false, List, [], ◌∷◌, All-map, arith, int_laws, Bool-cases, inl,
  inr, ◌==◌,
}
use distribuitor_app.Prelude.Results.{Result, ok, err}
use distribuitor_app.Decimal.{Decimal}
use distribuitor_app.Statuses.Stock.{expired}
use distribuitor_app.Inventory.Tables.{BalanceKey, Reservation, Db, same_key}
use distribuitor_app.Inventory.Tables.Rows.{reserved_of, same_key_eq}
use distribuitor_app.Inventory.Tables.Steps.{Ensures-ok}
use distribuitor_app.Inventory.Ledger.{hold_key}
use distribuitor_app.Inventory.Ledger.Holds.{adjust_reserved-IsSound}
use distribuitor_app.Inventory.Ledger.Effects.{adjust_reserved-IsAdjusted}
use distribuitor_app.Inventory.Reservations.{
  reserve, CreateReservation, close, expire_each, expire_stale,
}
use distribuitor_app.Inventory.Reservations.Steps.{reserve-Ensures, created_db}
use distribuitor_app.Inventory.Reservations.Invariant.{
  IsConsistent, HoldsAgree, IsHeld, audit-IsConsistent, adjusted-IsHeld,
}
use distribuitor_app.Inventory.Reservations.Operations.{close-IsConsistent}

module _ ⦃dec : Decimal⦄ where
  module _ (visible : ℕ → Bool) where
    created-HoldsAgree :
        (dto : CreateReservation) (actor : ℕ) (db mid : Db)
        → HoldsAgree db
        → IsHeld (hold_key dto.warehouse dto.product dto.variant) dto.quantity db mid
        → HoldsAgree (created_db dto actor mid)
    created-HoldsAgree dto actor db mid agree held w p v =
        let j = hold_key w p v in
        let k = hold_key dto.warehouse dto.product dto.variant in
        rw (held.reservations_kept, held.reserved_changed j)
          (elim (Bool-cases (same_key k j)) [
            | inl same ↦
                let here =
                  ap (λ (x : BalanceKey). reserved_of x db.balances) (same_key_eq k j same) in
                rw (same, here, agree w p v) (omega int_laws)
            | inr other ↦ rw (other, agree w p v) (omega int_laws)
          ])

    -- On consistent tables, a reservation that succeeds leaves consistent tables.
    pub reserve-IsConsistent :
        (dto : CreateReservation) (actor id : ℕ) (db new : Db)
        → IsConsistent db
        → reserve visible dto actor db ≡ ok (id, new)
        → IsConsistent new
    reserve-IsConsistent dto actor id db new consistent e =
        Ensures-ok (λ _ new. IsConsistent new) (reserve visible dto actor db)
          (reserve-Ensures visible db (λ _ new. IsConsistent new) dto actor
            λ held mid f.
              let adjusted =
                adjust_reserved-IsAdjusted dto.warehouse dto.product dto.variant _ db mid held f in
              let sound =
                adjust_reserved-IsSound dto.warehouse dto.product dto.variant _ db mid held
                  consistent.sound f in
              let given = adjusted-IsHeld adjusted in
              audit-IsConsistent _ mid.next_id _ (record {
                sound = record { agrees = sound.agrees; covered = sound.covered };
                holds_agree = created-HoldsAgree dto actor db mid consistent.holds_agree given;
                distinct =
                    rw (given.reservations_kept, given.next_id_kept)
                      (
                        All-map (λ (c : Reservation). c.id < db.next_id)
                            (λ (c : Reservation). (c.id == db.next_id) ≡ false)
                            (λ c below. ground arith) db.reservations consistent.fresh,
                        consistent.distinct,
                      );
                fresh = rw given.reservations_kept (
                  omega arith,
                  All-map (λ (c : Reservation). c.id < db.next_id)
                      (λ (c : Reservation). c.id < suc mid.next_id)
                      (λ c below. rw given.next_id_kept (omega arith)) db.reservations
                      consistent.fresh,
                );
              }))
          e

    expire_each-IsConsistent :
        (now : ℕ) (ids : List ℕ) (db : Db)
        → IsConsistent db
        → IsConsistent (expire_each visible now ids db).1
    unfolding expire_each
    expire_each-IsConsistent now [] db c = c
    expire_each-IsConsistent now (id ∷ ids) db c =
        go (expire_each-IsConsistent now ids) (close visible now id expired db) refl
      where
        go :
            ((db' : Db) → IsConsistent db' → IsConsistent (expire_each visible now ids db').1)
            → (x : Result (Unit {0} × Db)) → close visible now id expired db ≡ x
            → IsConsistent
                (elim x as (λ _. ℕ × Db) [
                  | ok (_, new) ↦ let (n, last) = expire_each visible now ids new in (suc n, last)
                  | err e ↦ expire_each visible now ids db
                ]).1
        go rest (ok (u, new)) e = rest new (close-IsConsistent visible now id expired db new c e)
        go rest (err x) e = rest db c

    -- On consistent tables, the sweep of stale reservations leaves consistent tables, whichever rows
    -- fail.
    pub expire_stale-IsConsistent :
        (now : ℕ) (db : Db) → IsConsistent db → IsConsistent (expire_stale visible now db).1
    unfolding expire_stale
    expire_stale-IsConsistent now db c = expire_each-IsConsistent now _ db c
