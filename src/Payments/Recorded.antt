-- ===== src/Payments/Recorded.antt =====
-- A recorded payment is added.
use distribuitor_app.Prelude.{
  ℕ, suc, ◌<◌, ◌≡◌, refl, sym, subst, inl, inr, false, pos, ◌+ℤ◌, some, List, [], ◌∷◌, All, All-map,
  sum_by, find_first-All, find_first-passes, ◌==◌, ==_iff, arith, zero_+ℤ, +ℤ_zero, Bool-cases,
}
use distribuitor_app.Statuses.Invoices.{PartyType, recorded}
use distribuitor_app.Settlement.{Payment, PaymentAllocation, PaymentAct, Accounts, find_payment}
use distribuitor_app.Payments.{audited_payment}
use distribuitor_app.Payments.Invariant.{from_payment, worth, AreAccounted, IsOwned, IsSound, gap}
use distribuitor_app.Payments.Saved.{All-zip}
use mathlib.Core.Option.{some-injective}

found_before :
    (row p : Payment) (payments : List Payment) (next id : ℕ)
    → row.id ≡ next
    → id < next
    → find_payment id payments ≡ some p
    → find_payment id (row ∷ payments) ≡ some p
found_before row p payments next id is_next below found =
    let other : (row.id == id) ≡ false = ground arith in rw other found

owned_below :
    (payments : List Payment) (next : ℕ) (a : PaymentAllocation)
    → All (λ (p : Payment). p.id < next) payments
    → IsOwned payments a
    → a.payment_id < next
owned_below payments next a fresh (p, found, _) =
    let below = find_first-All (λ (p : Payment). p.id < next) _ p payments found fresh in
    subst (λ i. i < next) ((==_iff p.id a.payment_id).0 (find_first-passes _ p payments found))
      below

unused_total :
    (payments : List Payment) (next : ℕ) (allocations : List PaymentAllocation)
    → All (λ (p : Payment). p.id < next) payments
    → All (IsOwned payments) allocations
    → sum_by (from_payment next) allocations ≡ pos 0
unused_total payments next [] fresh owned = refl
unused_total payments next (a ∷ rest) fresh (owner, owned) =
    let below = owned_below payments next a fresh owner in
    let other : (a.payment_id == next) ≡ false = ground arith in
    rw (other, zero_+ℤ) (unused_total payments next rest fresh owned)

below_suc : (next : ℕ) (p : Payment) → p.id < next → p.id < suc next
below_suc next p h = omega arith

-- A recorded payment is added.
abbrev pub with_payment : Payment → Accounts → Accounts
with_payment row accounts =
    audited_payment PaymentAct.recorded row.id
      (record accounts { payments = row ∷ accounts.payments; next_id = suc accounts.next_id })

module _ (row : Payment) (accounts : Accounts) (sound : IsSound accounts)
    (id_is : row.id ≡ accounts.next_id) (status_is : row.status ≡ recorded)
    (whole_is : row.unallocated_amount ≡ row.amount +ℤ row.tds_amount) where
  added-AreAccounted : AreAccounted (row ∷ accounts.payments) accounts.allocations
  added-AreAccounted id p e = elim (Bool-cases (row.id == id)) [
    | inl this ↦
        let row_is = some-injective row p (rw this at e) in
        let unused =
          unused_total accounts.payments row.id accounts.allocations
            (subst (λ n. All (λ (x : Payment). x.id < n) accounts.payments) (sym id_is) sound.fresh)
            sound.owned in
        subst
          (λ (x : Payment).
            x.unallocated_amount +ℤ sum_by (from_payment id) accounts.allocations ≡ worth x)
          row_is
          (subst
            (λ i.
              row.unallocated_amount +ℤ sum_by (from_payment i) accounts.allocations ≡ worth row)
            ((==_iff row.id id).0 this) (rw (unused, status_is, whole_is, +ℤ_zero) refl))
    | inr other ↦ sound.accounted id p (rw other at e)
  ]

  pub added-IsSound : IsSound (with_payment row accounts)
  added-IsSound = record {
    accounted = added-AreAccounted;
    ready = record {
      settled = sound.settled;
      owned =
          All-map (IsOwned accounts.payments) (IsOwned (row ∷ accounts.payments))
            (λ a (o : IsOwned accounts.payments a). (
              o.0,
              found_before row o.0 accounts.payments accounts.next_id a.payment_id id_is
                  (owned_below accounts.payments accounts.next_id a sound.fresh o) o.1,
              o.2,
            ))
            accounts.allocations sound.owned;
      billed =
          All-zip
            (λ a owned billed p v found there.
              let below = owned_below accounts.payments accounts.next_id a sound.fresh owned in
              let other : (row.id == a.payment_id) ≡ false = ground arith in
              billed p v (rw other at found) there)
            accounts.allocations sound.owned sound.billed;
      fresh = (
        subst (λ n. n < suc accounts.next_id) (sym id_is) (omega arith),
        All-map (λ (p : Payment). p.id < accounts.next_id)
            (λ (p : Payment). p.id < suc accounts.next_id) (below_suc accounts.next_id)
            accounts.payments sound.fresh,
      );
    };
  }

  pub added-gap :
      (type : PartyType) (party : ℕ)
      → gap type party (with_payment row accounts) ≡ gap type party accounts
  added-gap type party = rw (status_is, zero_+ℤ) refl
