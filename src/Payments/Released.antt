-- ===== src/Payments/Released.antt =====
-- The allocations of a payment that bounces are deleted one after another, and nothing of it is left.
use distribuitor_app.Prelude.{
  ℕ, ◌≡◌, refl, ap, sym, subst, ◌∙◌, inl, inr, Bool, true, false, pos, ◌+ℤ◌, ◌-ℤ◌, some, List, [],
  ◌∷◌, sum_by, select, find_first, delete_first, find_first-All, All-delete_first, ◌==◌, ==_iff,
  arith, int_laws, parts_of_eq, zero_+ℤ, Bool-cases,
}
use distribuitor_app.Prelude.Results.{ok}
use distribuitor_app.Prelude.Results.Inversion.{bind-ok, ok-injective}
use distribuitor_app.Decimal.{Decimal}
use distribuitor_app.Money.{Amount}
use distribuitor_app.Statuses.Invoices.{InvoiceStatus}
use distribuitor_app.Settlement.{
  Payment, PaymentAllocation, Accounts, find_payment, refresh_settlement,
}
use distribuitor_app.Settlement.Refresh.{refresh_settlement-IsRefreshed}
use distribuitor_app.Payments.Allocate.{is_row}
use distribuitor_app.Payments.Bounce.{release_each}
use distribuitor_app.Payments.Invariant.{from_payment, IsOwned, IsBilled, IsReady}
use distribuitor_app.Payments.Moves.{
  IsMoved, deleted-IsMoved, IsApplied, with_rows, moved-IsApplied,
}
use distribuitor_app.Payments.Applied.{both-IsApplied, nothing-IsApplied}

abbrev pub is_of : ℕ → PaymentAllocation → Bool
is_of id a = a.payment_id == id

abbrev pub released_total : List PaymentAllocation → Amount
released_total [] = pos 0
released_total (a ∷ rest) = pos 0 -ℤ a.amount +ℤ released_total rest

pub released_total-from :
    (id : ℕ) (rows : List PaymentAllocation)
    → released_total (select (is_of id) rows) ≡ pos 0 -ℤ sum_by (from_payment id) rows
released_total-from id [] = omega int_laws
released_total-from id (a ∷ rest) = elim (Bool-cases (is_of id a)) [
  | inl mine ↦ rw mine (released_step a.amount _ _ (released_total-from id rest))
  | inr other ↦ rw (other, zero_+ℤ) (released_total-from id rest)
]
  where
    released_step : (x s t : Amount) → s ≡ pos 0 -ℤ t → pos 0 -ℤ x +ℤ s ≡ pos 0 -ℤ (x +ℤ t)
    released_step x s t e = omega (int_laws, parts_of_eq e)

pub none_from :
    (id : ℕ) (rows : List PaymentAllocation)
    → select (is_of id) rows ≡ []
    → sum_by (from_payment id) rows ≡ pos 0
none_from id [] e = refl
none_from id (a ∷ rest) e = elim (Bool-cases (is_of id a)) [
  | inl mine ↦ absurd (let h = rw mine at e in cc)
  | inr other ↦ rw (other, zero_+ℤ) (none_from id rest (rw other at e))
]

-- The first row of a payment is the one that its id finds, and a deletion leaves the others.
record IsFirst (id : ℕ) (a : PaymentAllocation) (rest rows : List PaymentAllocation) : Type 0 where
  mine : is_of id a ≡ true
  found : find_first (is_row a.id a.payment_id) rows ≡ some a
  left : select (is_of id) (delete_first (is_row a.id a.payment_id) rows) ≡ rest

own_row : (a : PaymentAllocation) → is_row a.id a.payment_id a ≡ true
own_row a = ground arith

other_row :
    (id : ℕ) (a b : PaymentAllocation)
    → is_of id a ≡ true
    → is_of id b ≡ false
    → is_row a.id a.payment_id b ≡ false
other_row id a b mine other = ground arith

first_parts :
    {a b : PaymentAllocation} {xs ys : List PaymentAllocation}
    → ◌≡◌ {A = List PaymentAllocation} (a ∷ xs) (b ∷ ys)
    → (a ≡ b) × (xs ≡ ys)
first_parts e = (cc, cc)

select-IsFirst :
    (id : ℕ) (a : PaymentAllocation) (rest rows : List PaymentAllocation)
    → select (is_of id) rows ≡ a ∷ rest
    → IsFirst id a rest rows
select-IsFirst id a rest [] e = absurd cc
select-IsFirst id a rest (b ∷ rows) e = elim (Bool-cases (is_of id b)) [
  | inl hit ↦
      let (same, tail) = first_parts (rw hit at e) in
      subst (λ (x : PaymentAllocation). IsFirst id x rest (b ∷ rows)) same
        (record { mine = hit; found = rw (own_row b) refl; left = rw (own_row b) tail })
  | inr miss ↦
      let h = select-IsFirst id a rest rows (rw miss at e) in
      let other = other_row id a b h.mine miss in
      record { mine = h.mine; found = rw other h.found; left = rw (other, miss) h.left }
]

module _ ⦃dec : Decimal⦄ where
  release_one-IsApplied :
      (p : Payment) (a : PaymentAllocation) (accounts mid : Accounts) (status : InvoiceStatus)
      → IsReady accounts
      → find_payment p.id accounts.payments ≡ some p
      → is_of p.id a ≡ true
      → find_first (is_row a.id a.payment_id) accounts.allocations ≡ some a
      → refresh_settlement a.invoice_id (
          with_rows
            (delete_first (is_row a.id a.payment_id) accounts.allocations)
            accounts.next_id
            accounts)
        ≡ ok (status, mid)
      → IsApplied p (pos 0 -ℤ a.amount) accounts mid
  release_one-IsApplied p a accounts mid status ready found mine there e =
      let rows = delete_first (is_row a.id a.payment_id) accounts.allocations in
      let r =
        refresh_settlement-IsRefreshed a.invoice_id (with_rows rows accounts.next_id accounts) mid
          status e in
      let id_is = (==_iff a.payment_id p.id).0 mine in
      let found_a = subst (λ i. find_payment i accounts.payments ≡ some p) (sym id_is) found in
      let (open_is, d_is, c_is) =
        find_first-All (IsBilled accounts.payments accounts.invoices) _ a accounts.allocations there
          ready.billed p r.invoice found_a r.found in
      moved-IsApplied r p (pos 0 -ℤ a.amount) ready (omega arith)
        (subst (λ i. IsMoved i a.invoice_id (pos 0 -ℤ a.amount) accounts.allocations rows) id_is
          (deleted-IsMoved (is_row a.id a.payment_id) a accounts.allocations there))
        (All-delete_first (IsOwned accounts.payments) _ accounts.allocations ready.owned)
        (All-delete_first (IsBilled accounts.payments accounts.invoices) _ accounts.allocations
          ready.billed)
        open_is d_is c_is

  -- Every allocation of the payment is given back, and none is left.
  pub release_each-IsApplied :
      (p : Payment) (rows : List PaymentAllocation) (accounts new : Accounts)
      → IsReady accounts
      → find_payment p.id accounts.payments ≡ some p
      → select (is_of p.id) accounts.allocations ≡ rows
      → release_each rows accounts ≡ ok new
      → IsApplied p (released_total rows) accounts new × (select (is_of p.id) new.allocations ≡ [])
  unfolding release_each
  release_each-IsApplied p [] accounts new ready found these e = (
    subst (λ (a : Accounts). IsApplied p (pos 0) accounts a) (sym (ok-injective e))
        (nothing-IsApplied p accounts ready),
    ap (λ (a : Accounts). select (is_of p.id) a.allocations) (ok-injective e) ∙ these,
  )
  release_each-IsApplied p (a ∷ rest) accounts new ready found these e =
      let first = select-IsFirst p.id a rest accounts.allocations these in
      let (settled, did, e1) =
        bind-ok
          (refresh_settlement a.invoice_id (
            with_rows (delete_first (is_row a.id a.payment_id) accounts.allocations)
              accounts.next_id accounts))
          _ e in
      let one =
        release_one-IsApplied p a accounts settled.1 settled.0 ready found first.mine first.found
          did in
      let found_now =
        subst (λ (x : List Payment). find_payment p.id x ≡ some p) (sym one.payments_kept) found in
      let (others, empty) =
        release_each-IsApplied p rest settled.1 new one.ready found_now
          (ap (λ (x : Accounts). select (is_of p.id) x.allocations)
              (refresh_settlement-IsRefreshed a.invoice_id
                (with_rows (delete_first (is_row a.id a.payment_id) accounts.allocations)
                  accounts.next_id accounts)
                settled.1 settled.0 did).stored
            ∙ first.left)
          e1 in
      (
        both-IsApplied p (pos 0 -ℤ a.amount) (released_total rest) accounts settled.1 new one
            others,
        empty,
      )
