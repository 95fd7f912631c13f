-- ===== src/Payments/Moves.antt =====
-- Changes of the allocations by one row, and of the one invoice that it is for.
use distribuitor_app.Prelude.{
  ℕ, ◌≤◌, ◌<◌, ◌≡◌, refl, ap, sym, subst, ◌∙◌, inl, inr, Bool, true, false, ◌&&◌, pos, ◌+ℤ◌, ◌-ℤ◌,
  some, List, ◌∷◌, All, All-map, sum_by, find_first, update_first, delete_first,
  sum_by-update_first, sum_by-delete_first, ◌==◌, ==_iff, if◌then◌else◌, arith, int_laws,
  parts_of_eq, +ℤ_zero, Bool-cases,
}
use distribuitor_app.Decimal.{Decimal}
use distribuitor_app.Decimal.Laws.{plus_amounts, to_fixed_amount}
use distribuitor_app.Money.{Amount, Money, money}
use distribuitor_app.Statuses.Invoices.{PartyType, distributor, customer}
use distribuitor_app.Settlement.{Payment, PaymentAllocation, Invoice, Accounts, find_invoice}
use distribuitor_app.Settlement.Refresh.{to_invoice, is_open, IsRefreshed, refreshed-is_open}
use distribuitor_app.Settlement.Invariant.{
  due, invoice_where, found-after, refreshed-AreSettled, refreshed-due,
}
use distribuitor_app.Payments.Invariant.{from_payment, IsOwned, IsBilled, IsReady, payment_where}
use distribuitor_app.Payments.Allocate.{grown}

-- The rows of one payment and one invoice come to `delta` more.
pub record IsMoved (payment_id invoice_id : ℕ) (delta : Amount) (old rows : List PaymentAllocation)
    : Type 0 where
  pub to_invoices :
      (k : ℕ)
      → sum_by (to_invoice k) rows
        ≡ sum_by (to_invoice k) old +ℤ (if invoice_id == k then delta else pos 0)
  pub from_payments :
      (k : ℕ)
      → sum_by (from_payment k) rows
        ≡ sum_by (from_payment k) old +ℤ (if payment_id == k then delta else pos 0)

grow_shift :
    (b : Bool) (s s' x x' delta : Amount)
    → x' ≡ x +ℤ delta
    → s' +ℤ (if b then x else pos 0) ≡ s +ℤ (if b then x' else pos 0)
    → s' ≡ s +ℤ (if b then delta else pos 0)
grow_shift true s s' x x' delta e h = omega (int_laws, parts_of_eq e, parts_of_eq h)
grow_shift false s s' x x' delta e h = omega (int_laws, parts_of_eq h)

drop_shift :
    (b : Bool) (s s' x : Amount)
    → s' +ℤ (if b then x else pos 0) ≡ s
    → s' ≡ s +ℤ (if b then pos 0 -ℤ x else pos 0)
drop_shift true s s' x h = omega (int_laws, parts_of_eq h)
drop_shift false s s' x h = omega (int_laws, parts_of_eq h)

add_shift :
    (b : Bool) (s x : Amount) → (if b then x else pos 0) +ℤ s ≡ s +ℤ (if b then x else pos 0)
add_shift true s x = omega int_laws
add_shift false s x = omega int_laws

pub added-IsMoved :
    (row : PaymentAllocation) (old : List PaymentAllocation)
    → IsMoved row.payment_id row.invoice_id row.amount old (row ∷ old)
added-IsMoved row old = record {
  to_invoices = λ k. add_shift (row.invoice_id == k) _ row.amount;
  from_payments = λ k. add_shift (row.payment_id == k) _ row.amount;
}

pub deleted-IsMoved :
    (test : PaymentAllocation → Bool) (x : PaymentAllocation) (old : List PaymentAllocation)
    → find_first test old ≡ some x
    → IsMoved x.payment_id x.invoice_id (pos 0 -ℤ x.amount) old (delete_first test old)
deleted-IsMoved test x old found = record {
  to_invoices = λ k.
      drop_shift (x.invoice_id == k) _ _ x.amount
        (sum_by-delete_first (to_invoice k) test x old found);
  from_payments = λ k.
      drop_shift (x.payment_id == k) _ _ x.amount
        (sum_by-delete_first (from_payment k) test x old found);
}

module _ ⦃dec : Decimal⦄ where
  pub grown-IsMoved :
      (test : PaymentAllocation → Bool) (delta : Amount) (portion : Money) (x : PaymentAllocation)
      (old : List PaymentAllocation)
      → find_first test old ≡ some x
      → IsMoved x.payment_id x.invoice_id delta old
          (update_first test (grown (money delta) portion) old)
  grown-IsMoved test delta portion x old found =
      let f = grown (money delta) portion in
      let grew : (f x).amount ≡ x.amount +ℤ delta = rw (plus_amounts, to_fixed_amount) refl in
      record {
        to_invoices = λ k.
            grow_shift (x.invoice_id == k) _ _ x.amount (f x).amount delta grew
              (sum_by-update_first (to_invoice k) test f x old found);
        from_payments = λ k.
            grow_shift (x.payment_id == k) _ _ x.amount (f x).amount delta grew
              (sum_by-update_first (from_payment k) test f x old found);
      }

-- What a change by `delta` for the payment `p` has done.
pub record IsApplied (p : Payment) (delta : Amount) (accounts new : Accounts) : Type 0 where
  pub ready : IsReady new
  pub books_kept : new.books ≡ accounts.books
  pub payments_kept : new.payments ≡ accounts.payments
  pub later : accounts.next_id ≤ new.next_id
  pub spent :
      (k : ℕ)
      → sum_by (from_payment k) new.allocations
        ≡ sum_by (from_payment k) accounts.allocations +ℤ (if p.id == k then delta else pos 0)
  pub due_moved :
      (type : PartyType) (party : ℕ)
      → sum_by (due type party) new.invoices
        ≡ sum_by (due type party) accounts.invoices
          -ℤ (if payment_where type party p then delta else pos 0)

abbrev pub with_rows : List PaymentAllocation → ℕ → Accounts → Accounts
with_rows rows next accounts = record accounts { allocations = rows; next_id = next }

same_party :
    (type : PartyType) (party : ℕ) (v : Invoice) (p : Payment)
    → v.distributor_id ≡ p.distributor_id
    → v.customer_id ≡ p.customer_id
    → invoice_where type party v ≡ payment_where type party p
same_party distributor party v p d c = rw d refl
same_party customer party v p d c = rw c refl

pub unmoved : (b : Bool) (s delta : Amount) → b ≡ false → s ≡ s +ℤ (if b then delta else pos 0)
unmoved b s delta e = rw e (sym (+ℤ_zero s))

moved_on : (b : Bool) (s delta : Amount) → b ≡ true → s +ℤ (if b then delta else pos 0) ≡ s +ℤ delta
moved_on b s delta e = rw e refl

module _ ⦃dec : Decimal⦄ {i : ℕ} {mid new : Accounts} (r : IsRefreshed i mid new) where
  refreshed-IsBilled :
      (a : PaymentAllocation)
      → IsBilled mid.payments mid.invoices a
      → IsBilled mid.payments new.invoices a
  refreshed-IsBilled a billed p v found there = elim (Bool-cases (i == a.invoice_id)) [
    | inl this ↦
        let same = (found-after r a.invoice_id v there).0 this in
        let before =
          subst (λ k. find_invoice k mid.invoices ≡ some r.invoice) ((==_iff i a.invoice_id).0 this)
            r.found in
        let (open_is, d_is, c_is) = billed p r.invoice found before in
        subst
          (λ (x : Invoice).
            (is_open x.status ≡ true)
            × (x.distributor_id ≡ p.distributor_id)
            × (x.customer_id ≡ p.customer_id))
          (sym same) (refreshed-is_open r.invoice mid ∙ open_is, d_is, c_is)
    | inr other ↦ billed p v found ((found-after r a.invoice_id v there).1 other)
  ]

below_next : (n m : ℕ) → n ≤ m → (p : Payment) → p.id < n → p.id < m
below_next n m le p h = omega arith

module _ ⦃dec : Decimal⦄ {i : ℕ} {rows : List PaymentAllocation} {next : ℕ}
    {accounts new : Accounts} (r : IsRefreshed i (with_rows rows next accounts) new) where
  -- A change of the rows of one invoice, refreshed.
  pub moved-IsApplied :
      (p : Payment) (delta : Amount)
      → IsReady accounts
      → accounts.next_id ≤ next
      → IsMoved p.id i delta accounts.allocations rows
      → All (IsOwned accounts.payments) rows
      → All (IsBilled accounts.payments accounts.invoices) rows
      → is_open r.invoice.status ≡ true
      → r.invoice.distributor_id ≡ p.distributor_id
      → r.invoice.customer_id ≡ p.customer_id
      → IsApplied p delta accounts new
  moved-IsApplied p delta ready later moved owned billed open_is d_is c_is = record {
    ready = record {
      settled =
          refreshed-AreSettled r accounts.allocations ready.settled
            (λ k other. unmoved (i == k) _ delta other ∙ sym (moved.to_invoices k));
      owned = subst (λ (a : Accounts). All (IsOwned a.payments) a.allocations) (sym r.stored) owned;
      billed =
          subst (λ (a : Accounts). All (IsBilled a.payments new.invoices) a.allocations)
            (sym r.stored)
            (All-map (IsBilled accounts.payments accounts.invoices)
              (IsBilled accounts.payments new.invoices) (refreshed-IsBilled r) rows billed);
      fresh =
          subst (λ (a : Accounts). All (λ (q : Payment). q.id < a.next_id) a.payments)
            (sym r.stored)
            (All-map (λ (q : Payment). q.id < accounts.next_id) (λ (q : Payment). q.id < next)
              (below_next accounts.next_id next later) accounts.payments ready.fresh);
    };
    books_kept = ap (λ (a : Accounts). a.books) r.stored;
    payments_kept = ap (λ (a : Accounts). a.payments) r.stored;
    later = subst (λ (a : Accounts). accounts.next_id ≤ a.next_id) (sym r.stored) later;
    spent = λ k.
        ap (λ (a : Accounts). sum_by (from_payment k) a.allocations) r.stored
        ∙ moved.from_payments k;
    due_moved = λ type party.
        refreshed-due r accounts.allocations delta ready.settled
          (moved.to_invoices i ∙ moved_on (i == i) _ delta ((==_iff i i).1 refl)) type party
        ∙ ap (λ b. sum_by (due type party) accounts.invoices -ℤ (if b then delta else pos 0))
            (ap (λ b. b && invoice_where type party r.invoice) open_is
              ∙ same_party type party r.invoice p d_is c_is);
  }
