-- ===== src/Settlement/Invariant.antt =====
-- Invoices and the rows that settle them agree, and a refresh after a change of the allocations of one
-- invoice keeps that.
use distribuitor_app.Prelude.{
  ℕ, ◌≡◌, refl, ap, sym, subst, ◌∙◌, inl, inr, Bool, true, false, ◌&&◌, pos, ◌+ℤ◌, ◌-ℤ◌, ◌≤ℤ◌,
  ltb_ℤ, ◌||◌, +ℤ_parts, -ℤ_parts, parts_of_eq, some, List, sum_by, find_first-passes,
  find_first-update_self, find_first-update_ne, sum_by-update_first, ◌==◌, ==_iff, if◌then◌else◌,
  arith, int_laws, Bool-cases,
}
use mathlib.Core.Option.{some-injective}
use distribuitor_app.Decimal.{Decimal}
use distribuitor_app.Money.{Amount}
use distribuitor_app.Statuses.Invoices.{PartyType, distributor, customer}
use distribuitor_app.Finance.{holds}
use distribuitor_app.Settlement.{
  PaymentAllocation, Invoice, TaxNote, Accounts, find_invoice, update_invoice_row, settled_as,
  refreshed,
}
use distribuitor_app.Settlement.Refresh.{
  to_invoice, note_credit, is_open, IsRefreshed, refreshed-paid, refreshed-credited,
  refreshed-is_open,
}

-- The columns of the invoice `id` are the sums of the rows that name it.
pub record IsSettledBy (allocations : List PaymentAllocation) (notes : List TaxNote) (id : ℕ)
    (v : Invoice) : Type 0 where
  pub paid : v.amount_paid ≡ sum_by (to_invoice id) allocations
  pub credited : v.amount_credited ≡ sum_by (note_credit id) notes
  pub outstanding : v.amount_outstanding ≡ v.grand_total -ℤ v.amount_paid -ℤ v.amount_credited
  pub not_over_settled : pos 0 ≤ℤ v.amount_outstanding

abbrev pub AreSettled : List Invoice → List PaymentAllocation → List TaxNote → Type 0
AreSettled invoices allocations notes =
    (id : ℕ) (v : Invoice) → find_invoice id invoices ≡ some v → IsSettledBy allocations notes id v

abbrev pub invoice_where : PartyType → ℕ → Invoice → Bool
invoice_where distributor id v = holds v.distributor_id id
invoice_where customer id v = holds v.customer_id id

-- What a party owes on an invoice.
abbrev pub due : PartyType → ℕ → Invoice → Amount
due type id v = if is_open v.status && invoice_where type id v then v.amount_outstanding else pos 0

invoice_where-settled_as :
    (type : PartyType) (id : ℕ) (columns v : Invoice)
    → invoice_where type id (settled_as columns v) ≡ invoice_where type id v
invoice_where-settled_as distributor id columns v = refl
invoice_where-settled_as customer id columns v = refl

fits_lem :
    (g p c : Amount)
    → ltb_ℤ g (p +ℤ c) || (ltb_ℤ p (pos 0) || ltb_ℤ g (pos 0)) ≡ false
    → pos 0 ≤ℤ g -ℤ p -ℤ c
fits_lem g p c e = ground (arith, +ℤ_parts p c, -ℤ_parts g p, -ℤ_parts (g -ℤ p) c)

due_shift :
    (b b' : Bool) (s s' g p c p' c' o o' delta : Amount)
    → s' +ℤ (if b then o else pos 0) ≡ s +ℤ (if b' then o' else pos 0)
    → b' ≡ b
    → o ≡ g -ℤ p -ℤ c
    → o' ≡ g -ℤ p' -ℤ c'
    → p' ≡ p +ℤ delta
    → c' ≡ c
    → s' ≡ s -ℤ (if b then delta else pos 0)
due_shift true true s s' g p c p' c' o o' delta h e k l m n =
    omega (int_laws, parts_of_eq h, parts_of_eq k, parts_of_eq l, parts_of_eq m, parts_of_eq n)
due_shift true false s s' g p c p' c' o o' delta h e k l m n = absurd cc
due_shift false true s s' g p c p' c' o o' delta h e k l m n = absurd cc
due_shift false false s s' g p c p' c' o o' delta h e k l m n = omega (int_laws, parts_of_eq h)

module _ ⦃dec : Decimal⦄ {i : ℕ} {mid new : Accounts} (r : IsRefreshed i mid new) where
  abbrev pub stored_columns : Invoice → Invoice
  stored_columns = settled_as (refreshed r.invoice mid)

  abbrev pub after : Invoice
  after = stored_columns r.invoice

  abbrev pub rows_after : List Invoice
  rows_after = update_invoice_row i stored_columns mid.invoices

  invoice-id : r.invoice.id ≡ i
  invoice-id = (==_iff r.invoice.id i).0 (find_first-passes _ r.invoice mid.invoices r.found)

  after-IsSettledBy : IsSettledBy mid.allocations mid.tax_notes i after
  after-IsSettledBy = record {
    paid =
        subst (λ k. after.amount_paid ≡ sum_by (to_invoice k) mid.allocations) invoice-id
          (refreshed-paid r.invoice mid);
    credited =
        subst (λ k. after.amount_credited ≡ sum_by (note_credit k) mid.tax_notes) invoice-id
          (refreshed-credited r.invoice mid);
    outstanding = refl;
    not_over_settled = fits_lem _ _ _ r.fits;
  }

  pub found-after :
      (j : ℕ) (v : Invoice)
      → find_invoice j new.invoices ≡ some v
      → (i == j ≡ true → v ≡ after) × (i == j ≡ false → find_invoice j mid.invoices ≡ some v)
  found-after j v e =
      let e' : find_invoice j rows_after ≡ some v =
        subst (λ (a : Accounts). find_invoice j a.invoices ≡ some v) r.stored e in
      (
        λ same.
            let ji = (==_iff i j).0 same in
            sym (
              some-injective after v (
                sym (
                  find_first-update_self (λ (x : Invoice). x.id) i stored_columns r.invoice
                    mid.invoices (λ y. refl) r.found)
                ∙ subst (λ k. find_invoice k rows_after ≡ some v) (sym ji) e')),
        λ other.
            sym (
              find_first-update_ne (λ (x : Invoice). x.id) j i stored_columns (λ y. refl) other
                mid.invoices)
            ∙ e',
      )

  -- A refresh of the one invoice whose allocations have changed leaves every invoice settled.
  pub refreshed-AreSettled :
      (old : List PaymentAllocation)
      → AreSettled mid.invoices old mid.tax_notes
      → ((k : ℕ)
          → i == k ≡ false
          → sum_by (to_invoice k) old ≡ sum_by (to_invoice k) mid.allocations)
      → AreSettled new.invoices new.allocations new.tax_notes
  refreshed-AreSettled old settled same j v e = rw (r.stored) (elim (Bool-cases (i == j)) [
    | inl this ↦
        subst (λ k. IsSettledBy mid.allocations mid.tax_notes k v) ((==_iff i j).0 this)
          (subst (λ x. IsSettledBy mid.allocations mid.tax_notes i x)
            (sym ((found-after j v e).0 this)) after-IsSettledBy)
    | inr other ↦
        let before = settled j v ((found-after j v e).1 other) in
        record {
          paid = before.paid ∙ same j other;
          credited = before.credited;
          outstanding = before.outstanding;
          not_over_settled = before.not_over_settled;
        }
  ])

  -- What is owed in all goes down by what the allocations of the invoice have gone up by.
  pub refreshed-due :
      (old : List PaymentAllocation) (delta : Amount)
      → AreSettled mid.invoices old mid.tax_notes
      → sum_by (to_invoice i) mid.allocations ≡ sum_by (to_invoice i) old +ℤ delta
      → (type : PartyType) (party : ℕ)
      → sum_by (due type party) new.invoices
        ≡ sum_by (due type party) mid.invoices
          -ℤ (if is_open r.invoice.status && invoice_where type party r.invoice
              then delta
              else pos 0)
  refreshed-due old delta settled moved type party =
      let before = settled i r.invoice r.found in
      let now = after-IsSettledBy in
      let open_now = refreshed-is_open r.invoice mid in
      let shift =
        sum_by-update_first (due type party) (λ (x : Invoice). x.id == i) stored_columns r.invoice
          mid.invoices r.found in
      rw r.stored (
        due_shift (is_open r.invoice.status && invoice_where type party r.invoice)
          (is_open after.status && invoice_where type party after) _ _ r.invoice.grand_total
          r.invoice.amount_paid r.invoice.amount_credited after.amount_paid after.amount_credited
          r.invoice.amount_outstanding after.amount_outstanding delta shift
          (ap (λ (x : Bool). is_open after.status && x)
              (invoice_where-settled_as type party (refreshed r.invoice mid) r.invoice)
            ∙ ap (λ (x : Bool). x && invoice_where type party r.invoice) open_now)
          before.outstanding now.outstanding
          (now.paid ∙ moved ∙ ap (λ x. x +ℤ delta) (sym before.paid))
          (now.credited ∙ sym before.credited))
