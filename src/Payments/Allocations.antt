-- ===== src/Payments/Allocations.antt =====
-- Allocating takes from the payment what it settles on the invoices, within both.
use distribuitor_app.Prelude.{
  ℕ, suc, ◌≤◌, ◌≡◌, refl, ap, sym, subst, ◌∙◌, inl, inr, Bool, true, false, not, ◌&&◌, some, none,
  Option, List, ◌∷◌, All, find_first, find_first-passes, update_first, All-update_first, ==_iff,
  arith, Option-cases,
}
use mathlib.Core.Option.{some-injective}
use distribuitor_app.Prelude.Results.{ok, not_found, conflict, validation, database}
use distribuitor_app.Prelude.Results.Inversion.{throw_if-ok, bind-ok, option-ok, ok-injective}
use distribuitor_app.Decimal.{Decimal}
use distribuitor_app.Decimal.Laws.{to_fixed_amount}
use distribuitor_app.Money.{Amount, Money, money, gt}
use distribuitor_app.Statuses.Invoices.{verified, InvoiceStatus, invoice_is}
use distribuitor_app.Settlement.{
  Payment, PaymentAllocation, Invoice, Accounts, find_payment, find_invoice, refresh_settlement,
}
use distribuitor_app.Settlement.Refresh.{is_open, refresh_settlement-IsRefreshed}
use distribuitor_app.Payments.Allocate.{
  AllocationRequest, same_id, refuses_allocation, is_pair, tds_portion_of, grown, new_allocation,
  put_allocation, allocate_one,
}
use distribuitor_app.Payments.Invariant.{IsOwned, IsBilled, IsReady}
use distribuitor_app.Payments.Moves.{
  IsMoved, added-IsMoved, grown-IsMoved, IsApplied, with_rows, moved-IsApplied,
}

-- What `put_allocation` has done.
record IsPut (p : Payment) (i : ℕ) (delta : Amount) (accounts put : Accounts) : Type 0 where
  rows : List PaymentAllocation
  next : ℕ
  stored : put ≡ with_rows rows next accounts
  later : accounts.next_id ≤ next
  moved : IsMoved p.id i delta accounts.allocations rows
  owned : All (IsOwned accounts.payments) rows
  billed : All (IsBilled accounts.payments accounts.invoices) rows

-- An open invoice of the party of a payment.
abbrev pub IsMatched : Payment → Invoice → Type 0
IsMatched p v =
    (is_open v.status ≡ true)
    × (v.distributor_id ≡ p.distributor_id)
    × (v.customer_id ≡ p.customer_id)

IsMatched-as : (p q : Payment) (v w : Invoice) → p ≡ q → v ≡ w → IsMatched p v → IsMatched q w
IsMatched-as p q v w same_p same_v m =
    subst (λ (w : Invoice). IsMatched q w) same_v (subst (λ (q : Payment). IsMatched q v) same_p m)

pair_parts :
    (p i : ℕ) (a : PaymentAllocation)
    → is_pair p i a ≡ true
    → (a.payment_id ≡ p) × (a.invoice_id ≡ i)
pair_parts p i a e = ground arith

id_parts : (a b : Option ℕ) → same_id a b ≡ true → a ≡ b
id_parts none none e = refl
id_parts (some a) (some b) e = ap (λ x. some x) ((==_iff a b).0 e)
id_parts none (some b) e = absurd cc
id_parts (some a) none e = absurd cc

open_lem :
    (s : InvoiceStatus)
    → invoice_is s InvoiceStatus.draft ≡ false
    → invoice_is s InvoiceStatus.cancelled ≡ false
    → is_open s ≡ true
open_lem s d c = rw (d, c) refl

both_lem : (a b : Bool) → not (a && b) ≡ false → (a ≡ true) × (b ≡ true)
both_lem a b e = ground arith

module _ ⦃dec : Decimal⦄ where
  put_allocation-IsPut :
      (p : Payment) (v : Invoice) (i : ℕ) (delta : Amount) (portion : Money) (actor : ℕ)
      (accounts put : Accounts)
      → IsReady accounts
      → find_payment p.id accounts.payments ≡ some p
      → p.status ≡ verified
      → find_invoice i accounts.invoices ≡ some v
      → is_open v.status ≡ true
      → v.distributor_id ≡ p.distributor_id
      → v.customer_id ≡ p.customer_id
      → put_allocation p.id i (money delta) portion actor accounts ≡ ok put
      → IsPut p i delta accounts put
  put_allocation-IsPut p v i delta portion actor accounts put ready found status_is there open_is
        d_is c_is e =
      elim (Option-cases (find_first (is_pair p.id i) accounts.allocations)) [
        | inl new ↦
            let row = new_allocation accounts.next_id p.id i (money delta) portion actor in
            let (_, done) =
              throw_if-ok (refuses_allocation row) database _ (rw (put_allocation, new) at e) in
            record {
              rows = row ∷ accounts.allocations;
              next = suc accounts.next_id;
              stored = ok-injective done;
              later = omega arith;
              moved =
                  subst (λ d. IsMoved p.id i d accounts.allocations (row ∷ accounts.allocations))
                    (to_fixed_amount delta) (added-IsMoved row accounts.allocations);
              owned = ((p, found, status_is), ready.owned);
              billed = (
                λ q w eq ew.
                    IsMatched-as p q v w (some-injective p q (sym found ∙ eq))
                      (some-injective v w (sym there ∙ ew)) (open_is, d_is, c_is),
                ready.billed,
              );
            }
        | inr (x, existing) ↦
            let f = grown (money delta) portion in
            let (_, done) =
              throw_if-ok (refuses_allocation (f x)) database _
                (rw (put_allocation, existing) at e) in
            let (p_is, i_is) =
              pair_parts p.id i x
                (find_first-passes (is_pair p.id i) x accounts.allocations existing) in
            record {
              rows = update_first (is_pair p.id i) f accounts.allocations;
              next = accounts.next_id;
              stored = ok-injective done;
              later = omega arith;
              moved =
                  subst
                    (λ j.
                      IsMoved j i delta accounts.allocations
                        (update_first (is_pair p.id i) f accounts.allocations))
                    p_is
                    (subst
                      (λ k.
                        IsMoved x.payment_id k delta accounts.allocations
                          (update_first (is_pair p.id i) f accounts.allocations))
                      i_is
                      (grown-IsMoved (is_pair p.id i) delta portion x accounts.allocations
                        existing));
              owned =
                  All-update_first (IsOwned accounts.payments) (is_pair p.id i) f (λ a o. o)
                    accounts.allocations ready.owned;
              billed =
                  All-update_first (IsBilled accounts.payments accounts.invoices) (is_pair p.id i) f
                    (λ a b. b) accounts.allocations ready.billed;
            }
      ]

  applied_lem :
      (p : Payment) (v : Invoice) (i : ℕ) (delta : Amount) (portion : Money) (actor : ℕ)
      (accounts put mid new : Accounts) (status : InvoiceStatus)
      → IsReady accounts
      → find_payment p.id accounts.payments ≡ some p
      → p.status ≡ verified
      → find_invoice i accounts.invoices ≡ some v
      → IsMatched p v
      → put_allocation p.id i (money delta) portion actor accounts ≡ ok put
      → refresh_settlement i put ≡ ok (status, mid)
      → new ≡ mid
      → IsApplied p delta accounts new
  applied_lem p v i delta portion actor accounts put mid new status ready found status_is there
        matched did refreshed new_is =
      let h =
        put_allocation-IsPut p v i delta portion actor accounts put ready found status_is there
          matched.0 matched.1 matched.2 did in
      let r =
        refresh_settlement-IsRefreshed i (with_rows h.rows h.next accounts) mid status (
          subst (λ (a : Accounts). refresh_settlement i a ≡ ok (status, mid)) h.stored refreshed) in
      let (open_is, d_is, c_is) =
        IsMatched-as p p v r.invoice refl (some-injective v r.invoice (sym there ∙ r.found))
          matched in
      subst (λ (a : Accounts). IsApplied p delta accounts a) (sym new_is)
        (moved-IsApplied r p delta ready h.later h.moved h.owned h.billed open_is d_is c_is)

  -- One allocation settles that much of the invoice, which is no more than was outstanding.
  pub allocate_one-IsApplied :
      (p : Payment) (actor : ℕ) (request : AllocationRequest) (accounts new : Accounts)
      → IsReady accounts
      → find_payment p.id accounts.payments ≡ some p
      → p.status ≡ verified
      → allocate_one p actor request accounts ≡ ok new
      → IsApplied p request.amount accounts new
  unfolding allocate_one
  allocate_one-IsApplied p actor request accounts new ready found status_is e =
      let i = request.invoice_id in
      let (v, there, e1) = option-ok (find_invoice i accounts.invoices) not_found _ e in
      let (issued, e2) = throw_if-ok (invoice_is v.status InvoiceStatus.draft) conflict _ e1 in
      let (current, e3) = throw_if-ok (invoice_is v.status InvoiceStatus.cancelled) conflict _ e2 in
      let (party, e4) =
        throw_if-ok
          (not (same_id v.distributor_id p.distributor_id && same_id v.customer_id p.customer_id))
          validation _ e3 in
      let (_, e5) =
        throw_if-ok (gt (money request.amount) (money v.amount_outstanding)) validation _ e4 in
      let (portion, _, e6) = bind-ok (tds_portion_of p (money request.amount)) _ e5 in
      let (put, did, e7) =
        bind-ok (put_allocation p.id i (money request.amount) portion actor accounts) _ e6 in
      let (settled, refreshed, e8) = bind-ok (refresh_settlement i put) _ e7 in
      let (d_same, c_same) =
        both_lem (same_id v.distributor_id p.distributor_id) (same_id v.customer_id p.customer_id)
          party in
      applied_lem p v i request.amount portion actor accounts put settled.1 new settled.0 ready
        found status_is there
        (
          open_lem v.status issued current,
          id_parts v.distributor_id p.distributor_id d_same,
          id_parts v.customer_id p.customer_id c_same,
        )
        did refreshed (ok-injective e8)
