-- ===== src/Payments/Settling.antt =====
-- `allocate` and `removeAllocation` as whole transactions: the payment is written after its rows.
use distribuitor_app.Prelude.{
  ℕ, ◌≡◌, refl, ap, sym, subst, ◌∙◌, false, not, pos, ◌-ℤ◌, ◌≤ℤ◌, ltb_ℤ, some, List, [], ◌∷◌, map,
  sum_by, find_first, find_first-passes, delete_first, find_first-All, All-delete_first,
  if◌then◌else◌, arith,
}
use mathlib.Core.Option.{some-injective}
use distribuitor_app.Prelude.Results.{ok, not_found, conflict, validation}
use distribuitor_app.Prelude.Results.Inversion.{
  throw_if-ok, bind-ok, option-ok, pair-ok, ok-injective,
}
use distribuitor_app.Decimal.{Decimal}
use distribuitor_app.Decimal.Laws.{
  to_fixed_amount, greater_than_amounts, minus_amounts, plus_amounts,
}
use distribuitor_app.Money.{money, gt, sum, to_string, subtract, add}
use distribuitor_app.Money.Allocation.{sum-total}
use distribuitor_app.Statuses.Invoices.{PartyType, verified}
use distribuitor_app.Settlement.{Payment, PaymentAct, Accounts, find_payment, refresh_settlement}
use distribuitor_app.Settlement.Invariant.{due}
use distribuitor_app.Settlement.Refresh.{refresh_settlement-IsRefreshed}
use distribuitor_app.Payments.{load, payment_is, save_payment}
use distribuitor_app.Payments.Allocate.{
  AllocationRequest, unallocated_of, is_row, allocate_one, allocate_each, allocate_loaded, allocate,
  remove_allocation,
}
use distribuitor_app.Payments.Invariant.{
  IsOwned, IsBilled, IsReady, IsSound, payment_where, load-found,
}
use distribuitor_app.Payments.Saved.{save_payment-IsSaved, found-id}
use distribuitor_app.Payments.Receipts.{Keeps, audited-Keeps, loaded_row}
use distribuitor_app.Payments.Moves.{
  IsMoved, deleted-IsMoved, IsApplied, with_rows, moved-IsApplied,
}
use distribuitor_app.Payments.Allocations.{allocate_one-IsApplied}
use distribuitor_app.Payments.Applied.{
  applied-Keeps, back_lem, both-IsApplied, enough_lem, nothing-IsApplied, requested_total,
  row_payment, unallocated_is, verified_lem, with_unallocated,
}

module _ ⦃dec : Decimal⦄ where
  pub allocate_each-IsApplied :
      (p : Payment) (actor : ℕ) (requests : List AllocationRequest) (accounts new : Accounts)
      → IsReady accounts
      → find_payment p.id accounts.payments ≡ some p
      → p.status ≡ verified
      → allocate_each p actor requests accounts ≡ ok new
      → IsApplied p (requested_total requests) accounts new
  unfolding allocate_each
  allocate_each-IsApplied p actor [] accounts new ready found status_is e =
      subst (λ (a : Accounts). IsApplied p (pos 0) accounts a) (sym (ok-injective e))
        (nothing-IsApplied p accounts ready)
  allocate_each-IsApplied p actor (request ∷ rest) accounts new ready found status_is e =
      let (mid, one, e1) = bind-ok (allocate_one p actor request accounts) _ e in
      let first = allocate_one-IsApplied p actor request accounts mid ready found status_is one in
      let found_now =
        subst (λ (x : List Payment). find_payment p.id x ≡ some p) (sym first.payments_kept)
          found in
      both-IsApplied p request.amount (requested_total rest) accounts mid new first
        (allocate_each-IsApplied p actor rest mid new first.ready found_now status_is e1)

  -- The transaction of an allocation, for the row as it was loaded.
  pub allocate_loaded-Keeps :
      (p : Payment) (requests : List AllocationRequest) (actor : ℕ) (accounts new : Accounts)
      (row : Payment)
      → IsSound accounts
      → find_payment p.id accounts.payments ≡ some p
      → p.status ≡ verified
      → allocate_loaded p requests actor accounts ≡ ok (row, new)
      → Keeps accounts new
        × (row.unallocated_amount ≡ p.unallocated_amount -ℤ requested_total requests)
        × (pos 0 ≤ℤ row.unallocated_amount)
        × ((type : PartyType) (party : ℕ)
            → sum_by (due type party) new.invoices
              ≡ sum_by (due type party) accounts.invoices
                -ℤ (if payment_where type party p then requested_total requests else pos 0))
  unfolding allocate_loaded
  allocate_loaded-Keeps p requests actor accounts new row sound found status_is e =
      let requested = sum (map (λ (r : AllocationRequest). r.amount) requests) in
      let available = money (unallocated_of p.id accounts) in
      let left = to_string (subtract available requested) in
      let (covered, e1) = throw_if-ok (gt requested available) validation _ e in
      let (applied, did, e2) = bind-ok (allocate_each p actor requests accounts) _ e1 in
      let (saved, wrote, e3) = bind-ok (save_payment p.id (with_unallocated left) applied) _ e2 in
      let change =
        allocate_each-IsApplied p actor requests accounts applied sound.ready found status_is did in
      let left_is : left ≡ p.unallocated_amount -ℤ requested_total requests =
        rw (sum-total, minus_amounts, to_fixed_amount, unallocated_is p accounts found) refl in
      let found_now =
        subst (λ (x : List Payment). find_payment p.id x ≡ some p) (sym change.payments_kept)
          found in
      let s =
        save_payment-IsSaved p.id (with_unallocated left) p applied saved.1 saved.0 found_now
          wrote in
      let row_left : row.unallocated_amount ≡ left =
        ap (λ (x : Payment). x.unallocated_amount) ((pair-ok e3).0 ∙ s.returned) in
      let within : ltb_ℤ p.unallocated_amount (requested_total requests) ≡ false =
        rw (sum-total, greater_than_amounts, unallocated_is p accounts found) at covered in
      (
        audited-Keeps PaymentAct.allocated p.id accounts saved.1 new (pair-ok e3).1 (
            applied-Keeps p (requested_total requests) left accounts applied saved.1 saved.0 sound
              found status_is change left_is wrote),
        row_left ∙ left_is,
        subst (λ x. pos 0 ≤ℤ x) (sym (row_left ∙ left_is))
            (enough_lem p.unallocated_amount (requested_total requests) within),
        λ type party.
            ap (λ (a : Accounts). sum_by (due type party) a.invoices) ((pair-ok e3).1)
            ∙ ap (λ (a : Accounts). sum_by (due type party) a.invoices) s.stored
            ∙ change.due_moved type party,
      )

  -- A removal gives the payment back what the allocation took.
  removed-Keeps :
      (p : Payment) (allocation_id : ℕ) (accounts new : Accounts) (row : Payment)
      → IsSound accounts
      → find_payment p.id accounts.payments ≡ some p
      → remove_allocation p.id allocation_id accounts ≡ ok (row, new)
      → Keeps accounts new
  unfolding remove_allocation
  removed-Keeps p allocation_id accounts new row sound found e =
      let (_, _, e1) = bind-ok (load p.id accounts) _ e in
      let (a, there, e2) =
        option-ok (find_first (is_row allocation_id p.id) accounts.allocations) not_found _ e1 in
      let available = money (unallocated_of p.id accounts) in
      let left = to_string (add available (money a.amount)) in
      let rows = delete_first (is_row allocation_id p.id) accounts.allocations in
      let mid = with_rows rows accounts.next_id accounts in
      let (settled, did, e3) = bind-ok (refresh_settlement a.invoice_id mid) _ e2 in
      let (saved, wrote, e4) = bind-ok (save_payment p.id (with_unallocated left) settled.1) _ e3 in
      let left_is : left ≡ p.unallocated_amount -ℤ (pos 0 -ℤ a.amount) =
        rw (plus_amounts, to_fixed_amount, unallocated_is p accounts found)
          (back_lem p.unallocated_amount a.amount) in
      let mine =
        row_payment allocation_id p.id a (find_first-passes _ a accounts.allocations there) in
      let (q, found_q, status_q) =
        find_first-All (IsOwned accounts.payments) _ a accounts.allocations there sound.owned in
      let found_p = subst (λ i. find_payment i accounts.payments ≡ some p) (sym mine) found in
      let status_is =
        subst (λ (x : Payment). x.status ≡ verified) (some-injective q p (sym found_q ∙ found_p))
          status_q in
      let r = refresh_settlement-IsRefreshed a.invoice_id mid settled.1 settled.0 did in
      let (open_is, d_is, c_is) =
        find_first-All (IsBilled accounts.payments accounts.invoices) _ a accounts.allocations there
          sound.billed p r.invoice found_p r.found in
      let moved =
        subst (λ i. IsMoved i a.invoice_id (pos 0 -ℤ a.amount) accounts.allocations rows) mine
          (deleted-IsMoved (is_row allocation_id p.id) a accounts.allocations there) in
      audited-Keeps PaymentAct.allocation_removed p.id accounts saved.1 new (pair-ok e4).1 (
        applied-Keeps p (pos 0 -ℤ a.amount) left accounts settled.1 saved.1 saved.0 sound found
          status_is
          (moved-IsApplied r p (pos 0 -ℤ a.amount) sound.ready (omega arith) moved
            (All-delete_first (IsOwned accounts.payments) _ accounts.allocations sound.owned)
            (All-delete_first (IsBilled accounts.payments accounts.invoices) _ accounts.allocations
              sound.billed)
            open_is d_is c_is)
          left_is wrote)

  pub allocate-Keeps :
      (id : ℕ) (requests : List AllocationRequest) (actor : ℕ) (accounts new : Accounts)
      (row : Payment)
      → IsSound accounts
      → allocate id requests actor accounts ≡ ok (row, new)
      → Keeps accounts new
  unfolding allocate
  allocate-Keeps id requests actor accounts new row sound e =
      let (p, loaded, e1) = bind-ok (load id accounts) _ e in
      let (guard, e2) = throw_if-ok (not (payment_is p.status verified)) conflict _ e1 in
      (allocate_loaded-Keeps p requests actor accounts new row sound
        (loaded_row id accounts p loaded) (verified_lem p.status guard) e2).0

  pub remove_allocation-Keeps :
      (payment_id allocation_id : ℕ) (accounts new : Accounts) (row : Payment)
      → IsSound accounts
      → remove_allocation payment_id allocation_id accounts ≡ ok (row, new)
      → Keeps accounts new
  unfolding remove_allocation
  remove_allocation-Keeps payment_id allocation_id accounts new row sound e =
      let (p, loaded, _) = bind-ok (load payment_id accounts) _ e in
      let found = load-found payment_id accounts p loaded in
      let id_is = found-id payment_id p accounts.payments found in
      removed-Keeps p allocation_id accounts new row sound
        (subst (λ i. find_payment i accounts.payments ≡ some p) (sym id_is) found)
        (subst (λ i. remove_allocation i allocation_id accounts ≡ ok (row, new)) (sym id_is) e)
