-- ===== src/Payments/Receipts.antt =====
-- Recording and editing keep the accounts sound, and the ledger in step with the documents.
use distribuitor_app.Prelude.{
  ℕ, ◌≡◌, refl, ap, sym, subst, ◌∙◌, false, not, pos, ◌+ℤ◌, some, none, Option, int_laws,
  parts_of_eq, +ℤ_zero,
}
use distribuitor_app.Prelude.Results.{ok, database, immutable_record}
use distribuitor_app.Prelude.Results.Inversion.{throw_if-ok, bind-ok, pair-ok}
use distribuitor_app.Decimal.{Decimal}
use distribuitor_app.Decimal.Laws.{plus_amounts, to_fixed_amount}
use distribuitor_app.Money.{Amount}
use distribuitor_app.Statuses.Invoices.{PartyType, PaymentStatus, recorded, verified}
use distribuitor_app.Settlement.{Payment, PaymentAct, Accounts, find_payment}
use distribuitor_app.Payments
use distribuitor_app.Payments.{
  audited_payment, CreatePayment, UpdatePayment, payment_is, load, refuses_payment, new_payment,
  edited, assert_party_visible, save_payment,
}
use distribuitor_app.Payments.Invariant.{worth, IsSound, held, gap, load-found}
use distribuitor_app.Payments.Saved.{
  found-id, saved-IsSound, saved-IsOwned, saved-gap, save_payment-IsSaved, unverified_total,
}
use distribuitor_app.Payments.Booked.{IsBooked, taken, recorded-IsBooked, updated-IsBooked}
use distribuitor_app.Payments.Recorded.{added-IsSound, added-gap}

-- An operation that leaves the accounts sound, and the ledger as far from the documents as it was.
pub record Keeps (accounts new : Accounts) : Type 0 where
  pub sound : IsSound new
  pub gap_kept : (type : PartyType) (party : ℕ) → gap type party new ≡ gap type party accounts
  pub booked_kept :
      IsBooked accounts.payments accounts.next_id accounts.books
      → IsBooked new.payments new.next_id new.books

-- The audit log is in no invariant.
pub audited-Keeps :
    (act : PaymentAct) (id : ℕ) (accounts mid new : Accounts)
    → new ≡ audited_payment act id mid
    → Keeps accounts mid
    → Keeps accounts new
audited-Keeps act id accounts mid new same keeps =
    subst (λ (a : Accounts). Keeps accounts a) (sym same)
      (record {
        sound = record {
          accounted = keeps.sound.accounted;
          ready = record {
            settled = keeps.sound.settled;
            owned = keeps.sound.owned;
            billed = keeps.sound.billed;
            fresh = keeps.sound.fresh;
          };
        };
        gap_kept = keeps.gap_kept;
        booked_kept = keeps.booked_kept;
      })

-- A loaded row is found again by its own id.
pub loaded_row :
    (id : ℕ) (accounts : Accounts) (p : Payment)
    → load id accounts ≡ ok p
    → find_payment p.id accounts.payments ≡ some p
loaded_row id accounts p e =
    let found = load-found id accounts p e in
    subst (λ i. find_payment i accounts.payments ≡ some p)
      (sym (found-id id p accounts.payments found)) found

pub recorded_worth : (p : Payment) → p.status ≡ recorded → worth p ≡ p.amount +ℤ p.tds_amount
recorded_worth p e = rw e refl

-- A payment that is not verified holds nothing for its party.
pub idle_held :
    (type : PartyType) (party : ℕ) (p : Payment)
    → payment_is p.status verified ≡ false
    → held type party p ≡ pos 0
idle_held type party p e = rw e refl

idle_taken :
    (type : PartyType) (party : ℕ) (p : Payment)
    → payment_is p.status verified ≡ false
    → taken type party p ≡ pos 0
idle_taken type party p e = rw e refl

no_shift : {g g' h h' : Amount} → g +ℤ h ≡ g' +ℤ h' → h ≡ pos 0 → h' ≡ pos 0 → g ≡ g'
no_shift e a b = omega (int_laws, parts_of_eq e, parts_of_eq a, parts_of_eq b)

pub recorded_lem : (s : PaymentStatus) → not (payment_is s recorded) ≡ false → s ≡ recorded
recorded_lem recorded e = refl
recorded_lem verified e = absurd cc
recorded_lem PaymentStatus.bounced e = absurd cc
recorded_lem PaymentStatus.cancelled e = absurd cc

module _ ⦃dec : Decimal⦄ where
  pub create-Keeps :
      (now number : ℕ) (input : CreatePayment) (actor : ℕ) (accounts new : Accounts) (row : Payment)
      → IsSound accounts
      → Payments.create now number input actor accounts ≡ ok (row, new)
      → Keeps accounts new
  unfolding Payments.create
  create-Keeps now number input actor accounts new row sound e =
      let made = new_payment now number input actor accounts.next_id in
      let (_, _, e1) =
        bind-ok (assert_party_visible input.distributor_id input.customer_id accounts.books) _ e in
      let (_, e2) = throw_if-ok (refuses_payment made) database _ e1 in
      let whole_is : made.unallocated_amount ≡ made.amount +ℤ made.tds_amount =
        rw (plus_amounts, to_fixed_amount, to_fixed_amount, to_fixed_amount) refl in
      subst (λ (a : Accounts). Keeps accounts a) (sym (pair-ok e2).1)
        (record {
          sound = added-IsSound made accounts sound refl refl whole_is;
          gap_kept = added-gap made accounts sound refl refl whole_is;
          booked_kept =
              recorded-IsBooked made accounts.payments accounts.next_id accounts.books refl refl;
        })

  edited_whole :
      (input : UpdatePayment) (p : Payment)
      → (edited input p p).unallocated_amount
        ≡ (edited input p p).amount +ℤ (edited input p p).tds_amount
  edited_whole input p = go input.amount input.tds_amount
    where
      go :
          (amount tds : Option Amount)
          → let e = edited (record input { amount = amount; tds_amount = tds }) p p in
            e.unallocated_amount ≡ e.amount +ℤ e.tds_amount
      go none none = rw (plus_amounts, to_fixed_amount) refl
      go none (some t) = rw (plus_amounts, to_fixed_amount, to_fixed_amount) refl
      go (some a) none = rw (plus_amounts, to_fixed_amount, to_fixed_amount) refl
      go (some a) (some t) =
          rw (plus_amounts, to_fixed_amount, to_fixed_amount, to_fixed_amount) refl

  update_loaded-Keeps :
      (input : UpdatePayment) (p : Payment) (accounts new : Accounts) (row : Payment)
      → IsSound accounts
      → find_payment p.id accounts.payments ≡ some p
      → p.status ≡ recorded
      → Payments.update_loaded input p accounts ≡ ok (row, new)
      → Keeps accounts new
  unfolding Payments.update_loaded
  update_loaded-Keeps input p accounts new row sound found status_is e =
      let (saved, did, e1) = bind-ok (save_payment p.id (edited input p) accounts) _ e in
      let s = save_payment-IsSaved p.id (edited input p) p accounts saved.1 saved.0 found did in
      let idle : payment_is p.status verified ≡ false = rw status_is refl in
      let unused =
        unverified_total p.id p accounts.payments accounts.allocations found idle sound.owned in
      let worth_is = recorded_worth (edited input p p) status_is in
      audited-Keeps PaymentAct.updated p.id accounts saved.1 new (pair-ok e1).1 (record {
        sound =
            saved-IsSound s found (λ y. refl) (λ y. (refl, refl)) accounts.allocations sound.ready
              sound.accounted (λ j e. refl)
              (ap (λ x. (edited input p p).unallocated_amount +ℤ x) unused
                ∙ +ℤ_zero _
                ∙ edited_whole input p
                ∙ sym worth_is)
              (saved-IsOwned s found (λ y. refl) (λ y. (refl, refl)) sound.owned (λ v. v));
        gap_kept = λ type party.
            no_shift (saved-gap s found (λ y. refl) (λ y. (refl, refl)) type party)
              (idle_held type party p idle) (idle_held type party (edited input p p) idle);
        booked_kept = λ b.
            subst (λ (a : Accounts). IsBooked a.payments a.next_id a.books) (sym s.stored)
              (updated-IsBooked p.id (edited input p) p accounts.payments accounts.next_id
                accounts.books found (λ y. refl)
                (λ live. (
                  live,
                  λ type party.
                      idle_taken type party (edited input p p) idle
                      ∙ sym (idle_taken type party p idle),
                ))
                b);
      })

  pub update-Keeps :
      (id : ℕ) (input : UpdatePayment) (accounts new : Accounts) (row : Payment)
      → IsSound accounts
      → Payments.update id input accounts ≡ ok (row, new)
      → Keeps accounts new
  unfolding Payments.update
  update-Keeps id input accounts new row sound e =
      let (p, loaded, e1) = bind-ok (load id accounts) _ e in
      let (guard, e2) = throw_if-ok (not (payment_is p.status recorded)) immutable_record _ e1 in
      update_loaded-Keeps input p accounts new row sound (loaded_row id accounts p loaded)
        (recorded_lem p.status guard) e2
