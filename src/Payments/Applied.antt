-- ===== src/Payments/Applied.antt =====
-- What is applied to invoices comes off the payment.
use distribuitor_app.Prelude.{
  ℕ, ◌≡◌, refl, ap, sym, subst, ◌∙◌, Bool, true, false, not, pos, ◌+ℤ◌, ◌-ℤ◌, ◌≤ℤ◌, ltb_ℤ, some,
  List, map, sum_by, ◌==◌, ==_iff, if◌then◌else◌, arith, int_laws, -ℤ_parts, parts_of_eq,
}
use distribuitor_app.Prelude.Results.{ok}
use distribuitor_app.Money.{Amount}
use distribuitor_app.Money.Allocation.{total}
use distribuitor_app.Statuses.Invoices.{
  PartyType, distributor, customer, PaymentStatus, recorded, verified,
}
use distribuitor_app.Finance.{Books}
use distribuitor_app.Finance.Postings.{signed_total}
use distribuitor_app.Settlement.{Payment, PaymentAllocation, Accounts, find_payment}
use distribuitor_app.Settlement.Invariant.{due}
use distribuitor_app.Payments.{payment_is, save_payment}
use distribuitor_app.Payments.Allocate.{AllocationRequest, unallocated_of, is_row}
use distribuitor_app.Payments.Invariant.{
  worth, AreAccounted, IsReady, IsSound, held, payment_where, gap,
}
use distribuitor_app.Payments.Saved.{save_payment-IsSaved, saved-IsSound, saved-IsOwned, saved-gap}
use distribuitor_app.Payments.Booked.{IsBooked, taken, later-IsBooked, updated-IsBooked}
use distribuitor_app.Payments.Receipts.{Keeps}
use distribuitor_app.Payments.Moves.{IsApplied, unmoved}

abbrev pub requested_total : List AllocationRequest → Amount
requested_total requests = total (map (λ (r : AllocationRequest). r.amount) requests)

-- Nothing is applied.
pub nothing-IsApplied :
    (p : Payment) (accounts : Accounts) → IsReady accounts → IsApplied p (pos 0) accounts accounts
nothing-IsApplied p accounts ready = record {
  ready = ready;
  books_kept = refl;
  payments_kept = refl;
  later = omega arith;
  spent = λ k. no_more (p.id == k) _;
  due_moved = λ type party. no_less (payment_where type party p) _;
}
  where
    no_more : (b : Bool) (s : Amount) → s ≡ s +ℤ (if b then pos 0 else pos 0)
    no_more true s = omega int_laws
    no_more false s = omega int_laws

    no_less : (b : Bool) (s : Amount) → s ≡ s -ℤ (if b then pos 0 else pos 0)
    no_less true s = omega int_laws
    no_less false s = omega int_laws

spent_twice :
    (b : Bool) (s s' s'' x y : Amount)
    → s' ≡ s +ℤ (if b then x else pos 0)
    → s'' ≡ s' +ℤ (if b then y else pos 0)
    → s'' ≡ s +ℤ (if b then x +ℤ y else pos 0)
spent_twice true s s' s'' x y e h = omega (int_laws, parts_of_eq e, parts_of_eq h)
spent_twice false s s' s'' x y e h = omega (int_laws, parts_of_eq e, parts_of_eq h)

due_twice :
    (b : Bool) (s s' s'' x y : Amount)
    → s' ≡ s -ℤ (if b then x else pos 0)
    → s'' ≡ s' -ℤ (if b then y else pos 0)
    → s'' ≡ s -ℤ (if b then x +ℤ y else pos 0)
due_twice true s s' s'' x y e h = omega (int_laws, parts_of_eq e, parts_of_eq h)
due_twice false s s' s'' x y e h = omega (int_laws, parts_of_eq e, parts_of_eq h)

pub both-IsApplied :
    (p : Payment) (x y : Amount) (a b c : Accounts)
    → IsApplied p x a b
    → IsApplied p y b c
    → IsApplied p (x +ℤ y) a c
both-IsApplied p x y a b c first second = record {
  ready = second.ready;
  books_kept = second.books_kept ∙ first.books_kept;
  payments_kept = second.payments_kept ∙ first.payments_kept;
  later = let l = first.later in let m = second.later in omega arith;
  spent = λ k. spent_twice (p.id == k) _ _ _ x y (first.spent k) (second.spent k);
  due_moved = λ type party.
      due_twice (payment_where type party p) _ _ _ x y (first.due_moved type party)
        (second.due_moved type party);
}

-- The gap while the payment is not yet written.
gap_shift :
    (b : Bool) (ledger due due' held gap' delta left unallocated : Amount)
    → due' ≡ due -ℤ (if b then delta else pos 0)
    → left ≡ unallocated -ℤ delta
    → gap' +ℤ (if b then unallocated else pos 0)
      ≡ ledger -ℤ (due' -ℤ held) +ℤ (if b then left else pos 0)
    → gap' ≡ ledger -ℤ (due -ℤ held)
gap_shift true l d d' h g x left u a b c =
    omega (int_laws, parts_of_eq a, parts_of_eq b, parts_of_eq c)
gap_shift false l d d' h g x left u a b c = omega (int_laws, parts_of_eq a, parts_of_eq c)

account_shift :
    (b : Bool) (s s' delta left unallocated worth : Amount)
    → b ≡ true
    → s' ≡ s +ℤ (if b then delta else pos 0)
    → left ≡ unallocated -ℤ delta
    → unallocated +ℤ s ≡ worth
    → left +ℤ s' ≡ worth
account_shift true s s' x left u w _ a b c =
    omega (int_laws, parts_of_eq a, parts_of_eq b, parts_of_eq c)
account_shift false s s' x left u w e a b c = absurd cc

abbrev pub with_unallocated : Amount → Payment → Payment
with_unallocated left row = record row { unallocated_amount = left }

pub verified_held :
    (type : PartyType) (party : ℕ) (p : Payment)
    → p.status ≡ verified
    → held type party p ≡ (if payment_where type party p then p.unallocated_amount else pos 0)
verified_held type party p e = rw e refl

left_where :
    (type : PartyType) (party : ℕ) (p : Payment) (left : Amount)
    → payment_where type party (with_unallocated left p) ≡ payment_where type party p
left_where distributor party p left = refl
left_where customer party p left = refl

pub unallocated_is :
    (p : Payment) (accounts : Accounts)
    → find_payment p.id accounts.payments ≡ some p
    → unallocated_of p.id accounts ≡ p.unallocated_amount
unallocated_is p accounts found = rw (unallocated_of, found) refl

pub enough_lem : (o a : Amount) → ltb_ℤ o a ≡ false → pos 0 ≤ℤ o -ℤ a
enough_lem o a e = ground (arith, -ℤ_parts o a)

pub back_lem : (u a : Amount) → u +ℤ a ≡ u -ℤ (pos 0 -ℤ a)
back_lem u a = omega int_laws

pub row_payment : (id p : ℕ) (a : PaymentAllocation) → is_row id p a ≡ true → a.payment_id ≡ p
row_payment id p a e = ground arith

pub verified_lem : (s : PaymentStatus) → not (payment_is s verified) ≡ false → s ≡ verified
verified_lem recorded e = absurd cc
verified_lem verified e = refl
verified_lem PaymentStatus.bounced e = absurd cc
verified_lem PaymentStatus.cancelled e = absurd cc

pub same_ledger :
    (type : PartyType) (party : ℕ) (accounts applied : Accounts)
    → applied.books ≡ accounts.books
    → applied.payments ≡ accounts.payments
    → gap type party applied
      ≡ signed_total type party accounts.books.entries
        -ℤ (sum_by (due type party) applied.invoices -ℤ sum_by (held type party) accounts.payments)
same_ledger type party accounts applied books payments = rw (books, payments) refl

left_taken :
    (type : PartyType) (party : ℕ) (p : Payment) (left : Amount)
    → taken type party (with_unallocated left p) ≡ taken type party p
left_taken distributor party p left = refl
left_taken customer party p left = refl

pub applied-IsBooked :
    (p : Payment) (delta : Amount) (accounts applied : Accounts)
    → IsApplied p delta accounts applied
    → IsBooked accounts.payments accounts.next_id accounts.books
    → IsBooked applied.payments applied.next_id applied.books
applied-IsBooked p delta accounts applied change b =
    subst (λ (x : Books). IsBooked applied.payments applied.next_id x) (sym change.books_kept)
      (subst (λ (ps : List Payment). IsBooked ps applied.next_id accounts.books)
        (sym change.payments_kept)
        (later-IsBooked accounts.payments accounts.next_id applied.next_id accounts.books
          change.later b))

-- What is applied comes off what the payment has left.
pub applied-Keeps :
    (p : Payment) (delta left : Amount) (accounts applied new : Accounts) (row : Payment)
    → IsSound accounts
    → find_payment p.id accounts.payments ≡ some p
    → p.status ≡ verified
    → IsApplied p delta accounts applied
    → left ≡ p.unallocated_amount -ℤ delta
    → save_payment p.id (with_unallocated left) applied ≡ ok (row, new)
    → Keeps accounts new
applied-Keeps p delta left accounts applied new row sound found status_is change left_is e =
    let found_now =
      subst (λ (x : List Payment). find_payment p.id x ≡ some p) (sym change.payments_kept) found in
    let s = save_payment-IsSaved p.id (with_unallocated left) p applied new row found_now e in
    record {
      sound =
          saved-IsSound s found_now (λ y. refl) (λ y. (refl, refl)) accounts.allocations
            change.ready
            (subst (λ (x : List Payment). AreAccounted x accounts.allocations)
              (sym change.payments_kept) sound.accounted)
            (λ j other. change.spent j ∙ sym (unmoved (p.id == j) _ delta other))
            (account_shift (p.id == p.id) _ _ delta left p.unallocated_amount (worth p)
              ((==_iff p.id p.id).1 refl) (change.spent p.id) left_is
              (sound.accounted p.id p found))
            (saved-IsOwned s found_now (λ y. refl) (λ y. (refl, refl)) change.ready.owned (λ v. v));
      gap_kept = λ type party.
          gap_shift (payment_where type party p) _ _ _ _ _ delta left p.unallocated_amount
            (change.due_moved type party) left_is
            (sym (ap (λ x. gap type party new +ℤ x) (verified_held type party p status_is))
              ∙ saved-gap s found_now (λ y. refl) (λ y. (refl, refl)) type party
              ∙ ap (λ x. gap type party applied +ℤ x)
                  (verified_held type party (with_unallocated left p) status_is
                    ∙ ap (λ b. if b then left else pos 0) (left_where type party p left))
              ∙ ap (λ x. x +ℤ (if payment_where type party p then left else pos 0))
                  (same_ledger type party accounts applied change.books_kept change.payments_kept));
      booked_kept = λ b.
          subst (λ (a : Accounts). IsBooked a.payments a.next_id a.books) (sym s.stored)
            (updated-IsBooked p.id (with_unallocated left) p applied.payments applied.next_id
              applied.books found_now (λ y. refl)
              (λ live. (live, λ type party. left_taken type party p left))
              (applied-IsBooked p delta accounts applied change b));
    }
