-- ===== src/Payments/Restored.antt =====
-- What a bounce leaves of the payment, and why it keeps the accounts sound and in step.
use distribuitor_app.Prelude.{
  ℕ, ◌≡◌, refl, ap, sym, subst, ◌∙◌, inl, inr, Bool, true, false, pos, ◌+ℤ◌, ◌-ℤ◌, some, List, [],
  ◌∷◌, All, sum_by, select, ◌==◌, if◌then◌else◌, arith, int_laws, parts_of_eq, zero_+ℤ, Bool-cases,
}
use distribuitor_app.Prelude.Results.{ok}
use distribuitor_app.Decimal.{Decimal}
use distribuitor_app.Money.{Amount}
use distribuitor_app.Statuses.Invoices.{PartyType, PaymentStatus, verified}
use distribuitor_app.Finance.{Books}
use distribuitor_app.Payments.{save_payment}
use distribuitor_app.Finance.Postings.{signed_total}
use distribuitor_app.Finance.Rows.{entry_share, signed_total-share}
use distribuitor_app.Settlement.{Payment, PaymentAllocation, Accounts, find_payment}
use distribuitor_app.Payments.Bounce.{is_original_of, marked_bounced}
use distribuitor_app.Payments.Invariant.{
  from_payment, IsSound, AreAccounted, worth, gap, payment_where, payment_share,
}
use distribuitor_app.Payments.Saved.{
  update-IsOwned, IsSaved, save_payment-IsSaved, saved-IsSound, saved-gap, All-zip,
}
use distribuitor_app.Payments.Released.{is_of, released_total, released_total-from, none_from}
use distribuitor_app.Payments.Moves.{IsApplied, unmoved}
use distribuitor_app.Payments.Applied.{verified_held, same_ledger}
use distribuitor_app.Payments.Booked.{IsBooked, taken, is_live, updated-IsBooked, later-IsBooked}
use distribuitor_app.Payments.Contraed.{AreContraed, select-share}

-- A payment that is not live any more owes its party nothing; here is what that leaves in step.
bounce_shift :
    (w : Bool)
    (ledger ledger' due due' held gap' taken_off given unallocated allocated worth : Amount)
    → ledger' ≡ ledger -ℤ taken_off
    → taken_off ≡ pos 0 -ℤ (if w then worth else pos 0)
    → due' ≡ due -ℤ (if w then given else pos 0)
    → given ≡ pos 0 -ℤ allocated
    → unallocated +ℤ allocated ≡ worth
    → gap' +ℤ (if w then unallocated else pos 0) ≡ ledger' -ℤ (due' -ℤ held) +ℤ pos 0
    → gap' ≡ ledger -ℤ (due -ℤ held)
bounce_shift true l l' d d' h g t x u s w a b c e k m = omega (
  int_laws,
  parts_of_eq a,
  parts_of_eq b,
  parts_of_eq c,
  parts_of_eq e,
  parts_of_eq k,
  parts_of_eq m,
)
bounce_shift false l l' d d' h g t x u s w a b c e k m =
    omega (int_laws, parts_of_eq a, parts_of_eq b, parts_of_eq c, parts_of_eq m)

not_of :
    (id : ℕ) (rows : List PaymentAllocation)
    → select (is_of id) rows ≡ []
    → All (λ (a : PaymentAllocation). id == a.payment_id ≡ false) rows
not_of id [] e = tt
not_of id (a ∷ rest) e = elim (Bool-cases (is_of id a)) [
  | inl mine ↦ absurd (let h = rw mine at e in cc)
  | inr other ↦ (flipped id a.payment_id other, not_of id rest (rw other at e))
]
  where
    flipped : (a b : ℕ) → b == a ≡ false → a == b ≡ false
    flipped a b e = ground arith

verified_worth : (p : Payment) → p.status ≡ verified → worth p ≡ p.amount +ℤ p.tds_amount
verified_worth p e = rw e refl

pub verified_taken :
    (type : PartyType) (party : ℕ) (p : Payment)
    → p.status ≡ verified
    → taken type party p ≡ (if payment_where type party p then p.amount +ℤ p.tds_amount else pos 0)
verified_taken type party p e = rw e refl

pub restored_shift : (s t share : Amount) → t ≡ pos 0 -ℤ share → s -ℤ t ≡ s +ℤ share
restored_shift s t share e = omega (int_laws, parts_of_eq e)

-- What a bounce of the payment `p` has done.
pub record IsRestored (id : ℕ) (p : Payment) (accounts : Accounts) (row : Payment) (new : Accounts)
    : Type 0 where
  pub found : find_payment id accounts.payments ≡ some p
  pub was_verified : p.status ≡ verified
  pub bounced : row.status ≡ PaymentStatus.bounced
  pub nothing_left : row.unallocated_amount ≡ pos 0
  pub no_allocations : select (is_of id) new.allocations ≡ []
  pub given_back :
      (type : PartyType) (party : ℕ)
      → signed_total type party new.books.entries
        ≡ signed_total type party accounts.books.entries
          +ℤ payment_share type party p (p.amount +ℤ p.tds_amount)

clash : (b : Bool) → b ≡ true → b ≡ false → ⊥
clash true e f = cc
clash false e f = cc

module _ ⦃dec : Decimal⦄ (now : ℕ) (p : Payment) (accounts released saved : Accounts)
    (books : Books) (row : Payment) (sound : IsSound accounts)
    (booked : IsBooked accounts.payments accounts.next_id accounts.books)
    (found : find_payment p.id accounts.payments ≡ some p) (status_is : p.status ≡ verified)
    (c : AreContraed (select (is_original_of p.id) accounts.books.entries) accounts.books books)
    (change : IsApplied p
      (released_total (select (is_of p.id) accounts.allocations))
      (record accounts { books = books })
      released)
    (empty : select (is_of p.id) released.allocations ≡ [])
    (wrote : save_payment p.id (marked_bounced now) released ≡ ok (row, saved)) where
  found_now : find_payment p.id released.payments ≡ some p
  found_now =
      subst (λ (x : List Payment). find_payment p.id x ≡ some p) (sym change.payments_kept) found

  written : IsSaved p.id (marked_bounced now) p released row saved
  written = save_payment-IsSaved p.id (marked_bounced now) p released saved row found_now wrote

  pub bounced-IsSound : IsSound saved
  bounced-IsSound =
      saved-IsSound written found_now (λ y. refl) (λ y. (refl, refl)) accounts.allocations
        change.ready
        (subst (λ (x : List Payment). AreAccounted x accounts.allocations)
          (sym change.payments_kept) sound.accounted)
        (λ j other. change.spent j ∙ sym (unmoved (p.id == j) _ _ other))
        (ap (λ x. pos 0 +ℤ x) (none_from p.id released.allocations empty) ∙ zero_+ℤ _)
        (All-zip
          (λ a owned other.
            update-IsOwned p.id (marked_bounced now) released.payments a (λ y. refl)
              (λ q e hit v. absurd (clash (p.id == a.payment_id) hit other)) owned)
          released.allocations change.ready.owned (not_of p.id released.allocations empty))

  pub bounced-gap : (type : PartyType) (party : ℕ) → gap type party saved ≡ gap type party accounts
  bounced-gap type party =
      let live : is_live p.status ≡ true = rw status_is refl in
      bounce_shift (payment_where type party p) _ _ _ _ _ _ _
        (released_total (select (is_of p.id) accounts.allocations)) p.unallocated_amount
        (sum_by (from_payment p.id) accounts.allocations) (p.amount +ℤ p.tds_amount)
        (signed_total-share type party books.entries
          ∙ c.shares type party
          ∙ ap
              (λ x.
                x
                -ℤ sum_by (entry_share type party)
                    (select (is_original_of p.id) accounts.books.entries))
              (sym (signed_total-share type party accounts.books.entries)))
        (select-share p.id type party accounts.books.entries
          ∙ booked.credited p.id p found live type party
          ∙ ap (λ x. pos 0 -ℤ x) (verified_taken type party p status_is))
        (change.due_moved type party) (released_total-from p.id accounts.allocations)
        (sound.accounted p.id p found ∙ verified_worth p status_is)
        (sym (ap (λ x. gap type party saved +ℤ x) (verified_held type party p status_is))
          ∙ saved-gap written found_now (λ y. refl) (λ y. (refl, refl)) type party
          ∙ ap (λ x. x +ℤ pos 0)
              (same_ledger type party (record accounts { books = books }) released change.books_kept
                change.payments_kept))

  contraed-IsBooked : IsBooked accounts.payments accounts.next_id books
  contraed-IsBooked = record {
    entries = c.entries booked.entries;
    dated = c.dated accounts.next_id booked.dated;
    credited = λ id q e live type party.
        c.originals id type party ∙ booked.credited id q e live type party;
  }

  pub bounced-IsBooked : IsBooked saved.payments saved.next_id saved.books
  bounced-IsBooked =
      subst (λ (a : Accounts). IsBooked a.payments a.next_id a.books) (sym written.stored)
        (updated-IsBooked p.id (marked_bounced now) p released.payments released.next_id
          released.books found_now (λ y. refl) (λ live. absurd (clash false live refl))
          (subst (λ (b : Books). IsBooked released.payments released.next_id b)
            (sym change.books_kept)
            (subst (λ (ps : List Payment). IsBooked ps released.next_id books)
              (sym change.payments_kept)
              (later-IsBooked accounts.payments accounts.next_id released.next_id books change.later
                contraed-IsBooked))))
