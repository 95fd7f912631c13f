-- ===== src/Payments/Verification.antt =====
-- Verification: what the ledger is credited with, by whom, and what that leaves in step.
use distribuitor_app.Prelude.{
  ℕ, ◌<◌, find_first-All, ◌≡◌, refl, ap, sym, subst, ◌∙◌, false, not, pos, ◌+ℤ◌, ◌-ℤ◌, ◌≤ℤ◌, some,
  ◌==◌, if◌then◌else◌, +ℤ_zero,
}
use distribuitor_app.Prelude.Results.{ok, database, conflict, self_approval}
use distribuitor_app.Prelude.Results.Inversion.{throw_if-ok, bind-ok, option-ok, pair-ok}
use distribuitor_app.Decimal.{Decimal}
use distribuitor_app.Statuses.Invoices.{PartyType, distributor, customer, recorded, verified}
use distribuitor_app.Finance.Rows.{HasOneParty}
use distribuitor_app.Finance.Postings.{signed_total}
use distribuitor_app.Settlement.{Payment, PaymentAct, Accounts, find_payment, update_payment_row}
use distribuitor_app.Payments
use distribuitor_app.Payments.{
  payment_is, load, refuses_payment, save_payment, credit_post, post_tds, post_credits,
  marked_verified,
}
use distribuitor_app.Payments.Invariant.{IsSound, held, payment_where, payment_share, gap}
use distribuitor_app.Payments.Saved.{
  save_payment-IsSaved, saved-IsSound, saved-IsOwned, saved-gap, unverified_total,
}
use distribuitor_app.Payments.Booked.{IsBooked, taken}
use distribuitor_app.Payments.Credited.{credits-IsCredited, verified-IsBooked}
use distribuitor_app.Payments.Receipts.{
  Keeps, audited-Keeps, loaded_row, idle_held, recorded_lem, recorded_worth,
}
use distribuitor_app.Payments.Parts.{allowed_parts, nonneg_lem, verified_shift, credits_total}

module _ ⦃dec : Decimal⦄ where
  marked_taken :
      (now actor : ℕ) (p : Payment) (type : PartyType) (party : ℕ)
      → taken type party (marked_verified now actor p)
        ≡ payment_share type party p (p.amount +ℤ p.tds_amount)
  marked_taken now actor p distributor party = refl
  marked_taken now actor p customer party = refl

  marked_held :
      (now actor : ℕ) (type : PartyType) (party : ℕ) (p : Payment)
      → held type party (marked_verified now actor p)
        ≡ (if payment_where type party p then p.unallocated_amount else pos 0)
  marked_held now actor distributor party p = refl
  marked_held now actor customer party p = refl

  verify_loaded-Keeps :
      (now : ℕ) (p : Payment) (actor : ℕ) (accounts new : Accounts) (row : Payment)
      → IsSound accounts
      → find_payment p.id accounts.payments ≡ some p
      → p.status ≡ recorded
      → Payments.verify_loaded now p actor accounts ≡ ok (row, new)
      → Keeps accounts new
  unfolding Payments.verify_loaded
  verify_loaded-Keeps now p actor accounts new row sound found status_is e =
      let f = marked_verified now actor in
      let (saved, did, e1) = bind-ok (save_payment p.id f accounts) _ e in
      let (books, posted, e2) = bind-ok (post_credits now p actor saved.1.books) _ e1 in
      let s = save_payment-IsSaved p.id f p accounts saved.1 saved.0 found did in
      let idle : payment_is p.status verified ≡ false = rw status_is refl in
      let unused =
        unverified_total p.id p accounts.payments accounts.allocations found idle sound.owned in
      let whole : p.unallocated_amount ≡ p.amount +ℤ p.tds_amount =
        sym (ap (λ x. p.unallocated_amount +ℤ x) unused ∙ +ℤ_zero _)
        ∙ sound.accounted p.id p found
        ∙ recorded_worth p status_is in
      let (nonnegative, one) = allowed_parts (f p) s.allowed in
      let mid_sound =
        saved-IsSound s found (λ y. refl) (λ y. (refl, refl)) accounts.allocations sound.ready
          sound.accounted (λ j e. refl) (sound.accounted p.id p found ∙ recorded_worth p status_is)
          (saved-IsOwned s found (λ y. refl) (λ y. (refl, refl)) sound.owned (λ v. refl)) in
      audited-Keeps PaymentAct.verified p.id accounts (record saved.1 { books = books }) new
        (pair-ok e2).1
        (record {
          sound = record {
            accounted = mid_sound.accounted;
            ready = record {
              settled = mid_sound.settled;
              owned = mid_sound.owned;
              billed = mid_sound.billed;
              fresh = mid_sound.fresh;
            };
          };
          gap_kept = λ type party.
              verified_shift (payment_where type party p) _ _ _ _ _ p.unallocated_amount _
                (credits_total now p actor saved.1.books books one nonnegative posted type party)
                (saved-gap s found (λ y. refl) (λ y. (refl, refl)) type party
                  ∙ ap (λ x. gap type party accounts +ℤ x) (marked_held now actor type party p))
                (idle_held type party p idle) whole;
          booked_kept = λ b.
              subst (λ (a : Accounts). IsBooked a.payments a.next_id books) (sym s.stored)
                (verified-IsBooked p f accounts.payments accounts.next_id accounts.books books found
                  status_is
                  (find_first-All (λ (q : Payment). q.id < accounts.next_id) _ p accounts.payments
                    found sound.fresh)
                  (λ y. refl) (marked_taken now actor p)
                  (credits-IsCredited now p actor accounts.books books one nonnegative (
                    subst (λ (a : Accounts). post_credits now p actor a.books ≡ ok books) s.stored
                      posted))
                  b);
        })

  pub verify-Keeps :
      (now id actor : ℕ) (accounts new : Accounts) (row : Payment)
      → IsSound accounts
      → Payments.verify now id actor accounts ≡ ok (row, new)
      → Keeps accounts new
  unfolding Payments.verify
  verify-Keeps now id actor accounts new row sound e =
      let (p, loaded, e1) = bind-ok (load id accounts) _ e in
      let (guard, e2) = throw_if-ok (not (payment_is p.status recorded)) conflict _ e1 in
      let (_, e3) = throw_if-ok (p.recorded_by_id == actor) self_approval _ e2 in
      verify_loaded-Keeps now p actor accounts new row sound (loaded_row id accounts p loaded)
        (recorded_lem p.status guard) e3

  -- The transaction of a verification, given a payment that was loaded earlier, whatever has become of
  -- its row since: when it succeeds, the row is verified, and the amount and the tax deducted that were
  -- loaded come off the balance of the party that was loaded, and of no other.
  pub verify_loaded_credits :
      (now : ℕ) (loaded : Payment) (actor : ℕ) (accounts new : Accounts) (row : Payment)
      → HasOneParty loaded.distributor_id loaded.customer_id
      → pos 0 ≤ℤ loaded.tds_amount
      → Payments.verify_loaded now loaded actor accounts ≡ ok (row, new)
      → (row.status ≡ verified)
        × ((t : PartyType) (party : ℕ)
            → signed_total t party new.books.entries
              ≡ signed_total t party accounts.books.entries
                -ℤ payment_share t party loaded (loaded.amount +ℤ loaded.tds_amount))
  unfolding Payments.verify_loaded
  verify_loaded_credits now loaded actor accounts new row one nonnegative e =
      let (saved, did, e1) =
        bind-ok (save_payment loaded.id (marked_verified now actor) accounts) _ e in
      let (books, posted, e2) = bind-ok (post_credits now loaded actor saved.1.books) _ e1 in
      let (p, found, g) = option-ok (find_payment loaded.id accounts.payments) database _ did in
      let (_, done) = throw_if-ok (refuses_payment (marked_verified now actor p)) database _ g in
      let mid_is =
        (pair-ok
          {b = record accounts {
            payments = update_payment_row loaded.id (marked_verified now actor) accounts.payments;
          }}
          done).1 in
      (
        ap (λ (x : Payment). x.status) ((pair-ok e2).0 ∙ (pair-ok done).0),
        λ t party.
            ap (λ (a : Accounts). signed_total t party a.books.entries) (pair-ok e2).1
            ∙ credits_total now loaded actor saved.1.books books one
                (nonneg_lem loaded.tds_amount nonnegative) posted t party
            ∙ ap
                (λ (a : Accounts).
                  signed_total t party a.books.entries
                  -ℤ payment_share t party loaded (loaded.amount +ℤ loaded.tds_amount))
                mid_is,
      )
