-- ===== src/Payments/Bounced.antt =====
-- A bounce takes back what the payment took off the balance, and what it settled.
use distribuitor_app.Prelude.{
  ℕ, ◌≡◌, refl, ap, sym, subst, ◌∙◌, true, not, pos, ◌+ℤ◌, ◌-ℤ◌, some, List, select,
}
use distribuitor_app.Prelude.Results.{ok, conflict}
use distribuitor_app.Prelude.Results.Inversion.{throw_if-ok, bind-ok, pair-ok}
use distribuitor_app.Decimal.{Decimal}
use distribuitor_app.Statuses.Invoices.{verified}
use distribuitor_app.Finance.{Books}
use distribuitor_app.Payments.{payment_is, load, save_payment, audited_payment}
use distribuitor_app.Finance.Postings.{signed_total}
use distribuitor_app.Finance.Rows.{IsEntry, signed_total-share}
use distribuitor_app.Settlement.{Payment, PaymentAct, Accounts, find_payment}
use distribuitor_app.Payments.Bounce.{
  is_original_of, contra_each, release_each, marked_bounced, bounce_loaded, bounce,
}
use distribuitor_app.Payments.Invariant.{IsSound, payment_share, load-found}
use distribuitor_app.Payments.Saved.{save_payment-IsSaved, found-id}
use distribuitor_app.Payments.Receipts.{Keeps, audited-Keeps, loaded_row}
use distribuitor_app.Payments.Released.{is_of, release_each-IsApplied}
use distribuitor_app.Payments.Applied.{verified_lem}
use distribuitor_app.Payments.Booked.{IsBooked, is_live}
use distribuitor_app.Payments.Contraed.{contra_each-AreContraed, select-All, select-share}
use distribuitor_app.Payments.Restored.{
  verified_taken, restored_shift, IsRestored, bounced-IsSound, bounced-gap, bounced-IsBooked,
}

module _ ⦃dec : Decimal⦄ where
  bounce_loaded_lem :
      (now : ℕ) (p : Payment) (actor : ℕ) (accounts new : Accounts) (row : Payment)
      → IsSound accounts
      → IsBooked accounts.payments accounts.next_id accounts.books
      → find_payment p.id accounts.payments ≡ some p
      → p.status ≡ verified
      → bounce_loaded now p.id actor accounts ≡ ok (row, new)
      → Keeps accounts new × IsRestored p.id p accounts row new
  unfolding bounce_loaded
  bounce_loaded_lem now p actor accounts new row sound booked found status_is e =
      let originals = select (is_original_of p.id) accounts.books.entries in
      let (books, did, e1) = bind-ok (contra_each now originals actor accounts.books) _ e in
      let contraed = record accounts { books = books } in
      let (released, freed, e2) =
        bind-ok (release_each (select (is_of p.id) accounts.allocations) contraed) _ e1 in
      let (saved, wrote, e3) = bind-ok (save_payment p.id (marked_bounced now) released) _ e2 in
      let c =
        contra_each-AreContraed now originals actor accounts.books books
          (select-All (IsEntry accounts.books.entries accounts.books.next_id) (is_original_of p.id)
            accounts.books.entries booked.entries)
          did in
      let (change, empty) =
        release_each-IsApplied p (select (is_of p.id) accounts.allocations) contraed released
          (record {
            settled = sound.settled;
            owned = sound.owned;
            billed = sound.billed;
            fresh = sound.fresh;
          })
          found refl freed in
      let found_now =
        subst (λ (x : List Payment). find_payment p.id x ≡ some p) (sym change.payments_kept)
          found in
      let s =
        save_payment-IsSaved p.id (marked_bounced now) p released saved.1 saved.0 found_now wrote in
      let live : is_live p.status ≡ true = rw status_is refl in
      let new_is =
        (pair-ok e3).1
        ∙ ap (λ (a : Accounts). audited_payment PaymentAct.bounced p.id a) s.stored in
      (
        audited-Keeps PaymentAct.bounced p.id accounts saved.1 new (pair-ok e3).1 (record {
          sound =
              bounced-IsSound now p accounts released saved.1 books saved.0 sound booked found
                status_is c change empty wrote;
          gap_kept =
              bounced-gap now p accounts released saved.1 books saved.0 sound booked found status_is
                c change empty wrote;
          booked_kept = λ b.
              bounced-IsBooked now p accounts released saved.1 books saved.0 sound booked found
                status_is c change empty wrote;
        }),
        record {
          found = found;
          was_verified = status_is;
          bounced = ap (λ (x : Payment). x.status) ((pair-ok e3).0 ∙ s.returned);
          nothing_left = ap (λ (x : Payment). x.unallocated_amount) ((pair-ok e3).0 ∙ s.returned);
          no_allocations = ap (λ (a : Accounts). select (is_of p.id) a.allocations) new_is ∙ empty;
          given_back = λ type party.
              ap (λ (a : Accounts). signed_total type party a.books.entries) new_is
              ∙ ap (λ (b : Books). signed_total type party b.entries) change.books_kept
              ∙ signed_total-share type party books.entries
              ∙ c.shares type party
              ∙ restored_shift _ _ _ (
                  select-share p.id type party accounts.books.entries
                  ∙ booked.credited p.id p found live type party
                  ∙ ap (λ x. pos 0 -ℤ x) (verified_taken type party p status_is))
              ∙ ap (λ x. x +ℤ payment_share type party p (p.amount +ℤ p.tds_amount))
                  (sym (signed_total-share type party accounts.books.entries));
        },
      )

  bounce_lem :
      (now id actor : ℕ) (accounts new : Accounts) (row : Payment)
      → IsSound accounts
      → IsBooked accounts.payments accounts.next_id accounts.books
      → bounce now id actor accounts ≡ ok (row, new)
      → Keeps accounts new × ((p : Payment) × IsRestored id p accounts row new)
  unfolding bounce
  bounce_lem now id actor accounts new row sound booked e =
      let (p, loaded, e1) = bind-ok (load id accounts) _ e in
      let (guard, e2) = throw_if-ok (not (payment_is p.status verified)) conflict _ e1 in
      let id_is = found-id id p accounts.payments (load-found id accounts p loaded) in
      let (keeps, restored) =
        bounce_loaded_lem now p actor accounts new row sound booked
          (loaded_row id accounts p loaded) (verified_lem p.status guard)
          (subst (λ i. bounce_loaded now i actor accounts ≡ ok (row, new)) (sym id_is) e2) in
      (keeps, (p, subst (λ i. IsRestored i p accounts row new) id_is restored))

  pub bounce_restores :
      (now id actor : ℕ) (accounts new : Accounts) (row : Payment)
      → IsSound accounts
      → IsBooked accounts.payments accounts.next_id accounts.books
      → bounce now id actor accounts ≡ ok (row, new)
      → (p : Payment) × IsRestored id p accounts row new
  bounce_restores now id actor accounts new row sound booked e =
      (bounce_lem now id actor accounts new row sound booked e).1

  pub bounce-Keeps :
      (now id actor : ℕ) (accounts new : Accounts) (row : Payment)
      → IsSound accounts
      → IsBooked accounts.payments accounts.next_id accounts.books
      → bounce now id actor accounts ≡ ok (row, new)
      → Keeps accounts new
  bounce-Keeps now id actor accounts new row sound booked e =
      (bounce_lem now id actor accounts new row sound booked e).0
