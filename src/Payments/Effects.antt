-- ===== src/Payments/Effects.antt =====
-- What single operations come to.
use distribuitor_app.Prelude.{
  ℕ, ◌≡◌, ◌≢◌, refl, ap, sym, subst, ◌∙◌, false, not, pos, ◌+ℤ◌, ◌-ℤ◌, ◌≤ℤ◌, some, List, sum_by,
  find_first-update_self, ltb_ℤ, ◌==◌, arith, int_laws, parts_of_eq,
}
use mathlib.Core.Option.{some-injective}
use distribuitor_app.Prelude.Results.{ok, conflict, self_approval}
use distribuitor_app.Prelude.Results.Inversion.{throw_if-ok, bind-ok, pair-ok}
use distribuitor_app.Decimal.{Decimal}
use distribuitor_app.Money.{Amount}
use distribuitor_app.Statuses.Invoices.{PartyType, distributor, customer, recorded, verified}
use distribuitor_app.Finance.Postings.{signed_total}
use distribuitor_app.Settlement.{Payment, Accounts, find_payment}
use distribuitor_app.Settlement.Invariant.{due}
use distribuitor_app.Payments.{
  load, payment_is, save_payment, marked_verified, post_credits, verify, verify_loaded,
}
use distribuitor_app.Payments.Allocate.{AllocationRequest, allocate}
use distribuitor_app.Payments.Bounce.{bounce}
use distribuitor_app.Payments.Invariant.{IsSound, payment_share, load-found}
use distribuitor_app.Payments.Saved.{found-id, save_payment-IsSaved}
use distribuitor_app.Payments.Receipts.{loaded_row, recorded_lem}
use distribuitor_app.Payments.Parts.{allowed_parts}
use distribuitor_app.Payments.Verification.{verify_loaded_credits, verify-Keeps}
use distribuitor_app.Payments.Applied.{requested_total, verified_lem}
use distribuitor_app.Payments.Settling.{allocate_loaded-Keeps}
use distribuitor_app.Payments.Restored.{IsRestored}
use distribuitor_app.Payments.Bounced.{bounce_restores}
use distribuitor_app.Payments.Reachable.{IsConsistent}

nonneg_back : (a : Amount) → ltb_ℤ a (pos 0) ≡ false → pos 0 ≤ℤ a
nonneg_back a e = ground arith

there_and_back : (s s' s'' x x' : Amount) → s' ≡ s -ℤ x → s'' ≡ s' +ℤ x' → x' ≡ x → s'' ≡ s
there_and_back s s' s'' x x' e h k = omega (int_laws, parts_of_eq e, parts_of_eq h, parts_of_eq k)

module _ ⦃dec : Decimal⦄ where
  marked_share :
      (now actor : ℕ) (p : Payment) (type : PartyType) (party : ℕ) (amount : Amount)
      → payment_share type party (marked_verified now actor p) amount
        ≡ payment_share type party p amount
  marked_share now actor p distributor party amount = refl
  marked_share now actor p customer party amount = refl

  -- The row of a verified payment, as later calls find it.
  verify_loaded-finds :
      (now : ℕ) (p : Payment) (actor : ℕ) (accounts new : Accounts) (row : Payment)
      → find_payment p.id accounts.payments ≡ some p
      → verify_loaded now p actor accounts ≡ ok (row, new)
      → find_payment p.id new.payments ≡ some (marked_verified now actor p)
  unfolding verify_loaded
  verify_loaded-finds now p actor accounts new row found e =
      let f = marked_verified now actor in
      let (saved, did, e1) = bind-ok (save_payment p.id f accounts) _ e in
      let (_, _, e2) = bind-ok (post_credits now p actor saved.1.books) _ e1 in
      let s = save_payment-IsSaved p.id f p accounts saved.1 saved.0 found did in
      ap (λ (a : Accounts). find_payment p.id a.payments) (pair-ok e2).1
      ∙ ap (λ (a : Accounts). find_payment p.id a.payments) s.stored
      ∙ find_first-update_self (λ (x : Payment). x.id) p.id f p accounts.payments (λ y. refl) found

  verify_loaded-one :
      (now : ℕ) (p : Payment) (actor : ℕ) (accounts new : Accounts) (row : Payment)
      → find_payment p.id accounts.payments ≡ some p
      → verify_loaded now p actor accounts ≡ ok (row, new)
      → (row.status ≡ verified)
        × ((type : PartyType) (party : ℕ)
            → signed_total type party new.books.entries
              ≡ signed_total type party accounts.books.entries
                -ℤ payment_share type party p (p.amount +ℤ p.tds_amount))
  unfolding verify_loaded
  verify_loaded-one now p actor accounts new row found e =
      let (saved, did, _) = bind-ok (save_payment p.id (marked_verified now actor) accounts) _ e in
      let s =
        save_payment-IsSaved p.id (marked_verified now actor) p accounts saved.1 saved.0 found
          did in
      let (nonnegative, one) = allowed_parts (marked_verified now actor p) s.allowed in
      verify_loaded_credits now p actor accounts new row one (nonneg_back p.tds_amount nonnegative)
        e

  -- A verification that succeeds is of a recorded payment, by another person than the one who recorded
  -- it. It marks the payment verified, and takes the amount and the tax deducted off the balance of its
  -- party and of no other.
  pub verify_credits :
      (now id actor : ℕ) (accounts new : Accounts) (row : Payment)
      → verify now id actor accounts ≡ ok (row, new)
      → (p : Payment) × (find_payment id accounts.payments ≡ some p)
        × (p.status ≡ recorded)
        × (p.recorded_by_id ≢ actor)
        × (row.status ≡ verified)
        × ((type : PartyType) (party : ℕ)
            → signed_total type party new.books.entries
              ≡ signed_total type party accounts.books.entries
                -ℤ payment_share type party p (p.amount +ℤ p.tds_amount))
  unfolding verify
  verify_credits now id actor accounts new row e =
      let (p, loaded, e1) = bind-ok (load id accounts) _ e in
      let (guard, e2) = throw_if-ok (not (payment_is p.status recorded)) conflict _ e1 in
      let (other, e3) = throw_if-ok (p.recorded_by_id == actor) self_approval _ e2 in
      let (marked, credited) =
        verify_loaded-one now p actor accounts new row (loaded_row id accounts p loaded) e3 in
      (
        p,
        load-found id accounts p loaded,
        recorded_lem p.status guard,
        differs p.recorded_by_id actor other,
        marked,
        credited,
      )
    where
      differs : (a b : ℕ) → a == b ≡ false → a ≢ b
      differs a b e = ground arith

  -- An allocation that succeeds on sound accounts is of a verified payment and takes no more than it has
  -- left: exactly what was requested comes off the payment, and off what its party owes on its open
  -- invoices; no other party owes more or less.
  pub allocate_takes :
      (id : ℕ) (requests : List AllocationRequest) (actor : ℕ) (accounts new : Accounts)
      (row : Payment)
      → IsSound accounts
      → allocate id requests actor accounts ≡ ok (row, new)
      → (p : Payment) × (find_payment id accounts.payments ≡ some p)
        × (p.status ≡ verified)
        × (row.unallocated_amount ≡ p.unallocated_amount -ℤ requested_total requests)
        × (pos 0 ≤ℤ row.unallocated_amount)
        × ((type : PartyType) (party : ℕ)
            → sum_by (due type party) new.invoices
              ≡ sum_by (due type party) accounts.invoices
                -ℤ payment_share type party p (requested_total requests))
  unfolding allocate
  allocate_takes id requests actor accounts new row sound e =
      let (p, loaded, e1) = bind-ok (load id accounts) _ e in
      let (guard, e2) = throw_if-ok (not (payment_is p.status verified)) conflict _ e1 in
      let (_, left, covered, owed) =
        allocate_loaded-Keeps p requests actor accounts new row sound
          (loaded_row id accounts p loaded) (verified_lem p.status guard) e2 in
      (p, load-found id accounts p loaded, verified_lem p.status guard, left, covered, owed)

  verify_finds :
      (now id actor : ℕ) (accounts mid : Accounts) (row : Payment)
      → verify now id actor accounts ≡ ok (row, mid)
      → (p : Payment) × (find_payment id mid.payments ≡ some (marked_verified now actor p))
        × ((type : PartyType) (party : ℕ)
            → signed_total type party mid.books.entries
              ≡ signed_total type party accounts.books.entries
                -ℤ payment_share type party p (p.amount +ℤ p.tds_amount))
  unfolding verify
  verify_finds now id actor accounts mid row e =
      let (p, loaded, e1) = bind-ok (load id accounts) _ e in
      let (_, e2) = throw_if-ok (not (payment_is p.status recorded)) conflict _ e1 in
      let (_, e3) = throw_if-ok (p.recorded_by_id == actor) self_approval _ e2 in
      let found = loaded_row id accounts p loaded in
      let id_is = found-id id p accounts.payments (load-found id accounts p loaded) in
      (
        p,
        subst (λ i. find_payment i mid.payments ≡ some (marked_verified now actor p)) id_is
            (verify_loaded-finds now p actor accounts mid row found e3),
        (verify_loaded-one now p actor accounts mid row found e3).1,
      )

  -- On consistent accounts a bounce that succeeds is of a verified payment. It leaves the payment bounced,
  -- with nothing unallocated and no allocation, and gives the amount and the tax deducted back to the
  -- balance of its party, and nothing to any other.
  pub bounce_gives_back :
      (now id actor : ℕ) (accounts new : Accounts) (row : Payment)
      → IsConsistent accounts
      → bounce now id actor accounts ≡ ok (row, new)
      → (p : Payment) × IsRestored id p accounts row new
  bounce_gives_back now id actor accounts new row h e =
      bounce_restores now id actor accounts new row h.sound h.booked e

  -- A bounce right after the verification of the same payment, on accounts that were consistent, leaves
  -- the balance of every party as it was before both.
  pub bounce-verify :
      (now later id actor by : ℕ) (accounts mid last : Accounts) (row after : Payment)
      → IsConsistent accounts
      → verify now id actor accounts ≡ ok (row, mid)
      → bounce later id by mid ≡ ok (after, last)
      → (type : PartyType) (party : ℕ)
      → signed_total type party last.books.entries ≡ signed_total type party accounts.books.entries
  bounce-verify now later id actor by accounts mid last row after h verified_it bounced_it type
        party =
      let k = verify-Keeps now id actor accounts mid row h.sound verified_it in
      let (p, found, credited) = verify_finds now id actor accounts mid row verified_it in
      let (q, restored) =
        bounce_restores later id by mid last after k.sound (k.booked_kept h.booked) bounced_it in
      let same = some-injective q (marked_verified now actor p) (sym restored.found ∙ found) in
      there_and_back _ _ _ _ _ (credited type party) (restored.given_back type party) (
        ap (λ (x : Payment). payment_share type party x (x.amount +ℤ x.tds_amount)) same
        ∙ marked_share now actor p type party (p.amount +ℤ p.tds_amount))
