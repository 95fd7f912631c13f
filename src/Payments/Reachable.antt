-- ===== src/Payments/Reachable.antt =====
-- The operations of `PaymentsService` in any order, each a transaction that fails and leaves no trace or
-- succeeds; and what single operations come to on the balance.
use distribuitor_app.Prelude.{ℕ, ◌≡◌, refl, ◌∙◌, List, [], ◌∷◌}
use distribuitor_app.Prelude.Results.{Result, ok, err}
use distribuitor_app.Decimal.{Decimal}
use distribuitor_app.Statuses.Invoices.{PartyType}
use distribuitor_app.Settlement.{Payment, Accounts}
use distribuitor_app.Payments
use distribuitor_app.Payments.{CreatePayment, UpdatePayment, load, payment_is}
use distribuitor_app.Payments.Allocate
use distribuitor_app.Payments.Allocate.{AllocationRequest}
use distribuitor_app.Payments.Bounce
use distribuitor_app.Payments.Invariant.{IsSound, gap}
use distribuitor_app.Payments.Booked.{IsBooked}
use distribuitor_app.Payments.Receipts.{Keeps, create-Keeps, update-Keeps}
use distribuitor_app.Payments.Verification.{verify-Keeps}
use distribuitor_app.Payments.Settling.{allocate-Keeps, remove_allocation-Keeps}
use distribuitor_app.Payments.Bounced.{bounce-Keeps}

-- A call of the service, with what the caller sends.
pub data Operation : Type 0 where
  create : ℕ → CreatePayment → ℕ → Operation
  update : ℕ → UpdatePayment → Operation
  verify : ℕ → ℕ → Operation
  allocate : ℕ → List AllocationRequest → ℕ → Operation
  remove_allocation : ℕ → ℕ → Operation
  bounce : ℕ → ℕ → Operation

pub record IsConsistent (accounts : Accounts) : Type 0 where
  pub sound : IsSound accounts
  pub booked : IsBooked accounts.payments accounts.next_id accounts.books

module _ ⦃dec : Decimal⦄ where
  abbrev pub perform : ℕ → Operation → Accounts → Result (Payment × Accounts)
  perform now (create number input actor) accounts = Payments.create now number input actor accounts
  perform now (update id input) accounts = Payments.update id input accounts
  perform now (verify id actor) accounts = Payments.verify now id actor accounts
  perform now (allocate id requests actor) accounts = Allocate.allocate id requests actor accounts
  perform now (remove_allocation payment_id allocation_id) accounts =
      Allocate.remove_allocation payment_id allocation_id accounts
  perform now (bounce id actor) accounts = Bounce.bounce now id actor accounts

  abbrev pub outcome : Accounts → Result (Payment × Accounts) → Accounts
  outcome before (ok done) = done.1
  outcome before (err e) = before

  -- Operations at their instants, the first one first.
  abbrev pub run : List (ℕ × Operation) → Accounts → Accounts
  run [] accounts = accounts
  run ((now, op) ∷ rest) accounts = run rest (outcome accounts (perform now op accounts))

  perform-Keeps :
      (now : ℕ) (op : Operation) (accounts new : Accounts) (row : Payment)
      → IsConsistent accounts
      → perform now op accounts ≡ ok (row, new)
      → Keeps accounts new
  perform-Keeps now (create number input actor) accounts new row h e =
      create-Keeps now number input actor accounts new row h.sound e
  perform-Keeps now (update id input) accounts new row h e =
      update-Keeps id input accounts new row h.sound e
  perform-Keeps now (verify id actor) accounts new row h e =
      verify-Keeps now id actor accounts new row h.sound e
  perform-Keeps now (allocate id requests actor) accounts new row h e =
      allocate-Keeps id requests actor accounts new row h.sound e
  perform-Keeps now (remove_allocation payment_id allocation_id) accounts new row h e =
      remove_allocation-Keeps payment_id allocation_id accounts new row h.sound e
  perform-Keeps now (bounce id actor) accounts new row h e =
      bounce-Keeps now id actor accounts new row h.sound h.booked e

  outcome-Keeps :
      (accounts : Accounts) (r : Result (Payment × Accounts))
      → IsConsistent accounts
      → ((row : Payment) (new : Accounts) → r ≡ ok (row, new) → Keeps accounts new)
      → IsConsistent (outcome accounts r)
        × ((type : PartyType) (party : ℕ)
            → gap type party (outcome accounts r) ≡ gap type party accounts)
  outcome-Keeps accounts (err e) h keeps = (h, λ type party. refl)
  outcome-Keeps accounts (ok (row, new)) h keeps =
      let k = keeps row new refl in
      (record { sound = k.sound; booked = k.booked_kept h.booked }, k.gap_kept)

  -- From consistent accounts, any sequence of recordings, edits, verifications, allocations, removals
  -- and bounces, successful or refused, leads to consistent accounts: the columns of each invoice and
  -- each payment agree with the allocations, and the ledger's rows with what each payment has taken.
  -- For every party, the balance of the ledger stays as far from what the open invoices less the
  -- unallocated receipts come to as it was.
  pub run_keeps :
      (operations : List (ℕ × Operation)) (accounts : Accounts)
      → IsConsistent accounts
      → IsConsistent (run operations accounts)
        × ((type : PartyType) (party : ℕ)
            → gap type party (run operations accounts) ≡ gap type party accounts)
  run_keeps [] accounts h = (h, λ type party. refl)
  run_keeps ((now, op) ∷ rest) accounts h =
      let (next, one) =
        outcome-Keeps accounts (perform now op accounts) h
          (λ row new e. perform-Keeps now op accounts new row h e) in
      let (last, others) = run_keeps rest (outcome accounts (perform now op accounts)) next in
      (last, λ type party. others type party ∙ one type party)
