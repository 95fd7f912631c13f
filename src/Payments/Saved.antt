-- ===== src/Payments/Saved.antt =====
-- An update of one payment keeps what holds, once its columns agree with its allocations.
use distribuitor_app.Prelude.{
  ℕ, ◌<◌, ◌≡◌, refl, ap, sym, subst, ◌∙◌, inl, inr, true, false, pos, ◌+ℤ◌, some, List, [], ◌∷◌,
  All, All-map, sum_by, find_first-passes, find_first-update_self, find_first-update_ne,
  sum_by-update_first, All-update_first, ◌==◌, ==_iff, int_laws, parts_of_eq, zero_+ℤ, Bool-cases,
}
use mathlib.Core.Option.{some-injective}
use distribuitor_app.Prelude.Results.{ok, database}
use distribuitor_app.Prelude.Results.Inversion.{throw_if-ok, pair-ok}
use distribuitor_app.Statuses.Invoices.{PartyType, verified}
use distribuitor_app.Settlement.{
  Payment, PaymentAllocation, Invoice, Accounts, find_payment, update_payment_row,
}
use distribuitor_app.Settlement.Refresh.{is_open}
use distribuitor_app.Payments.{refuses_payment, save_payment, payment_is}
use distribuitor_app.Payments.Invariant.{
  AreAccounted, IsBilled, IsOwned, IsReady, IsSound, from_payment, gap, held, worth,
}

-- What a successful update of the payment `p` has done.
pub record IsSaved (id : ℕ) (f : Payment → Payment) (p : Payment) (accounts : Accounts)
    (row : Payment) (new : Accounts) : Type 0 where
  pub allowed : refuses_payment (f p) ≡ false
  pub returned : row ≡ f p
  pub stored : new ≡ record accounts { payments = update_payment_row id f accounts.payments }

pub save_payment-IsSaved :
    (id : ℕ) (f : Payment → Payment) (p : Payment) (accounts new : Accounts) (row : Payment)
    → find_payment id accounts.payments ≡ some p
    → save_payment id f accounts ≡ ok (row, new)
    → IsSaved id f p accounts row new
save_payment-IsSaved id f p accounts new row found e =
    let (allowed, done) =
      throw_if-ok (refuses_payment (f p)) database _ (rw (save_payment, found) at e) in
    record { allowed = allowed; returned = (pair-ok done).0; stored = (pair-ok done).1 }

-- The row that a search by id finds has that id.
pub found-id :
    (id : ℕ) (p : Payment) (payments : List Payment) → find_payment id payments ≡ some p → p.id ≡ id
found-id id p payments found = (==_iff p.id id).0 (find_first-passes _ p payments found)

-- An update of one payment, after a change of its allocations alone.
pub update-AreAccounted :
    (k : ℕ) (f : Payment → Payment) (p : Payment) (payments : List Payment)
    (old allocations : List PaymentAllocation)
    → AreAccounted payments old
    → find_payment k payments ≡ some p
    → ((y : Payment) → (f y).id ≡ y.id)
    → (f p).unallocated_amount +ℤ sum_by (from_payment k) allocations ≡ worth (f p)
    → ((j : ℕ) → k == j ≡ false → sum_by (from_payment j) allocations ≡ sum_by (from_payment j) old)
    → AreAccounted (update_payment_row k f payments) allocations
update-AreAccounted k f p payments old allocations accounted found keep now same j q e =
    elim (Bool-cases (k == j)) [
      | inl this ↦
          let jk = (==_iff k j).0 this in
          let found' =
            subst (λ i. find_payment i (update_payment_row k f payments) ≡ some q) (sym jk) e in
          let q_is = some-injective (f p) q (
            sym (find_first-update_self (λ (x : Payment). x.id) k f p payments keep found)
            ∙ found') in
          subst (λ i. q.unallocated_amount +ℤ sum_by (from_payment i) allocations ≡ worth q) jk
            (subst
              (λ (x : Payment).
                x.unallocated_amount +ℤ sum_by (from_payment k) allocations ≡ worth x)
              q_is now)
      | inr other ↦
          let before =
            sym (find_first-update_ne (λ (x : Payment). x.id) j k f keep other payments) ∙ e in
          ap (λ x. q.unallocated_amount +ℤ x) (same j other) ∙ accounted j q before
    ]

-- An update that verified payments survive keeps the owners of allocations.
pub update-IsOwned :
    (k : ℕ) (f : Payment → Payment) (payments : List Payment) (a : PaymentAllocation)
    → ((y : Payment) → (f y).id ≡ y.id)
    → ((p : Payment)
        → find_payment k payments ≡ some p
        → k == a.payment_id ≡ true
        → p.status ≡ verified
        → (f p).status ≡ verified)
    → IsOwned payments a
    → IsOwned (update_payment_row k f payments) a
update-IsOwned k f payments a keep stays (p, found, is_verified) =
    elim (Bool-cases (k == a.payment_id)) [
      | inl this ↦
          let jk = (==_iff k a.payment_id).0 this in
          let found' = subst (λ i. find_payment i payments ≡ some p) (sym jk) found in
          (
            f p,
            subst (λ i. find_payment i (update_payment_row k f payments) ≡ some (f p)) jk
                (find_first-update_self (λ (x : Payment). x.id) k f p payments keep found'),
            stays p found' this is_verified,
          )
      | inr other ↦ (
        p,
        find_first-update_ne (λ (x : Payment). x.id) a.payment_id k f keep other payments ∙ found,
        is_verified,
      )
    ]

-- An update that keeps the parties keeps what is billed.
pub update-IsBilled :
    (k : ℕ) (f : Payment → Payment) (payments : List Payment) (invoices : List Invoice)
    (a : PaymentAllocation)
    → ((y : Payment) → (f y).id ≡ y.id)
    → ((y : Payment)
        → ((f y).distributor_id ≡ y.distributor_id) × ((f y).customer_id ≡ y.customer_id))
    → IsOwned payments a
    → IsBilled payments invoices a
    → IsBilled (update_payment_row k f payments) invoices a
update-IsBilled k f payments invoices a keep parties (q, found, _) billed p v e there =
    elim (Bool-cases (k == a.payment_id)) [
      | inl this ↦
          let jk = (==_iff k a.payment_id).0 this in
          let found_k = subst (λ i. find_payment i payments ≡ some q) (sym jk) found in
          let now = find_first-update_self (λ (x : Payment). x.id) k f q payments keep found_k in
          let e_k =
            subst (λ i. find_payment i (update_payment_row k f payments) ≡ some p) (sym jk) e in
          let p_is = some-injective (f q) p (sym now ∙ e_k) in
          let (open_is, d_is, c_is) = billed q v found there in
          subst
            (λ (x : Payment).
              (is_open v.status ≡ true)
              × (v.distributor_id ≡ x.distributor_id)
              × (v.customer_id ≡ x.customer_id))
            p_is (open_is, d_is ∙ sym (parties q).0, c_is ∙ sym (parties q).1)
      | inr other ↦
          billed p v
            (sym (find_first-update_ne (λ (x : Payment). x.id) a.payment_id k f keep other payments)
              ∙ e)
            there
    ]

pub All-zip :
    {P Q R : PaymentAllocation → Type 0} (f : (a : PaymentAllocation) → P a → Q a → R a)
    (xs : List PaymentAllocation)
    → All P xs
    → All Q xs
    → All R xs
All-zip f [] ps qs = tt
All-zip f (a ∷ rest) (p, ps) (q, qs) = (f a p q, All-zip f rest ps qs)

disowned :
    (id : ℕ) (p : Payment) (payments : List Payment) (a : PaymentAllocation)
    → find_payment id payments ≡ some p
    → payment_is p.status verified ≡ false
    → a.payment_id == id ≡ true
    → IsOwned payments a
    → ⊥
disowned id p payments a found status mine (q, there, is_verified) =
    let there' =
      subst (λ i. find_payment i payments ≡ some q) ((==_iff a.payment_id id).0 mine) there in
    let same : q ≡ p = some-injective q p (sym there' ∙ found) in
    let yes : payment_is p.status verified ≡ true =
      subst (λ (x : Payment). payment_is x.status verified ≡ true) same
        (subst (λ x. payment_is x verified ≡ true) (sym is_verified) refl) in
    cc

-- A payment that is not verified has no allocations.
pub unverified_total :
    (id : ℕ) (p : Payment) (payments : List Payment) (allocations : List PaymentAllocation)
    → find_payment id payments ≡ some p
    → payment_is p.status verified ≡ false
    → All (IsOwned payments) allocations
    → sum_by (from_payment id) allocations ≡ pos 0
unverified_total id p payments [] found status owned = refl
unverified_total id p payments (a ∷ rest) found status (owner, owned) =
    elim (Bool-cases (a.payment_id == id)) [
      | inl mine ↦ absurd (disowned id p payments a found status mine owner)
      | inr other ↦ rw (other, zero_+ℤ) (unverified_total id p payments rest found status owned)
    ]

module _ {id : ℕ} {f : Payment → Payment} {p : Payment} {accounts new : Accounts} {row : Payment}
    (s : IsSaved id f p accounts row new) (found : find_payment id accounts.payments ≡ some p)
    (keep : (y : Payment) → (f y).id ≡ y.id)
    (parties : (y : Payment)
      → ((f y).distributor_id ≡ y.distributor_id) × ((f y).customer_id ≡ y.customer_id)) where
  same_row : (q : Payment) → find_payment id accounts.payments ≡ some q → p ≡ q
  same_row q e = some-injective p q (sym found ∙ e)

  -- The owners of allocations, when a verified payment stays verified.
  pub saved-IsOwned :
      All (IsOwned accounts.payments) accounts.allocations
      → (p.status ≡ verified → (f p).status ≡ verified)
      → All (IsOwned (update_payment_row id f accounts.payments)) accounts.allocations
  saved-IsOwned owned stays =
      All-map (IsOwned accounts.payments) (IsOwned (update_payment_row id f accounts.payments))
        (λ a o.
          update-IsOwned id f accounts.payments a keep
            (λ q e hit v.
              subst (λ (x : Payment). (f x).status ≡ verified) (same_row q e)
                (stays (subst (λ (x : Payment). x.status ≡ verified) (sym (same_row q e)) v)))
            o)
        accounts.allocations owned

  -- An update of a payment, after a change of its allocations alone.
  pub saved-IsSound :
      (old : List PaymentAllocation)
      → IsReady accounts
      → AreAccounted accounts.payments old
      → ((j : ℕ)
          → id == j ≡ false
          → sum_by (from_payment j) accounts.allocations ≡ sum_by (from_payment j) old)
      → (f p).unallocated_amount +ℤ sum_by (from_payment id) accounts.allocations ≡ worth (f p)
      → All (IsOwned (update_payment_row id f accounts.payments)) accounts.allocations
      → IsSound new
  saved-IsSound old ready accounted same now owned = subst IsSound (sym s.stored) (record {
    ready = record {
      settled = ready.settled;
      owned = owned;
      billed =
          All-zip
            (λ a owned billed.
              update-IsBilled id f accounts.payments accounts.invoices a keep parties owned billed)
            accounts.allocations ready.owned ready.billed;
      fresh =
          All-update_first (λ (p : Payment). p.id < accounts.next_id) (λ p. p.id == id) f
            (λ p below. subst (λ i. i < accounts.next_id) (sym (keep p)) below) accounts.payments
            ready.fresh;
    };
    accounted =
        update-AreAccounted id f p accounts.payments old accounts.allocations accounted found keep
          now same;
  })

  -- The gap moves by what the payment holds less than before.
  pub saved-gap :
      (type : PartyType) (party : ℕ)
      → gap type party new +ℤ held type party p ≡ gap type party accounts +ℤ held type party (f p)
  saved-gap type party =
      let shift =
        sum_by-update_first (held type party) (λ (p : Payment). p.id == id) f p accounts.payments
          found in
      rw s.stored (omega (int_laws, parts_of_eq shift))
