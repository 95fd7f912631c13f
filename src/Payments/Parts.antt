-- ===== src/Payments/Parts.antt =====
-- What the credits of a verification come to.
use distribuitor_app.Prelude.{
  ℕ, ◌≡◌, refl, ap, ◌∙◌, inl, inr, Bool, true, false, not, ◌||◌, pos, ◌+ℤ◌, ◌-ℤ◌, ◌≤ℤ◌, ltb_ℤ,
  if◌then◌else◌, arith, int_laws, parts_of_eq, Bool-cases,
}
use distribuitor_app.Prelude.Results.{ok}
use distribuitor_app.Prelude.Results.Inversion.{bind-ok, ok-injective}
use distribuitor_app.Decimal.{Decimal}
use distribuitor_app.Decimal.Laws.{to_fixed_amount, greater_than_zero}
use distribuitor_app.Money.{Amount, money, to_string}
use distribuitor_app.Statuses.Invoices.{PartyType, EntryType, payment, tds}
use distribuitor_app.Finance.{Books, post, row_of, is_set}
use distribuitor_app.Finance.Rows.{HasOneParty, posted_columns}
use distribuitor_app.Finance.Postings.{signed_total, post-IsPosted}
use distribuitor_app.Settlement.{Payment}
use distribuitor_app.Payments.{refuses_payment, credit_post, post_tds, post_credits}
use distribuitor_app.Payments.Invariant.{payment_where, payment_share, payment_where-row, zero_lem}

or_off : (a b : Bool) → a || b ≡ false → (a ≡ false) × (b ≡ false)
or_off a b e = ground arith

pub allowed_parts :
    (p : Payment)
    → refuses_payment p ≡ false
    → (ltb_ℤ p.tds_amount (pos 0) ≡ false) × HasOneParty p.distributor_id p.customer_id
allowed_parts p e =
    let (_, e1) = or_off (ltb_ℤ p.amount (pos 0)) _ e in
    let (positive, e2) = or_off (ltb_ℤ p.tds_amount (pos 0)) _ e1 in
    let (_, e3) = or_off (ltb_ℤ p.unallocated_amount (pos 0)) _ e2 in
    let (_, e4) = or_off (ltb_ℤ (p.amount +ℤ p.tds_amount) p.unallocated_amount) _ e3 in
    let (one, _) =
      or_off (if is_set p.distributor_id then is_set p.customer_id else not (is_set p.customer_id))
        _ e4 in
    (positive, one)

credit_shift :
    (b b' : Bool) (amount total : Amount)
    → b ≡ b'
    → (if b then pos 0 -ℤ amount +ℤ total else total) ≡ total -ℤ (if b' then amount else pos 0)
credit_shift true true amount total e = omega int_laws
credit_shift false false amount total e = omega int_laws
credit_shift true false amount total e = absurd cc
credit_shift false true amount total e = absurd cc

pub nonneg_lem : (a : Amount) → pos 0 ≤ℤ a → ltb_ℤ a (pos 0) ≡ false
nonneg_lem a h = ground arith

no_share :
    (b : Bool) (amount total : Amount)
    → amount ≡ pos 0
    → total ≡ total -ℤ (if b then amount else pos 0)
no_share true amount total e = omega (int_laws, parts_of_eq e)
no_share false amount total e = omega int_laws

two_shares :
    (b : Bool) (x y total : Amount)
    → total -ℤ (if b then x else pos 0) -ℤ (if b then y else pos 0)
      ≡ total -ℤ (if b then x +ℤ y else pos 0)
two_shares true x y total = omega int_laws
two_shares false x y total = omega int_laws

-- The ledger and what the payment holds move together.
pub verified_shift :
    (b : Bool) (ledger ledger' due gap_before held_before unallocated worth : Amount)
    → ledger' ≡ ledger -ℤ (if b then worth else pos 0)
    → ledger -ℤ due +ℤ held_before ≡ gap_before +ℤ (if b then unallocated else pos 0)
    → held_before ≡ pos 0
    → unallocated ≡ worth
    → ledger' -ℤ due ≡ gap_before
verified_shift true l l' d g h u w a b c e =
    omega (int_laws, parts_of_eq a, parts_of_eq b, parts_of_eq c, parts_of_eq e)
verified_shift false l l' d g h u w a b c e =
    omega (int_laws, parts_of_eq a, parts_of_eq b, parts_of_eq c)

module _ ⦃dec : Decimal⦄ where
  -- A credit that is posted for a payment comes off the balance of its party, and of no other.
  credited_total :
      (now : ℕ) (p : Payment) (type : EntryType) (amount : Amount) (actor : ℕ) (books new : Books)
      (id : ℕ)
      → HasOneParty p.distributor_id p.customer_id
      → post now (credit_post p type amount actor) books ≡ ok (id, new)
      → (t : PartyType) (party : ℕ)
      → signed_total t party new.entries
        ≡ signed_total t party books.entries -ℤ payment_share t party p amount
  credited_total now p type amount actor books new id one e t party =
      let posted = post-IsPosted now (credit_post p type amount actor) books new id e in
      let (d_is, c_is) =
        posted_columns p.distributor_id p.customer_id posted.party one posted.party_named in
      ap (λ (b : Books). signed_total t party b.entries) posted.appended
      ∙ credit_shift _ (payment_where t party p) amount _ (
          payment_where-row t party p
            (row_of now (credit_post p type amount actor) books.next_id (pos 0) amount posted.party)
            d_is c_is)

  tds_total :
      (now : ℕ) (p : Payment) (actor : ℕ) (books new : Books)
      → HasOneParty p.distributor_id p.customer_id
      → ltb_ℤ p.tds_amount (pos 0) ≡ false
      → post_tds now p actor books ≡ ok new
      → (t : PartyType) (party : ℕ)
      → signed_total t party new.entries
        ≡ signed_total t party books.entries -ℤ payment_share t party p p.tds_amount
  tds_total now p actor books new one nonnegative e t party =
      elim (Bool-cases (ltb_ℤ (pos 0) p.tds_amount)) [
        | inl positive ↦
            let (posted, did, e1) =
              bind-ok (post now (credit_post p tds (to_string (money p.tds_amount)) actor) books) _
                (rw (post_tds, greater_than_zero, positive) at e) in
            ap (λ (b : Books). signed_total t party b.entries) (ok-injective e1)
            ∙ credited_total now p tds (to_string (money p.tds_amount)) actor books posted.1
                posted.0 one did t party
            ∙ rw to_fixed_amount refl
        | inr zero ↦
            let same : ok books ≡ ok new = rw (post_tds, greater_than_zero, zero) at e in
            let none_due : p.tds_amount ≡ pos 0 = zero_lem p.tds_amount nonnegative zero in
            ap (λ (b : Books). signed_total t party b.entries) (ok-injective same)
            ∙ no_share (payment_where t party p) p.tds_amount _ none_due
      ]

  -- The two credits of a verification come to the amount and the tax deducted.
  pub credits_total :
      (now : ℕ) (p : Payment) (actor : ℕ) (books new : Books)
      → HasOneParty p.distributor_id p.customer_id
      → ltb_ℤ p.tds_amount (pos 0) ≡ false
      → post_credits now p actor books ≡ ok new
      → (t : PartyType) (party : ℕ)
      → signed_total t party new.entries
        ≡ signed_total t party books.entries -ℤ payment_share t party p (p.amount +ℤ p.tds_amount)
  credits_total now p actor books new one nonnegative e t party =
      let (cash, did, e1) =
        bind-ok (post now (credit_post p payment (to_string (money p.amount)) actor) books) _ e in
      tds_total now p actor cash.1 new one nonnegative e1 t party
      ∙ ap (λ x. x -ℤ payment_share t party p p.tds_amount)
          (credited_total now p payment (to_string (money p.amount)) actor books cash.1 cash.0 one
            did t party)
      ∙ rw to_fixed_amount (two_shares (payment_where t party p) p.amount p.tds_amount _)
