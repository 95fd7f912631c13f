-- ===== src/Payments/Credited.antt =====
-- The credits that a verification posts, over the ledger's rows of each payment.
use distribuitor_app.Prelude.{
  ℕ, ◌<◌, ◌≡◌, refl, ap, sym, subst, ◌∙◌, inl, inr, Bool, true, false, ◌&&◌, pos, ◌+ℤ◌, ◌-ℤ◌, ltb_ℤ,
  some, List, All, find_first-update_self, find_first-update_ne, ◌==◌, ==_iff, if◌then◌else◌,
  int_laws, parts_of_eq, Bool-cases,
}
use mathlib.Core.Option.{some-injective}
use distribuitor_app.Prelude.Results.{ok}
use distribuitor_app.Prelude.Results.Inversion.{bind-ok, ok-injective}
use distribuitor_app.Decimal.{Decimal}
use distribuitor_app.Decimal.Laws.{to_fixed_amount, greater_than_zero}
use distribuitor_app.Money.{Amount, money, to_string}
use distribuitor_app.Statuses.Invoices.{PartyType, EntryType, payment, tds, recorded}
use distribuitor_app.Finance.{Books, post, party_where}
use distribuitor_app.Finance.Postings.{post-IsPosted}
use distribuitor_app.Finance.Rows.{
  HasOneParty, entry_share, AreEntries, posted_row, posted-AreEntries, posted-sum, posted_columns,
}
use distribuitor_app.Settlement.{Payment, find_payment, update_payment_row}
use distribuitor_app.Payments.{credit_post, post_tds, post_credits}
use distribuitor_app.Payments.Invariant.{payment_where, payment_share, payment_where-row, zero_lem}
use distribuitor_app.Payments.Booked.{
  IsBooked, IsDated, is_live, original_share, original_total, taken,
}

-- What credits for a payment have done.
pub record IsCredited (p : Payment) (delta : Amount) (books new : Books) : Type 0 where
  pub entries : AreEntries books → AreEntries new
  pub dated :
      (next : ℕ) → p.id < next → All (IsDated next) books.entries → All (IsDated next) new.entries
  pub totals :
      (id : ℕ) (type : PartyType) (party : ℕ)
      → original_total id type party new
        ≡ original_total id type party books
          -ℤ (if p.id == id then payment_share type party p delta else pos 0)

and_true : (b : Bool) → b && true ≡ b
and_true true = refl
and_true false = refl

credit_row_shift :
    (b w w' : Bool) (amount s : Amount)
    → w ≡ w'
    → (if b then (if w then pos 0 -ℤ amount else pos 0) else pos 0) +ℤ s
      ≡ s -ℤ (if b then (if w' then amount else pos 0) else pos 0)
credit_row_shift true true true amount s e = omega int_laws
credit_row_shift true false false amount s e = omega int_laws
credit_row_shift true true false amount s e = absurd cc
credit_row_shift true false true amount s e = absurd cc
credit_row_shift false w w' amount s e = omega int_laws

module _ ⦃dec : Decimal⦄ where
  posted-IsCredited :
      (now : ℕ) (p : Payment) (type : EntryType) (amount : Amount) (actor : ℕ) (books new : Books)
      (id : ℕ)
      → HasOneParty p.distributor_id p.customer_id
      → post now (credit_post p type amount actor) books ≡ ok (id, new)
      → IsCredited p amount books new
  posted-IsCredited now p type amount actor books new id one e =
      let s = post-IsPosted now (credit_post p type amount actor) books new id e in
      let (d_is, c_is) = posted_columns p.distributor_id p.customer_id s.party one s.party_named in
      record {
        entries = posted-AreEntries s;
        dated = λ next below all.
            subst (λ (b : Books). All (IsDated next) b.entries) (sym s.appended)
              (
                λ k mine.
                    subst (λ i. i < next) ((==_iff p.id k).0 (sym (and_true (p.id == k)) ∙ mine))
                      below,
                all,
              );
        totals = λ k t party.
            posted-sum s (original_share k t party)
            ∙ ap
                (λ b.
                  (if b then entry_share t party (posted_row s) else pos 0)
                  +ℤ original_total k t party books)
                (and_true (p.id == k))
            ∙ credit_row_shift (p.id == k) (party_where t party (posted_row s))
                (payment_where t party p) amount _
                (payment_where-row t party p (posted_row s) d_is c_is);
      }

  both_totals :
      (b w : Bool) (s s' s'' x y : Amount)
      → s' ≡ s -ℤ (if b then (if w then x else pos 0) else pos 0)
      → s'' ≡ s' -ℤ (if b then (if w then y else pos 0) else pos 0)
      → s'' ≡ s -ℤ (if b then (if w then x +ℤ y else pos 0) else pos 0)
  both_totals true true s s' s'' x y e h = omega (int_laws, parts_of_eq e, parts_of_eq h)
  both_totals true false s s' s'' x y e h = omega (int_laws, parts_of_eq e, parts_of_eq h)
  both_totals false w s s' s'' x y e h = omega (int_laws, parts_of_eq e, parts_of_eq h)

  no_total :
      (b w : Bool) (s : Amount) → s ≡ s -ℤ (if b then (if w then pos 0 else pos 0) else pos 0)
  no_total true true s = omega int_laws
  no_total true false s = omega int_laws
  no_total false w s = omega int_laws

  tds-IsCredited :
      (now : ℕ) (p : Payment) (actor : ℕ) (books new : Books)
      → HasOneParty p.distributor_id p.customer_id
      → ltb_ℤ p.tds_amount (pos 0) ≡ false
      → post_tds now p actor books ≡ ok new
      → IsCredited p p.tds_amount books new
  tds-IsCredited now p actor books new one nonnegative e =
      elim (Bool-cases (ltb_ℤ (pos 0) p.tds_amount)) [
        | inl positive ↦
            let amount = to_string (money p.tds_amount) in
            let (posted, did, e1) =
              bind-ok (post now (credit_post p tds amount actor) books) _
                (rw (post_tds, greater_than_zero, positive) at e) in
            subst (λ a. IsCredited p a books new) (to_fixed_amount p.tds_amount)
              (subst (λ (b : Books). IsCredited p amount books b) (sym (ok-injective e1))
                (posted-IsCredited now p tds amount actor books posted.1 posted.0 one did))
        | inr zero ↦
            let same : ok books ≡ ok new = rw (post_tds, greater_than_zero, zero) at e in
            subst (λ a. IsCredited p a books new) (sym (zero_lem p.tds_amount nonnegative zero))
              (subst (λ (b : Books). IsCredited p (pos 0) books b) (sym (ok-injective same))
                (record {
                  entries = λ all. all;
                  dated = λ next below all. all;
                  totals = λ k t party. no_total (p.id == k) (payment_where t party p) _;
                }))
      ]

  pub credits-IsCredited :
      (now : ℕ) (p : Payment) (actor : ℕ) (books new : Books)
      → HasOneParty p.distributor_id p.customer_id
      → ltb_ℤ p.tds_amount (pos 0) ≡ false
      → post_credits now p actor books ≡ ok new
      → IsCredited p (p.amount +ℤ p.tds_amount) books new
  credits-IsCredited now p actor books new one nonnegative e =
      let amount = to_string (money p.amount) in
      let (cash, did, e1) = bind-ok (post now (credit_post p payment amount actor) books) _ e in
      let first =
        subst (λ a. IsCredited p a books cash.1) (to_fixed_amount p.amount)
          (posted-IsCredited now p payment amount actor books cash.1 cash.0 one did) in
      let second = tds-IsCredited now p actor cash.1 new one nonnegative e1 in
      record {
        entries = λ all. second.entries (first.entries all);
        dated = λ next below all. second.dated next below (first.dated next below all);
        totals = λ k t party.
            both_totals (p.id == k) (payment_where t party p) _ _ _ p.amount p.tds_amount
              (first.totals k t party) (second.totals k t party);
      }

less_zero : (a : Amount) → a -ℤ pos 0 ≡ a
less_zero a = omega int_laws

first_credit :
    (b : Bool) (s s' before after share : Amount)
    → b ≡ true
    → s' ≡ s -ℤ (if b then share else pos 0)
    → s ≡ pos 0 -ℤ before
    → before ≡ pos 0
    → after ≡ share
    → s' ≡ pos 0 -ℤ after
first_credit true s s' x y z _ a b c e =
    omega (int_laws, parts_of_eq a, parts_of_eq b, parts_of_eq c, parts_of_eq e)
first_credit false s s' x y z e a b c h = absurd cc

-- A recorded payment that is verified and credited.
pub verified-IsBooked :
    (p : Payment) (f : Payment → Payment) (payments : List Payment) (next : ℕ) (books new : Books)
    → find_payment p.id payments ≡ some p
    → p.status ≡ recorded
    → p.id < next
    → ((y : Payment) → (f y).id ≡ y.id)
    → ((type : PartyType) (party : ℕ)
        → taken type party (f p) ≡ payment_share type party p (p.amount +ℤ p.tds_amount))
    → IsCredited p (p.amount +ℤ p.tds_amount) books new
    → IsBooked payments next books
    → IsBooked (update_payment_row p.id f payments) next new
verified-IsBooked p f payments next books new found status_is below keep took c b = record {
  entries = c.entries b.entries;
  dated = c.dated next below b.dated;
  credited = λ id q e live type party. elim (Bool-cases (p.id == id)) [
    | inl this ↦
        let id_is = (==_iff p.id id).0 this in
        let now = find_first-update_self (λ (x : Payment). x.id) p.id f p payments keep found in
        let q_is = some-injective (f p) q (
          sym now
          ∙ subst (λ i. find_payment i (update_payment_row p.id f payments) ≡ some q) (sym id_is)
              e) in
        let was_live : is_live p.status ≡ true = rw status_is refl in
        let idle : taken type party p ≡ pos 0 = rw status_is refl in
        subst (λ i. original_total i type party new ≡ pos 0 -ℤ taken type party q) id_is
          (first_credit (p.id == p.id) _ _ _ _ _ ((==_iff p.id p.id).1 refl)
            (c.totals p.id type party) (b.credited p.id p found was_live type party) idle
            (sym (ap (λ (x : Payment). taken type party x) q_is) ∙ took type party))
    | inr other ↦
        c.totals id type party
        ∙ rw other (
            less_zero _
            ∙ b.credited id q
                (sym (find_first-update_ne (λ (x : Payment). x.id) id p.id f keep other payments)
                  ∙ e)
                live type party)
  ];
}
