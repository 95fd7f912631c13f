-- ===== src/Discount/Winner.antt =====
-- Which rule `selectDiscount` picks, and what it tells of the others, by their minimums.
use distribuitor_app.Prelude.{
  ◌≡◌, refl, subst, ◌∙◌, inl, inr, Bool, true, ◌&&◌, some, List, [], ◌∷◌, select, map, Bool-cases,
  Option-cases, if◌then◌else◌, ◌==◌,
}
use distribuitor_app.Decimal.{Decimal}
use distribuitor_app.Money.{Amount, money, multiply}
use distribuitor_app.Discount.{
  DiscountRule, DiscountCandidate, select_discount, is_eligible, is_accepted,
}
use distribuitor_app.Discount.Ranking.{IsBefore}
use distribuitor_app.Discount.Selection.{
  IsOneOf, one_of_All, reason_given, explained, select_discount-IsLeast, select_discount-none_iff,
  select_discount-explained,
}
use distribuitor_app.Discount.Eligible.{
  Qualifies, shortfall, rejection-shortfall, eligible-Qualifies, Qualifies-eligible,
}

IsOneOf-select :
    (p : DiscountRule → Bool) (w : DiscountRule) (rs : List DiscountRule)
    → IsOneOf w (select p rs)
    → IsOneOf w rs × (p w ≡ true)
IsOneOf-select p w [] h = absurd h
IsOneOf-select p w (r ∷ rest) h = elim (Bool-cases (p r)) [
  | inl passes ↦
      elim (rw (passes, if◌then◌else◌) at h) as (λ _. IsOneOf w (r ∷ rest) × (p w ≡ true)) [
        | inl same ↦ (inl same, rw same passes)
        | inr later ↦ let (there, ok) = IsOneOf-select p w rest later in (inr there, ok)
      ]
  | inr fails ↦
      let (there, ok) = IsOneOf-select p w rest (rw (fails, if◌then◌else◌) at h) in (inr there, ok)
]

select-IsOneOf :
    (p : DiscountRule → Bool) (w : DiscountRule) (rs : List DiscountRule)
    → IsOneOf w rs
    → p w ≡ true
    → IsOneOf w (select p rs)
select-IsOneOf p w [] h passes = absurd h
select-IsOneOf p w (r ∷ rest) (inl same) passes =
    let passes_r : p r ≡ true = subst (λ x. p x ≡ true) same passes in
    rw (passes_r, if◌then◌else◌) (inl same)
select-IsOneOf p w (r ∷ rest) (inr later) passes = elim (Bool-cases (p r)) [
  | inl hit ↦ rw (hit, if◌then◌else◌) (inr (select-IsOneOf p w rest later passes))
  | inr miss ↦ rw (miss, if◌then◌else◌) (select-IsOneOf p w rest later passes)
]

-- What the selection says of each rule, given the winner.
abbrev pub described : Amount → Amount → DiscountRule → DiscountRule → DiscountCandidate
described quantity price w r = record {
  rule = r;
  applied = is_accepted (shortfall quantity price r) && r.id == w.id;
  rejected_because = reason_given w r (shortfall quantity price r);
}

module _ ⦃dec : Decimal⦄ where
  -- When some rule qualifies, by its minimum quantity and its minimum amount, there is a winner, which
  -- is one of the rules, qualifies too, and is not ranked after that rule.
  pub select_discount_wins :
      (rules : List DiscountRule) (quantity price : Amount) (r : DiscountRule)
      → IsOneOf r rules
      → Qualifies quantity price r
      → (w : DiscountRule) × ((select_discount rules quantity
            (multiply (money price) quantity)).winner
          ≡ some w)
        × IsOneOf w rules
        × Qualifies quantity price w
        × IsBefore w r
  select_discount_wins rules quantity price r there q =
      let gross = multiply (money price) quantity in
      let kept =
        select-IsOneOf (is_eligible quantity gross) r rules there
          (Qualifies-eligible quantity price r q) in
      elim (Option-cases (select_discount rules quantity gross).winner) [
        | inl nobody ↦
            let empty = (select_discount-none_iff rules quantity gross).0 nobody in
            absurd (subst (IsOneOf r) empty kept)
        | inr (w, e) ↦
            let (one, least) = select_discount-IsLeast rules quantity gross w e in
            let (of_rules, eligible) = IsOneOf-select (is_eligible quantity gross) w rules one in
            (
              w,
              e,
              of_rules,
              eligible-Qualifies quantity price w eligible,
              one_of_All (IsBefore w) r (select (is_eligible quantity gross) rules) kept least,
            )
      ]

  map-described :
      (quantity price : Amount) (w : DiscountRule) (rules : List DiscountRule)
      → map (explained quantity (multiply (money price) quantity) w) rules
        ≡ map (described quantity price w) rules
  map-described quantity price w [] = refl
  map-described quantity price w (r ∷ rest) =
      rw (map-described quantity price w rest, rejection-shortfall quantity price r) refl

  -- With a winner, each rule is told why it does not apply: that the quantity is below its minimum, or
  -- else that the worth of the line is, or else, unless it has the winner's id, that the winner outranks
  -- it.
  pub select_discount-described :
      (rules : List DiscountRule) (quantity price : Amount) (w : DiscountRule)
      → (select_discount rules quantity (multiply (money price) quantity)).winner ≡ some w
      → (select_discount rules quantity (multiply (money price) quantity)).candidates
        ≡ map (described quantity price w) rules
  select_discount-described rules quantity price w e =
      select_discount-explained rules quantity (multiply (money price) quantity) w e
      ∙ map-described quantity price w rules
