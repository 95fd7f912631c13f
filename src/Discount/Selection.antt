-- ===== src/Discount/Selection.antt =====
-- Which rule `selectDiscount` picks, and what it says of the others.
use mathlib.Core.Option.{some-injective}
use distribuitor_app.Prelude.{
  ◌≡◌, ◌↔◌, refl, sym, subst, ap, ◌∙◌, ◌⊎◌, inl, inr, false, ◌&&◌, pos, leb_ℤ, Option, none, some,
  List, [], ◌∷◌, All, All-map, arith, if◌then◌else◌, Bool-cases, select, map, ◌==◌,
}
use distribuitor_app.Decimal.{Decimal}
use distribuitor_app.Money.{Amount, Money}
use distribuitor_app.Discount.{
  DiscountRule, DiscountCandidate, compare_rules, insert_rule, sort_rules, first_rule, is_eligible,
  rejection, select_discount, mark, marked, candidate_of, concluded, is_accepted, outranked, Reason,
}
use distribuitor_app.Discount.Ranking.{
  IsBefore, compare_rules_iff, IsBefore-total, IsBefore-trans, IsBefore-antisym,
}

-- A rule is one of a list.
abbrev pub IsOneOf : DiscountRule → List DiscountRule → Type 0
IsOneOf w [] = ⊥
IsOneOf w (r ∷ rest) = (w ≡ r) ⊎ IsOneOf w rest

abbrev pub IsLeast : DiscountRule → List DiscountRule → Type 0
IsLeast w rs = IsOneOf w rs × All (IsBefore w) rs

-- The better of a rule and the best of the others.
abbrev better : DiscountRule → Option DiscountRule → DiscountRule
better a none = a
better a (some b) = if leb_ℤ (compare_rules a b) (pos 0) then a else b

first_insert :
    (a : DiscountRule) (ys : List DiscountRule)
    → first_rule (insert_rule a ys) ≡ some (better a (first_rule ys))
unfolding insert_rule
first_insert a [] = refl
first_insert a (b ∷ rest) = elim (Bool-cases (leb_ℤ (compare_rules a b) (pos 0))) [
  | inl e ↦ rw e
  | inr e ↦ rw e
]

first_sort :
    (a : DiscountRule) (rest : List DiscountRule)
    → first_rule (sort_rules (a ∷ rest)) ≡ some (better a (first_rule (sort_rules rest)))
unfolding sort_rules
first_sort a rest = first_insert a (sort_rules rest)

IsBefore-refl : (a : DiscountRule) → IsBefore a a
IsBefore-refl a = ground arith

later : (a b : DiscountRule) → leb_ℤ (compare_rules a b) (pos 0) ≡ false → IsBefore b a
later a b e = elim (IsBefore-total a b) [
  | inl first ↦ let f = (compare_rules_iff a b).1 first in absurd cc
  | inr second ↦ second
]

none_sorted : (rs : List DiscountRule) → first_rule (sort_rules rs) ≡ none → rs ≡ []
none_sorted [] e = refl
none_sorted (a ∷ rest) e = let f = first_sort a rest in absurd cc

first-IsLeast :
    (rs : List DiscountRule) (w : DiscountRule) → first_rule (sort_rules rs) ≡ some w → IsLeast w rs
unfolding sort_rules
first-IsLeast [] w e = absurd cc
first-IsLeast (a ∷ rest) w e =
    let best : some (better a (first_rule (sort_rules rest))) ≡ some w =
      sym (first_sort a rest) ∙ e in
    subst (λ x. IsLeast x (a ∷ rest)) (some-injective _ w best)
      (go (first_rule (sort_rules rest)) (none_sorted rest) (first-IsLeast rest))
  where
    go :
        (o : Option DiscountRule)
        → (o ≡ none → rest ≡ [])
        → ((v : DiscountRule) → o ≡ some v → IsLeast v rest)
        → IsLeast (better a o) (a ∷ rest)
    go none empty least = (inl refl, (IsBefore-refl a, rw (empty refl) tt))
    go (some b) empty least = elim (Bool-cases (leb_ℤ (compare_rules a b) (pos 0))) [
      | inl e ↦
          let first = (compare_rules_iff a b).0 e in
          let same : better a (some b) ≡ a = rw e in
          subst (λ x. IsLeast x (a ∷ rest)) (sym same)
            (
              inl refl,
              (
                IsBefore-refl a,
                All-map (IsBefore b) (IsBefore a) (λ c. IsBefore-trans a b c first) rest
                    (least b refl).1,
              ),
            )
      | inr e ↦
          let same : better a (some b) ≡ b = rw e in
          subst (λ x. IsLeast x (a ∷ rest)) (sym same)
            (inr (least b refl).0, (later a b e, (least b refl).1))
    ]

pub one_of_All {κ} :
    (P : DiscountRule → Type κ) (w : DiscountRule) (rs : List DiscountRule)
    → IsOneOf w rs
    → All P rs
    → P w
one_of_All P w [] h all = absurd h
one_of_All P w (r ∷ rest) (inl e) all = subst P (sym e) all.0
one_of_All P w (r ∷ rest) (inr h) all = one_of_All P w rest h all.1

concluded_winner :
    (cs : List DiscountCandidate) (o : Option DiscountRule) → (concluded cs o).winner ≡ o
concluded_winner cs none = refl
concluded_winner cs (some w) = refl

-- The reason that a selection with a winner gives for a rule.
abbrev pub reason_given : DiscountRule → DiscountRule → Option Reason → Option Reason
reason_given w r (some reason) = some reason
reason_given w r none = if r.id == w.id then none else some (outranked w.code w.priority w.scope)

module _ ⦃dec : Decimal⦄ where
  select_discount_winner :
      (rules : List DiscountRule) (quantity : Amount) (gross : Money)
      → (select_discount rules quantity gross).winner
        ≡ first_rule (sort_rules (select (is_eligible quantity gross) rules))
  unfolding select_discount
  select_discount_winner rules quantity gross =
      concluded_winner (map (candidate_of quantity gross) rules)
        (first_rule (sort_rules (select (is_eligible quantity gross) rules)))

  -- The winner is least among the rules that the loop keeps.
  pub select_discount-IsLeast :
      (rules : List DiscountRule) (quantity : Amount) (gross : Money) (w : DiscountRule)
      → (select_discount rules quantity gross).winner ≡ some w
      → IsLeast w (select (is_eligible quantity gross) rules)
  select_discount-IsLeast rules quantity gross w e =
      first-IsLeast (select (is_eligible quantity gross) rules) w
        (sym (select_discount_winner rules quantity gross) ∙ e)

  -- There is no winner exactly when the loop keeps no rule.
  pub select_discount-none_iff :
      (rules : List DiscountRule) (quantity : Amount) (gross : Money)
      → ((select_discount rules quantity gross).winner ≡ none)
        ↔ (select (is_eligible quantity gross) rules ≡ [])
  unfolding sort_rules
  select_discount-none_iff rules quantity gross = (
    λ e. none_sorted _ (sym (select_discount_winner rules quantity gross) ∙ e),
    λ e. select_discount_winner rules quantity gross ∙ rw e,
  )

  -- The order in which the rules are given does not decide: two lists with the same eligible rules,
  -- of which those with one code are one rule, have one winner.
  pub select_discount_order :
      (rules rules' : List DiscountRule) (quantity : Amount) (gross : Money) (w w' : DiscountRule)
      → ((r : DiscountRule)
          → IsOneOf r (select (is_eligible quantity gross) rules)
            ↔ IsOneOf r (select (is_eligible quantity gross) rules'))
      → ((r s : DiscountRule)
          → IsOneOf r (select (is_eligible quantity gross) rules)
          → IsOneOf s (select (is_eligible quantity gross) rules)
          → r.code ≡ s.code
          → r ≡ s)
      → (select_discount rules quantity gross).winner ≡ some w
      → (select_discount rules' quantity gross).winner ≡ some w'
      → w ≡ w'
  select_discount_order rules rules' quantity gross w w' same codes e e' =
      let (there, least) = select_discount-IsLeast rules quantity gross w e in
      let (there', least') = select_discount-IsLeast rules' quantity gross w' e' in
      let here = (same w').1 there' in
      codes w w' there here (
        IsBefore-antisym w w'
          (one_of_All (IsBefore w) w' (select (is_eligible quantity gross) rules) here least)
          (one_of_All (IsBefore w') w (select (is_eligible quantity gross) rules')
            ((same w).0 there) least'))

  -- What the selection says of each rule, given the winner.
  abbrev pub explained : Amount → Money → DiscountRule → DiscountRule → DiscountCandidate
  explained quantity gross w r = record {
    rule = r;
    applied = is_eligible quantity gross r && r.id == w.id;
    rejected_because = reason_given w r (rejection quantity gross r);
  }

  mark-explained :
      (quantity : Amount) (gross : Money) (w : DiscountRule) (rules : List DiscountRule)
      → map (mark w) (map (candidate_of quantity gross) rules)
        ≡ map (explained quantity gross w) rules
  mark-explained quantity gross w [] = refl
  mark-explained quantity gross w (r ∷ rest) = rw (mark-explained quantity gross w rest) (
      ap (λ (c : DiscountCandidate). c ∷ map (explained quantity gross w) rest)
        (go (rejection quantity gross r) refl))
    where
      go :
          (o : Option Reason)
          → rejection quantity gross r ≡ o
          → mark w (candidate_of quantity gross r) ≡ explained quantity gross w r
      go o e = rw e (marked_as o)
        where
          marked_as :
              (o : Option Reason)
              → marked w o (record { rule = r; applied = false; rejected_because = o }) ≡ record {
                rule = r;
                applied = is_accepted o && r.id == w.id;
                rejected_because = reason_given w r o;
              }
          marked_as none = elim (Bool-cases (r.id == w.id)) [
            | inl same ↦ rw same
            | inr other ↦ rw other
          ]
          marked_as (some reason) = refl

  -- With a winner, each candidate is marked by the reason that the loop found.
  pub select_discount-explained :
      (rules : List DiscountRule) (quantity : Amount) (gross : Money) (w : DiscountRule)
      → (select_discount rules quantity gross).winner ≡ some w
      → (select_discount rules quantity gross).candidates ≡ map (explained quantity gross w) rules
  unfolding select_discount
  select_discount-explained rules quantity gross w e =
      let top = sym (select_discount_winner rules quantity gross) ∙ e in
      rw (select_discount, top) (mark-explained quantity gross w rules)
