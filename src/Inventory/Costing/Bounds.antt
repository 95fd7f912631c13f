-- ===== src/Inventory/Costing/Bounds.antt =====
-- Where the moving average lies.
use distribuitor_app.Prelude.{
  ℕ, suc, ◌+◌, ◌*◌, ◌≤◌, ◌≡◌, refl, ap, ◌∙◌, Bool, true, false, ◌||◌, leb_ℤ, ltb_ℤ, eqb_ℤ,
  Bool-cases, inl, inr, if◌then◌else◌, pos, ◌+ℤ◌, ◌*ℤ◌, Option, none, some, arith, *ℤ_one,
  pos-+ℤ-pos, pos-*ℤ-pos,
}
use distribuitor_app.Prelude.Results.{ok}
use distribuitor_app.Decimal.{Decimal, half_up, rounded_ℕ}
use distribuitor_app.Decimal.Laws.{
  plus_amounts, less_than_or_equal_amounts, is_zero_amount, to_fixed_amount, greater_than_zero,
  le-rounded, rounded-le,
}
use distribuitor_app.Money.{Amount, Money, money, round}
use distribuitor_app.Inventory.Costing.{AverageCostInput, next_average_cost}

abbrev pub or_else : Option Amount → Amount → Amount
or_else none a = a
or_else (some c) a = c

abbrev pub is_none : Option Amount → Bool
is_none none = true
is_none (some c) = false

module _ ⦃dec : Decimal⦄ where
  abbrev pub cost_input : Amount → Amount → Amount → Option Amount → AverageCostInput
  cost_input on_hand average quantity unit_cost = record {
    on_hand_before = money on_hand;
    current_average = money average;
    movement_quantity = money quantity;
    movement_unit_cost = unit_cost;
  }

  weighted : ℕ → ℕ → ℕ → ℕ → Money
  weighted h a q c =
      dec.divided_by (dec.of (pos (suc h * a + suc q * c)) 8) (dec.of (pos (suc h + suc q)) 4)

  next_average_cost-weighted :
      (h q a c : ℕ)
      → next_average_cost (cost_input (pos (suc h)) (pos a) (pos (suc q)) (some (pos c)))
        ≡ ok (round 4 (weighted h a q c))
  unfolding next_average_cost weighted
  next_average_cost-weighted h q a c =
      simp
        (
          greater_than_zero, less_than_or_equal_amounts, plus_amounts, is_zero_amount,
          to_fixed_amount, dec.plus_of, dec.times_of, *ℤ_one, pos-+ℤ-pos, pos-*ℤ-pos,
        )
        (ground arith)

  -- The average after a receipt into stock at hand is the value of both over the quantity of both, each
  -- quantity at its own cost, rounded half up to four places. It lies above every lower bound and below
  -- every upper bound of the average before and the cost of the receipt.
  pub next_average_cost_between :
      (h q a c lo hi : ℕ)
      → lo ≤ a
      → lo ≤ c
      → a ≤ hi
      → c ≤ hi
      → (average : ℕ) × (next_average_cost
            (cost_input (pos (suc h)) (pos a) (pos (suc q)) (some (pos c)))
          ≡ ok (money (pos average)))
        × (average ≡ rounded_ℕ half_up (suc h * a + suc q * c) (suc h + suc q))
        × (lo ≤ average)
        × (average ≤ hi)
  unfolding weighted
  next_average_cost_between h q a c lo hi la lc ah ch =
      let value = suc h * a + suc q * c in
      let quantity = suc h + suc q in
      (
        rounded_ℕ half_up value quantity,
        next_average_cost-weighted h q a c
            ∙ ap (λ x. ok x) (dec.quotient_rounded 4 4 half_up (pos value) quantity (omega arith)),
        refl,
        le-rounded lo value quantity (omega arith) (grind arith),
        rounded-le hi value quantity (omega arith) (grind arith),
      )

  -- A movement that is no receipt, has no stated cost or goes into an empty bin averages nothing: an
  -- issue keeps the average, a receipt takes its stated cost, and without one keeps the average.
  pub next_average_cost_plain :
      (on_hand average quantity : Amount) (unit_cost : Option Amount)
      → leb_ℤ quantity (pos 0) || is_none unit_cost || leb_ℤ on_hand (pos 0) ≡ true
      → next_average_cost (cost_input on_hand average quantity unit_cost)
        ≡ ok (money (if leb_ℤ quantity (pos 0) then average else or_else unit_cost average))
  unfolding next_average_cost
  next_average_cost_plain on_hand average quantity none h = simp greater_than_zero (ground arith)
  next_average_cost_plain on_hand average quantity (some c) h =
      simp (greater_than_zero, less_than_or_equal_amounts) (ground arith)

  -- There is always an average.
  pub next_average_cost_total :
      (on_hand average quantity : Amount) (unit_cost : Option Amount)
      → (new : Money) × (next_average_cost (cost_input on_hand average quantity unit_cost) ≡ ok new)
  unfolding next_average_cost
  next_average_cost_total on_hand average quantity none =
      (money average, simp greater_than_zero (ground arith))
  next_average_cost_total on_hand average quantity (some c) =
      let alone = leb_ℤ on_hand (pos 0) || eqb_ℤ (on_hand +ℤ quantity) (pos 0) in
      elim (Bool-cases (ltb_ℤ (pos 0) quantity)) [
        | inr e ↦ (money average, simp (greater_than_zero, e))
        | inl e ↦ elim (Bool-cases alone) [
          | inl f ↦ (
            money c,
            simp
                (greater_than_zero, e, less_than_or_equal_amounts, plus_amounts, is_zero_amount, f),
          )
          | inr f ↦
              let counted : eqb_ℤ (on_hand +ℤ quantity) (pos 0) ≡ false = ground arith in
              let some_left : leb_ℤ on_hand (pos 0) ≡ false = ground arith in
              (
                round 4 (
                    dec.divided_by (dec.of (on_hand *ℤ average +ℤ quantity *ℤ c) 8)
                      (money (on_hand +ℤ quantity))),
                simp (
                  greater_than_zero, e, less_than_or_equal_amounts, plus_amounts, is_zero_amount,
                  some_left, counted, to_fixed_amount, dec.times_of, dec.plus_of, *ℤ_one,
                ),
              )
        ]
      ]
