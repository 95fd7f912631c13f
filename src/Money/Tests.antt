-- ===== src/Money/Tests.antt =====
-- A hundred rupees in three parts.
use distribuitor_app.Prelude.{
  ◌≡◌, refl, ℕ, ◌+◌, ◌≤◌, ◌*ℤ◌, ◌+ℤ◌, pos, List, [], ◌∷◌, map, length, All, some, arith,
}
use distribuitor_app.Prelude.Results.{ok}
use distribuitor_app.Decimal.{half_up, rounded_ℕ}
use distribuitor_app.Decimal.Scaled.{scaled_decimal}
use distribuitor_app.Money.{money, whole, money_display_scale}
use distribuitor_app.Money.Shares.{allocate, hand_out, paise, total_paise, allocate_even}

hundred_in_three :
    allocate 3 3 money_display_scale (money (whole 100))
    ≡ ok (some (map paise (3_334 ∷ 3_333 ∷ 3_333 ∷ [])))
unfolding allocate hand_out ◌*ℤ◌ ◌+ℤ◌
hundred_in_three = refl

allocate_even_example :
    (shares : List ℕ) × (allocate 3 3 money_display_scale (money (pos 1_000_000))
      ≡ ok (some (map paise shares)))
    × (total_paise shares ≡ rounded_ℕ half_up 1_000_000 100)
    × (length shares ≡ 3)
    × ((base : ℕ) × All (λ (share : ℕ). (base ≤ share) × (share ≤ base + 1)) shares)
allocate_even_example = allocate_even 3 3 1_000_000 (omega arith) (omega arith)
