-- ===== src/Prelude/Rows.antt =====
-- Tables as lists of rows: the row that a statement finds is the one it updates or deletes.
use Prim.Native.Nat.{ℕ}
use mathlib.Core.Path.{◌≡◌, refl, subst}
use mathlib.Core.Logic.{inl, inr}
use mathlib.Core.Bool.{Bool, true, false}
use mathlib.Core.Option.{some, some-injective}
use mathlib.Core.List.{List, [], ◌∷◌}
use native.Mathlib.Omega.{arith}
use distribuitor_app.Prelude.Tests.{◌==◌, if◌then◌else◌, Bool-cases}
use distribuitor_app.Prelude.Lists.{find_first, All}
use distribuitor_app.Prelude.Int.{ℤ, pos, ◌+ℤ◌, int_laws, +ℤ_assoc}

module _ {ℓ} {A : Type ℓ} where
  abbrev pub update_first : (A → Bool) → (A → A) → List A → List A
  update_first p f [] = []
  update_first p f (x ∷ xs) = if p x then f x ∷ xs else x ∷ update_first p f xs

  abbrev pub delete_first : (A → Bool) → List A → List A
  delete_first p [] = []
  delete_first p (x ∷ xs) = if p x then xs else x ∷ delete_first p xs

  abbrev pub sum_by : (A → ℤ) → List A → ℤ
  sum_by w [] = pos 0
  sum_by w (x ∷ xs) = w x +ℤ sum_by w xs

  pub sum_by-update_first :
      (w : A → ℤ) (p : A → Bool) (f : A → A) (x : A) (xs : List A)
      → find_first p xs ≡ some x
      → sum_by w (update_first p f xs) +ℤ w x ≡ sum_by w xs +ℤ w (f x)
  sum_by-update_first w p f x [] e = absurd cc
  sum_by-update_first w p f x (y ∷ ys) e = elim (Bool-cases (p y)) [
    | inl hit ↦ let same = some-injective y x (rw hit at e) in rw (hit, same) (omega int_laws)
    | inr miss ↦
        let rest = sum_by-update_first w p f x ys (rw miss at e) in
        rw (miss, +ℤ_assoc, +ℤ_assoc, rest) refl
  ]

  pub sum_by-delete_first :
      (w : A → ℤ) (p : A → Bool) (x : A) (xs : List A)
      → find_first p xs ≡ some x
      → sum_by w (delete_first p xs) +ℤ w x ≡ sum_by w xs
  sum_by-delete_first w p x [] e = absurd cc
  sum_by-delete_first w p x (y ∷ ys) e = elim (Bool-cases (p y)) [
    | inl hit ↦ let same = some-injective y x (rw hit at e) in rw (hit, same) (omega int_laws)
    | inr miss ↦
        let rest = sum_by-delete_first w p x ys (rw miss at e) in rw (miss, +ℤ_assoc, rest) refl
  ]

  -- The row that a search finds passes its test.
  pub find_first-passes :
      (p : A → Bool) (x : A) (xs : List A) → find_first p xs ≡ some x → p x ≡ true
  find_first-passes p x [] e = absurd cc
  find_first-passes p x (y ∷ ys) e = elim (Bool-cases (p y)) [
    | inl hit ↦ let same = some-injective y x (rw hit at e) in rw (← same) hit
    | inr miss ↦ find_first-passes p x ys (rw miss at e)
  ]

  pub find_first-All {κ} :
      (P : A → Type κ) (p : A → Bool) (x : A) (xs : List A)
      → find_first p xs ≡ some x
      → All P xs
      → P x
  find_first-All P p x [] e all = absurd cc
  find_first-All P p x (y ∷ ys) e all = elim (Bool-cases (p y)) [
    | inl hit ↦ subst P (some-injective y x (rw hit at e)) all.0
    | inr miss ↦ find_first-All P p x ys (rw miss at e) all.1
  ]

  pub All-update_first {κ} :
      (P : A → Type κ) (p : A → Bool) (f : A → A)
      → ((x : A) → P x → P (f x))
      → (xs : List A) → All P xs
      → All P (update_first p f xs)
  All-update_first P p f keep [] all = tt
  All-update_first P p f keep (x ∷ xs) all = elim (Bool-cases (p x)) [
    | inl hit ↦ rw hit (keep x all.0, all.1)
    | inr miss ↦ rw miss (all.0, All-update_first P p f keep xs all.1)
  ]

  pub All-delete_first {κ} :
      (P : A → Type κ) (p : A → Bool) (xs : List A) → All P xs → All P (delete_first p xs)
  All-delete_first P p [] all = tt
  All-delete_first P p (x ∷ xs) all = elim (Bool-cases (p x)) [
    | inl hit ↦ rw hit all.1
    | inr miss ↦ rw miss (all.0, All-delete_first P p xs all.1)
  ]

  module _ (key : A → ℕ) where
    -- An update that keeps the key changes what is found at that key, and nothing else.
    pub find_first-update_ne :
        (j k : ℕ) (f : A → A)
        → ((x : A) → key (f x) ≡ key x)
        → (k == j) ≡ false
        → (xs : List A)
        → find_first (λ x. key x == j) (update_first (λ x. key x == k) f xs)
          ≡ find_first (λ x. key x == j) xs
    find_first-update_ne j k f keep ne [] = refl
    find_first-update_ne j k f keep ne (x ∷ xs) = elim (Bool-cases (key x == k)) [
      | inl hit ↦
          let other : (key x == j) ≡ false = ground arith in
          let after : (key (f x) == j) ≡ false = rw (keep x) other in rw (hit, other, after) refl
      | inr miss ↦
          let rest = find_first-update_ne j k f keep ne xs in
          elim (Bool-cases (key x == j)) [
            | inl found ↦ rw (miss, found) refl
            | inr gone ↦ rw (miss, gone) rest
          ]
    ]

    pub find_first-update_self :
        (k : ℕ) (f : A → A) (x : A) (xs : List A)
        → ((y : A) → key (f y) ≡ key y)
        → find_first (λ y. key y == k) xs ≡ some x
        → find_first (λ y. key y == k) (update_first (λ y. key y == k) f xs) ≡ some (f x)
    find_first-update_self k f x [] keep e = absurd cc
    find_first-update_self k f x (y ∷ ys) keep e = elim (Bool-cases (key y == k)) [
      | inl hit ↦
          let same = some-injective y x (rw hit at e) in
          let after : (key (f y) == k) ≡ true = rw (keep y) hit in rw (hit, after, same) refl
      | inr miss ↦ rw (miss, miss) (find_first-update_self k f x ys keep (rw miss at e))
    ]
