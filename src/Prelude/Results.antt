-- ===== src/Prelude/Results.antt =====
-- The error classes of apps/api/src/common/errors/domain.error.ts that the modelled code throws, the
-- exceptions of the contracts package, and results that carry them. Messages are left out.
pub mod Inversion
use mathlib.Core.Bool.{Bool, true, false}

pub data Error : Type 0 where
  validation not_found conflict insufficient_stock immutable_record self_approval : Error
  permission_denied internal : Error
  -- A statement that the database refuses: a foreign key that names no row.
  database : Error
  -- `RangeError` and `TypeError`.
  range type_error : Error

pub data Result {ℓ} (A : Type ℓ) : Type ℓ where
  err : Error → Result A
  ok : A → Result A

-- `if (condition) throw e`.
abbrev pub throw_if : Bool → Error → Result (Unit {0})
throw_if condition e = elim condition [ true ↦ err e | false ↦ ok tt ]

-- A statement, and the rest of the function.
infixl 5 ◌>>◌ ◌>>=◌
abbrev pub ◌>>=◌ {κ ℓ} : {B : Type κ} {A : Type ℓ} → Result B → (B → Result A) → Result A
first >>= rest = elim first [ err e ↦ err e | ok value ↦ rest value ]

abbrev pub ◌>>◌ {ℓ} : {A : Type ℓ} → Result (Unit {0}) → Result A → Result A
first >> rest = elim first [ err e ↦ err e | ok _ ↦ rest ]
