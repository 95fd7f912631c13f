-- ===== src/Inventory/Tables.antt =====
-- The tables of apps/api/prisma/schema.prisma that the inventory services read and write. Ids and
-- instants are numbers. A balance is known by its key: its own id is a random uuid that only the
-- statement which found the row uses. The keys of variants and batches are taken to exist.
pub mod Rows
pub mod Steps
use distribuitor_app.Prelude.{
  ℕ, Bool, true, false, ◌&&◌, ◌||◌, ℤ, pos, Option, none, some, List, [], ◌∷◌, any, find_first,
  ◌==◌, if◌then◌else◌,
}
use distribuitor_app.Prelude.Results.{Result, ok, err, Error}
use distribuitor_app.Money.{Amount}
use distribuitor_app.Statuses.Stock.{MovementType, ReservationStatus}

pub record BalanceKey : Type 0 where
  pub warehouse : ℕ
  pub product : ℕ
  pub variant : Option ℕ
  pub batch : Option ℕ

-- `StockBalance`. Its column `quantityAvailable` is derived by the database and never written.
pub record Balance : Type 0 where
  pub key : BalanceKey
  pub on_hand : Amount
  pub reserved : Amount
  pub average_cost : Amount
  pub last_movement_at : Option ℕ

-- `StockLedgerEntry`.
pub record StockEntry : Type 0 where
  pub key : BalanceKey
  pub movement_type : MovementType
  pub quantity : Amount
  pub unit_cost : Amount
  pub ref_type : Option ℕ
  pub ref_id : Option ℕ
  pub reason : Option ℕ
  pub occurred_at : ℕ
  pub created_by : Option ℕ

-- `StockReservation`.
pub record Reservation : Type 0 where
  pub id : ℕ
  pub warehouse : ℕ
  pub product : ℕ
  pub variant : Option ℕ
  pub order : Option ℕ
  pub quantity : Amount
  pub status : ReservationStatus
  pub expires_at : Option ℕ
  pub released_at : Option ℕ
  pub consumed_at : Option ℕ
  pub created_by : Option ℕ

-- What `AuditService.record` is told of an act on stock.
pub data Act : Type 0 where
  stock_reserved reservation_released reservation_expired reservation_consumed : Act

pub record Audit : Type 0 where
  pub act : Act
  pub entity : ℕ

pub record Db : Type 0 where
  pub warehouses : List ℕ
  pub products : List ℕ
  pub balances : List Balance
  -- The newest first.
  pub entries : List StockEntry
  pub reservations : List Reservation
  pub audits : List Audit
  pub next_id : ℕ

-- A transaction: it fails and leaves no trace, or returns a value and the new state.
abbrev pub Tx {ℓ} : Type ℓ → Type ℓ
Tx A = Db → Result (A × Db)

-- The rest of a transaction, given how its first part ended.
abbrev pub continue {ℓ κ} :
    {A : Type ℓ} {B : Type κ} → Result (A × Db) → (A → Tx B) → Result (B × Db)
continue (ok (a, db)) f = f a db
continue (err e) f = err e

infixl 5 ◌>>=◌ ◌>>◌
abbrev pub ◌>>=◌ {ℓ κ} : {A : Type ℓ} {B : Type κ} → Tx A → (A → Tx B) → Tx B
◌>>=◌ m f db = continue (m db) f

abbrev pub ◌>>◌ {ℓ} : {B : Type ℓ} → Tx (Unit {0}) → Tx B → Tx B
m >> k = m >>= λ _. k

abbrev pub pure {ℓ} : {A : Type ℓ} → A → Tx A
pure a db = ok (a, db)

abbrev pub throw_if : Bool → Error → Tx (Unit {0})
throw_if true e db = err e
throw_if false e db = ok (tt, db)

abbrev pub lift {ℓ} : {A : Type ℓ} → Result A → Tx A
lift (ok a) db = ok (a, db)
lift (err e) db = err e

abbrev pub modify : (Db → Db) → Tx (Unit {0})
modify f db = ok (tt, f db)

-- `IS NOT DISTINCT FROM`: NULL matches NULL.
abbrev pub same_option : Option ℕ → Option ℕ → Bool
same_option none none = true
same_option (some a) (some b) = a == b
same_option _ _ = false

abbrev pub same_key : BalanceKey → BalanceKey → Bool
same_key a b =
    a.warehouse == b.warehouse
    && (a.product == b.product && (same_option a.variant b.variant && same_option a.batch b.batch))

abbrev pub find_balance : BalanceKey → List Balance → Option Balance
find_balance k = find_first (λ b. same_key b.key k)

-- An update of the row that `find_balance` finds.
abbrev pub update_balance : BalanceKey → (Balance → Balance) → List Balance → List Balance
update_balance k f [] = []
update_balance k f (b ∷ rest) = if same_key b.key k then f b ∷ rest else b ∷ update_balance k f rest
