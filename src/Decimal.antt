-- ===== src/Decimal.antt =====
-- The decimal.js library (a dependency of packages/contracts, not part of the repository), as far as
-- packages/contracts/src/primitives/money.ts uses it: an interface whose laws are the documented
-- behaviour on decimals written with a coefficient and a number of decimal places.
mod Interface
pub mod Laws
pub mod Scaled
unfoldable pub use Interface.*
