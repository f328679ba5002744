-- ===== src/Decimal.antt =====
-- `rust_decimal::Decimal`, which is not part of the repository: its values up to the numeric `==`,
-- with what its documentation says of them; representations of one number that differ in the scale are
-- not told apart, so `scale` is that of the one a number has. The operations that may overflow return an option. `fixed`
-- is one instance, numbers of eight decimal places up to a bound, which shows that the laws can be met.
mod Interface
mod Fixed
pub use Interface.*
unfoldable pub use Fixed.*
