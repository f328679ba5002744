-- ===== src/BTreeMap.antt =====
-- The ordered maps and sets of the standard library, which hold the state of most components.
mod Order
mod Defs
mod Laws
mod Entries
mod Unique
unfoldable pub use Order.*
unfoldable pub use Defs.*
pub use Laws.*
pub use Entries.*
pub use Unique.*
