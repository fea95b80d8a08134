-- ===== src/Store.antt =====
-- The database of prisma/schema.prisma as far as the modelled services read and write it, and the
-- requests that run on it. Identifiers and timestamps are numbers, money is in whole cents.
mod Status
mod Commercial
mod Finance
mod Visits
mod Tables
mod Monad
mod Rules
mod Success
mod Checks
pub use Status.*
pub use Commercial.*
pub use Finance.*
pub use Visits.*
pub use Tables.*
unfoldable pub use Monad.*
pub use Rules.*
pub use Success.*
pub use Checks.*
