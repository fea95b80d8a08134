-- ===== src/UnitHolds.antt =====
-- What a unit is promised to, over the tables that the reservation, proposal and sale services
-- share: its active reservations, its accepted proposals that no sale has taken over, and its
-- current sales.
mod Accounts
pub mod Status
pub mod Balance
pub mod Reservations
pub use Accounts.*
pub mod Requests
pub mod Proposals
pub mod Sales
pub mod Receivables
