-- ===== src/UnitHolds/Reservations.antt =====
-- The reservation service (src/reservations/reservations.service.ts) and the commercial invariant.
pub mod Expiry
pub mod Create
pub mod Transition
pub mod Effects
