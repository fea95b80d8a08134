-- ===== src/Reservations.antt =====
-- Reservations of units: src/reservations/reservations.service.ts. Every request runs at one
-- reading `now` of the clock.
pub mod Expiry
pub mod Requests
