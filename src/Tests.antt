-- ===== src/Tests.antt =====
-- Runs of the services on a small database, and the theorems at concrete requests.
mod Samples
mod Valid
mod Holds
mod Sales
mod Stages
mod Visits
mod Matching
mod Permissions
mod Money
mod Display
mod Finance
