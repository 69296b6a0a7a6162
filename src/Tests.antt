-- ===== src/Tests.antt =====
-- Runs of the models, and the theorems at concrete inputs.
pub mod Server
mod Messages
mod Sessions
mod Handlers
mod Writes
pub mod Drivers
mod Buses
mod Served
mod Mains
