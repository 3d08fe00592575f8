-- ===== src/Examples.antt =====
-- Concrete hosts, and the theorems applied to them.
pub mod Hosts
mod Sends
mod Interrupts
mod Conversation
pub mod Device
mod Arrival
mod Drivers
pub mod Probes
pub mod Older
pub mod Network
mod Pings
mod Drains
mod Emissions
mod Cards
