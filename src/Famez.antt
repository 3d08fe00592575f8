-- ===== src/Famez.antt =====
-- The modular driver `famez.ko` (kernel/famez).
pub mod Types
pub mod Slots
pub mod Outgoing
pub mod Incoming
pub mod Link
pub mod Interrupt
pub mod Vectors
pub mod Adapter
pub mod Probe
pub mod Bind
