-- ===== src/Genz.antt =====
-- The Gen-Z subsystem of kernel/genz: the bus, its device classes, and bridge devices.
pub mod Class
pub mod Bus
pub mod Register
