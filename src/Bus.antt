-- ===== src/Bus.antt =====
-- vmm/src/bus.rs.
pub mod Devices
pub mod Invariant
pub mod Lookup
pub mod Contract
pub mod LastAddress
pub mod Dispatch
