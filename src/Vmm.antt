-- ===== src/Vmm.antt =====
-- The crate vmm, above the bus: guest memory, vCPUs, interrupts and the virtual machine.
pub mod Memory
pub mod Vcpu
pub mod Interrupt
pub mod Machine
pub mod DeviceTree
