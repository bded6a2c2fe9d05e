-- ===== src/Gunyah.antt =====
-- The crate gunyah: the objects behind the descriptors of the Gunyah hypervisor driver.
pub mod Kernel
pub mod Vm
pub mod Wire
pub mod GuestMem
pub mod Device
pub mod Functions
pub mod Ack
