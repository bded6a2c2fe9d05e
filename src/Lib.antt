-- ===== src/Lib.antt =====
-- gunyah-test-vmm
--
-- A virtual machine monitor for the Gunyah hypervisor, in Rust. The crate gunyah wraps the descriptors
-- of the hypervisor's driver; the crate vmm builds a machine on it, whose devices and memory stand on a
-- bus; the program in src reads the command line, places the binaries in memory and starts the machine.
--
-- What stands where:
-- - Base, Errors, Effects: shared helpers. `Outcome` is a Rust result or a panic; `Profile` says whether
--   arithmetic that overflows panics (debug) or wraps (release); `M K` is a call that reaches the
--   system, whose state it passes along also when it fails.
-- - Bus (vmm/src/bus.rs): the map of a bus is a list in the order of its keys. Bus/Devices has the
--   operations of the map, Bus/Dispatch the trait of a device and `read`, `write` and the collectors.
--   Bus/Invariant, Bus/Lookup, Bus/Contract and Bus/LastAddress hold the theorems.
-- - Types (src/types.rs): addresses and sizes. A text is a list of ASCII codes. Types/Text and
--   Types/Radix are the functions of the standard library that the code uses.
-- - Gunyah (gunyah/src, gunyah-bindings/src): Gunyah/Kernel has the requests and the kernel, a record of
--   functions on a state that is a parameter; Gunyah/Wire the same requests as they are handed over, the
--   number of an ioctl and the bytes of its structure (ioctls.rs, bindings.rs); Gunyah/Device the driver
--   (gunyah.rs), Gunyah/Vm the machine's descriptor (vm.rs), Gunyah/GuestMem the memory files
--   (guest_mem.rs), Gunyah/Functions irqfd.rs, ioeventfd.rs and vcpu.rs. Gunyah/Ack is what the feature
--   ack-bindings puts in place of parts of vm.rs, guest_mem.rs and gunyah.rs; all else stands for the
--   build without it.
-- - Vmm (vmm/src): Vmm/Memory is memory.rs, Vmm/Interrupt interrupt.rs, Vmm/Vcpu vcpu.rs and Vmm/Machine
--   virtual_machine.rs; Vmm/Machine/Extents, Parts and Hole follow a hole that is punched to the bus;
--   Vmm/Machine/Files, Writes, Given and Listed are about memory that a machine is given.
--   Operations keep the names of the Rust methods, with the type in front where two
--   types share a name; `drop_x` is the `Drop` of x.
--   Vmm/DeviceTree has `create_fdt_basic_config` and `create_fdt_vm_config`.
-- - Fdt: the writer of device trees (the crate vm-fdt), a record of its methods that is a parameter, and
--   device trees as data (Fdt/Tree). Fdt/Nesting states the writer's documented rules.
-- - Serial (src/serial.rs): the serial console; Serial/Guest is what the guest gets from it, through the
--   exits of a vCPU and the bus.
-- - Run (src/main.rs): Run/Args the command line, Run/Align the alignment, Run/Layout the placement of
--   the binaries and its checks, Run/Boot `generate_fdt`, `load_binaries` and `execute` on a `Host`, the
--   record of what the program takes from the system besides the kernel; Run/Boot/Written, Loaded and
--   SetUp follow the binaries into guest memory.
-- - Run/Threads (src/main.rs, vmm/src/vcpu.rs, src/serial.rs): the threads of the vCPUs and of the standard
--   input, a step at a time, with the locks of the devices and their poisoning. Run/Threads/AtOnce is the
--   machine without locks that handles each exit at once, Run/Threads/Simulation, Found and Refines lead
--   from one to the other, Locks and Deadlock are about who holds a lock, and Join is the end of `execute`.
-- - Tests: runs on concrete inputs, and the theorems applied to such inputs.
--
-- Bounds and fuel: u64 and usize are natural numbers, and every sum, difference and product that can
-- overflow says what happens then; usize has 64 bits. `emit` prints a number with fuel for 64 digits,
-- which is enough for a number below 2 ^ 64 in any radix. `run_rounds` watches the endless loop of a
-- vCPU for a number of rounds.
--
-- Not modelled: the code that nix makes of the number of an ioctl; the parsing of the command line (the
-- crate clap); changes of the bus while vCPUs run, which the program does not make; locks outside
-- Run/Threads, which are taken and released within one call and are never poisoned there; the lock of a
-- vCPU, which only its own thread takes; the closing of descriptors; the copy of unsafe_read.rs, whose
-- work is done in C; the bytes that a mapping holds, which the kernel's functions stand for; what a device
-- has done to a buffer when a copy fails; the registers of the serial console (the crate vm-superio), a
-- parameter.
--
-- The model begins the thread on the standard input together with the threads of the vCPUs; the program
-- starts it in `SerialDevice::new`. What it has put into the registers before then is in the state that
-- the threads begin with. A device that an insertion replaces at the last address of u64 is not dropped.
mod Base
pub mod Errors
pub mod Effects
pub mod Bus
pub mod Types
pub mod Fdt
pub mod Gunyah
pub mod Vmm
pub mod Serial
pub mod Run
mod Tests
