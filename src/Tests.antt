-- ===== src/Tests.antt =====
-- Runs of the models on concrete inputs, and the theorems applied to such inputs.
mod Kernels
mod BusTests
mod TypesTests
mod MemoryTests
mod GunyahTests
mod RunTests
mod MachineTests
mod BootTests
mod ExecuteTests
mod TreeTests
mod LoopTests
mod AckTests
mod ThreadTests
mod LoadTests
mod WireTests
