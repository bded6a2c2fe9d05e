-- ===== src/Run.antt =====
-- src/main.rs: how a virtual machine is set up from the command line.
pub mod Args
pub mod Align
pub mod Layout
pub mod Boot
pub mod Files
pub mod Threads
