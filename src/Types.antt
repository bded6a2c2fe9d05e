-- ===== src/Types.antt =====
-- src/types.rs: guest addresses and sizes, how they are read from the command line and printed.
pub mod Text
pub mod Radix
pub mod Digits
pub mod Guest
pub mod Characters
pub mod RoundTrip
pub mod Sizes
