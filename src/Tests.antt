-- ===== src/Tests.antt =====
-- The sample kernel of the tests and of the examples of the theorems.
pub mod Sample
pub mod Queues
pub mod Heaps
pub mod IntBuiltins
pub mod System
mod Calls
pub mod Boot
pub mod Format
pub mod Devices
pub mod Libc
mod Task
