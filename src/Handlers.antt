-- ===== src/Handlers.antt =====
-- The ways into the kernel (educrtos/low_level.c, educrtos/high_level.c, educrtos/pit_timer.c), over
-- any scheduler.
pub mod Entry
pub mod Calls
pub mod Tick
pub mod Disarmed
pub mod Punctual
pub mod Yielded
pub mod OnTime
pub mod Rearmed
pub mod Exceptions
pub mod Boot
pub mod Duplicate
