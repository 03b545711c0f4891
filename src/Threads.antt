-- ===== src/Threads.antt =====
-- The thread manager, c-kernel/syscore/mt/kernel.c.
pub mod Sleep
pub mod State
pub mod Mutex
pub mod Ready
pub mod Rpc
pub mod Tick
mod Tests
mod Scenario
