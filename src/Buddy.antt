-- ===== src/Buddy.antt =====
-- The buddy page allocator: c-kernel/syscore/mem/buddy.c and buddy.h, over the flags of
-- c-kernel/defs/page_status.h and c-kernel/syscore/mem/priv.h.
pub mod Node
mod Tests
mod Scenario
pub mod Flags
pub mod Find
pub mod Search
pub mod Leaves
pub mod Mark
pub mod Init
