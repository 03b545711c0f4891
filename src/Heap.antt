-- ===== src/Heap.antt =====
-- The heap allocator of the C kernel, c-kernel/utils/heap.c over c-kernel/utils/impl/heap_bin.c.
pub mod Aligned
pub mod Alloc
pub mod Bin
pub mod Realloc
mod Tests
