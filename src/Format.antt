-- ===== src/Format.antt =====
-- Formatted output: c-kernel/utils/impl/gfmt.c and c-kernel/utils/fmt.c. Characters are their codes.
pub mod Number
pub mod Spec
pub mod Print
pub mod Buffer
mod Tests
