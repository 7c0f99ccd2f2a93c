-- ===== src/Mm.antt =====
-- kernel/mm: memory management.
pub mod Pmm
pub mod Heap
