-- ===== src/Memory.antt =====
-- kernel/memory.c: the page allocator, and the heap on top of it.
pub mod Pages
pub mod Heap
pub mod Init
