-- ===== src/Mem.antt =====
-- kernel/mem: the extent allocator and its clients.
pub mod Freelist
pub mod Kheap
pub mod Pages
pub mod Paging
