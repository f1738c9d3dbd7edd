-- ===== src/Ipc.antt =====
-- kernel/vfs/msglist.c: byte and word buffers, and message lists, on a shared circular-array module.
mod Span
pub mod Buffer
pub mod MessageList
pub mod Wait
