-- ===== src/Vfs.antt =====
-- kernel/vfs: handle tables, open files, the file tree with its names, and the archive.
pub mod Handle
pub mod File
pub mod Tree
pub mod Names
pub mod Archive
pub mod Fork
