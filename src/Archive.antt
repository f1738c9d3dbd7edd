-- ===== src/Archive.antt =====
-- archive: the drivers and the libraries that the kernel and its programs load.
pub mod Keyboard
pub mod Sprintf
pub mod Terminal
