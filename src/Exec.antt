-- ===== src/Exec.antt =====
-- The program loader, kernel/mp/exec.c with kernel/include/exec.h and kernel/include/pe.h: programs and
-- libraries in the PE format.
pub mod Image
pub mod Section
pub mod Library
pub mod Export
pub mod Relocation
pub mod Run
mod Tests
