-- ===== src/Proc.antt =====
-- kernel/mp/proc.c: the ready lists and the scheduler, the life of a process, its memory, and the areas of an
-- address space.
pub mod Sched
pub mod Life
pub mod Space
pub mod Vmarea
