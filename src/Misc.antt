-- ===== src/Misc.antt =====
-- kernel/misc: bitmaps, memory routines, strings and digits.
pub mod Bitmap
pub mod Memory
pub mod Text
pub mod Digits
