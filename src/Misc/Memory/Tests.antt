-- ===== src/Misc/Memory/Tests.antt =====
-- Runs on a small memory, and the theorems at it.
use mosix_3d.Prelude.{◌%◌, ◌≡◌, refl, ◌-◌, ◌^◌}
use mosix_3d.Misc.Memory.{Memory, memmove, memcmp}

-- Every byte is its address; the bytes repeat after 256.
abbrev ramp : Memory
ramp a = a % 256

overlaps : memmove ramp 12 10 5 14 ≡ 12
unfolding memmove
overlaps = refl

differs : memcmp ramp 10 11 4 ≡ 2 ^ 32 - 1
unfolding memcmp
differs = refl
