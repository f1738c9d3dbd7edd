-- ===== src/Vfs/File/Overrun.antt =====
-- The end-of-file test of `initfs_read` in kernel/vfs/initfs.c wraps on 64 bits.
use mosix_3d.Prelude.{
  ◌+◌, ◌-◌, ◌^◌, ◌≤◌, ◌<◌, ◌≡◌, ap, ◌∙◌, ltb, if◌then◌else◌, arith, u32, u64, sub64,
}
use mosix_3d.Vfs.File.{File, Memory, bytes_at, initfs_read}

-- A read of 2^64 - off bytes from a file of less than 2^31 bytes, at an offset `off` above 0, is not cut
-- at the file's end: it copies 2^32 - off bytes, more than the file has, and sets the offset to 0.
pub initfs_read_overruns :
    (mem : Memory) (f : File)
    → 0 < f.off
    → f.off ≤ f.size
    → f.size < 2 ^ 31
    → let r = initfs_read mem f (2 ^ 64 - f.off) in
      (r.1 ≡ bytes_at mem (f.data' + f.off) (2 ^ 32 - f.off))
      × (f.size < 2 ^ 32 - f.off)
      × (r.2.off ≡ 0)
unfolding initfs_read
initfs_read_overruns mem f p h s =
    let n = 2 ^ 64 - f.off in
    let m : (if ltb f.size (u64 (f.off + n)) then sub64 f.size f.off else n) ≡ n = ground arith in
    let u : u32 n ≡ 2 ^ 32 - f.off = omega arith in
    let v : u64 (f.off + n) ≡ 0 = omega arith in
    (
      ap (λ k. bytes_at mem (f.data' + f.off) (u32 k)) m ∙ ap (bytes_at mem (f.data' + f.off)) u,
      omega arith,
      ap (λ k. u64 (f.off + k)) m ∙ v,
    )
