-- ===== src/Vfs/File.antt =====
-- Open files: `open_node`, `read`, `write` and `lseek` of kernel/vfs/vfs.c, and the operations of the
-- archive file system in kernel/vfs/initfs.c, over the structs of kernel/include/vfs.h.
--
-- Memory is a function from addresses to bytes, and an operation returns the bytes that it copies to
-- the caller's buffer. An `int` is its 32 bits, so -1 is 2^32 - 1. The function pointers of
-- `FileOperations` are optional functions, and a null `fops` has none. Allocations succeed.
pub mod Refine
pub mod Open
pub mod Overrun
mod Tests
use mosix_3d.Prelude.{
  ℕ, zero, suc, ◌+◌, ◌-◌, ◌%◌, ◌^◌, Bool, true, false, not, ◌&&◌, List, [], ◌∷◌, Option, none, some,
  ltb, ◌==◌, if◌then◌else◌, u32, u64, sub64,
}

-- The fields that these functions read; `sb` tells whether there is a superblock.
pub record Node : Type 0 where
  pub sb : Bool
  pub child : ℕ
  pub size : ℕ
  pub attr : ℕ
  pub data' : ℕ

pub record File : Type 0 where
  pub size : ℕ
  pub off : ℕ
  pub mode : ℕ
  pub href : ℕ
  pub data' : ℕ

abbrev pub Memory : Type 0
Memory = ℕ → ℕ

-- The result, the bytes copied, and the file.
abbrev pub Transfer : Type 0
Transfer = ℕ × List ℕ × File

pub record FileOperations : Type 0 where
  pub on_open : Option (Node → File → File)
  pub read : Option (Memory → File → ℕ → Transfer)
  pub write : Option (Memory → File → ℕ → Transfer)
  pub lseek : Option (File → ℕ → ℕ → ℕ × File)

abbrev pub negative : ℕ → ℕ
negative e = 2 ^ 32 - e

abbrev pub err_not_implemented : ℕ
err_not_implemented = 18

abbrev pub err_bad_seek : ℕ
err_bad_seek = 22

-- `NODE_DIRECTORY` and `OPEN_DIR` are 1.
abbrev is_directory : ℕ → Bool
is_directory flags = flags % 2 == 1

abbrev opened_by : Option (Node → File → File) → Node → File → File
opened_by none node f = f
opened_by (some own) node f = own node f

-- A directory must be opened as one, and nothing else may be. `junk` is in the uninitialised field.
unfoldable pub open_node : FileOperations → ℕ → Node → ℕ → Option File
open_node fops junk node flag =
    let f =
      opened_by fops.on_open node
        (record { size = node.size; off = 0; mode = flag; href = 0; data' = junk }) in
    if is_directory node.attr
    then (if is_directory flag
        then some (if node.sb then f else record f { off = node.child })
        else none)
    else (if is_directory flag then none else some f)

unfoldable pub read : FileOperations → Memory → File → ℕ → Transfer
read fops mem f n = elim (fops.read) [
  | none ↦ (negative err_not_implemented, [], f)
  | some own ↦ own mem f n
]

unfoldable pub write : FileOperations → Memory → File → ℕ → Transfer
write fops mem f n = elim (fops.write) [
  | none ↦ (negative err_not_implemented, [], f)
  | some own ↦ own mem f n
]

-- The part of `lseek` behind the file system's own: from the start, from the offset, from the end.
unfoldable pub seek : File → ℕ → ℕ → ℕ × File
seek f off origin =
    let bad : ℕ × File = (negative err_bad_seek, f) in
    if origin == 0
    then (if ltb f.size off then bad else (u32 off, record f { off = off }))
    else if origin == 1
    then (if ltb f.size (u64 (f.off + off))
        then bad
        else (u32 (u64 (f.off + off)), record f { off = u64 (f.off + off) }))
    else if origin == 2
    then (if ltb f.size off
        then bad
        else (u32 (sub64 f.size off), record f { off = sub64 f.size off }))
    else bad

unfoldable pub lseek : FileOperations → File → ℕ → ℕ → ℕ × File
unfolding seek
lseek fops f off origin = elim (fops.lseek) [
  | none ↦ seek f off origin
  | some own ↦ own f off origin
]

-- `memmove` takes a 32-bit count.
unfoldable pub bytes_at : Memory → ℕ → ℕ → List ℕ
bytes_at mem addr zero = []
bytes_at mem addr (suc n) = mem addr ∷ bytes_at mem (addr + 1) n

unfoldable pub initfs_open : Node → File → File
initfs_open node f = record f { off = if is_directory f.mode then 0 else f.off; data' = node.data' }

unfoldable pub initfs_read : Memory → File → ℕ → Transfer
unfolding bytes_at
initfs_read mem f n =
    let m = if ltb f.size (u64 (f.off + n)) then sub64 f.size f.off else n in
    (u32 m, bytes_at mem (f.data' + f.off) (u32 m), record f { off = u64 (f.off + m) })

unfoldable pub initfs_write : Memory → File → ℕ → Transfer
initfs_write mem f n = (negative 1, [], f)

-- The operations that `mount_initfs` sets.
unfoldable pub initfs_operations : FileOperations
unfolding initfs_open initfs_read initfs_write
initfs_operations = record {
  on_open = some initfs_open;
  read = some initfs_read;
  write = some initfs_write;
  lseek = none;
}
