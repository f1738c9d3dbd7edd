-- ===== src/Vfs/File/Open.antt =====
-- A file of the archive from its opening on: `open_node` with the operations of kernel/vfs/initfs.c.
use mosix_3d.Prelude.{ℕ, ◌%◌, ◌^◌, ◌<◌, ◌≡◌, ◌≢◌, ◌↔◌, List, none, some, arith}
use mosix_3d.Vfs.File.{Node, File, Memory, initfs_operations, open_node, initfs_open}
use mosix_3d.Vfs.File.Refine.{Call, calls, calls_at, AllInRange, calls_refine}

-- A file that is no directory, opened as a file, is read and sought from its start: the calls give what
-- they give on position 0 in the bytes of its node.
pub open_node-calls :
    (mem : Memory) (junk : ℕ) (node : Node) (flag : ℕ) (cs : List Call)
    → node.attr % 2 ≡ 0
    → flag % 2 ≡ 0
    → node.size < 2 ^ 32
    → AllInRange cs
    → (f : File) × (open_node initfs_operations junk node flag ≡ some f)
      × (calls mem f cs ≡ calls_at mem node.data' node.size 0 cs)
unfolding open_node initfs_operations initfs_open
open_node-calls mem junk node flag cs a b s r =
    let f : File = record {
      size = node.size;
      off = 0;
      mode = flag;
      href = 0;
      data' = node.data';
    } in
    (f, ground arith, calls_refine mem f cs (omega arith) s r)

-- `open_node` fails exactly where one of the node and the open mode is a directory and the other is
-- not.
pub open_node_fails :
    (junk : ℕ) (node : Node) (flag : ℕ)
    → (open_node initfs_operations junk node flag ≡ none) ↔ (node.attr % 2 ≢ flag % 2)
unfolding open_node
open_node_fails junk node flag = ground arith
