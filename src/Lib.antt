-- ===== src/Lib.antt =====
-- Mosix 3d, a small x86-64 kernel: models of its own algorithms in C, as functions on its data.
--
-- The parts and how they interact
--   kernel/mem/pmem.c keeps free memory as lists of extents; the physical pages, the kernel heap and
--   the page allocators are clients of this one allocator. kernel/misc/bitmap.c hands out numbers.
--   kernel/misc/mutex.c has mutexes, which queue waiting processes, and signals, which are mutexes
--   that stay set. kernel/vfs/msglist.c passes bytes through FIFO buffers and messages through message
--   lists, and wakes the other side by signals. kernel/mp/proc.c runs the ready list of each
--   processor and keeps the areas of an address space. kernel/vfs/handle.c gives a process numbers
--   for its files, processes and mutexes. kernel/vfs/vfs.c opens files and calls the operations of
--   their file system, of which kernel/vfs/initfs.c is the only one in the kernel. It also keeps the
--   tree of nodes that a path is walked along. kernel/mem/vmem.c maps pages, and takes the memory for its
--   tables from the physical pages. kernel/misc/string.c has the routines on bytes that all parts use.
--   kernel/mp/exec.c loads programs and libraries into pages and maps them, and a process maps its areas
--   when it starts. archive/ps2kbd.c, a driver, turns scan codes into characters through two FIFO
--   buffers; archive/sprintf.c and archive/ttyio.c are the libraries that programs print with and read
--   lines by.
--
-- The files
--   Prelude    names of the libraries, Boolean tests, lists with native indices, C's word sizes
--   Misc/Bitmap        create_bitmap, alloc_bit, free_bit
--   Misc/Memory        kernel/misc/string.c: memmove, memcpy, memset, memcmp. The memory is the function
--                      from addresses to bytes.
--   Misc/Text          kernel/misc/string.c: strcmp, strncmp, strstr. A string is the list of its bytes.
--   Misc/Digits        kernel/misc/string.c: hex2bcd, hex2bcd64, hex2str8 to hex2str64, hex2str
--   Mem/Freelist       flist_alloc, flist_alloc_from, flist_dealloc, total_avail. The fields `root` and
--                      `size` of a Freelist are one list of its extents.
--   Mem/Pages          pmem_init, alloc_phy, free_phy, total_phy_avail
--   Mem/Kheap          kernel/mem/kheap.c: kheap_init, kheap_alloc, kheap_free, total_kheap_avail. The
--                      memory is the function from addresses to the size words that are stored.
--   Mem/Paging         kernel/mem/vmem.c: entries, routes, set_mapping, set_mappings and the others. The
--                      memory is the function from the addresses of the windows to their words; `lost` is
--                      set where a table is not obtained, since the tables then share frame 0. Window
--                      has the processor's walk over physical memory.
--   Sync               kernel/misc/mutex.c. A Mutex has its `owned` byte, its flags and the list of
--                      waiting processes; an operation returns the processes that it wakes.
--   Ipc/Span           the elements of a ring from an index on
--   Ipc/Buffer         FifoBuffer: init_buffer, and read_, write_ and overwrite_buffer, for bytes and
--                      for words
--   Ipc/Wait           wait_read_buffer, wait_write_buffer and their forms for words. A suspension of the
--                      caller is a result of its own.
--   Ipc/MessageList    create_msglist, do_send_message, do_recv_messsage, send_message, recv_message. A
--                      call that would suspend its caller is a result of its own.
--   Proc/Sched         add_ready, del_ready, choose_cpu_for, sched, sched_suspend, sched_exit,
--                      ready_process, suspend_process. The state is a Processor and the processes, a
--                      function from their numbers; a context switch is the change of `cur`.
--   Proc/Life          alloc_process, free_process, find_process, wait_process, exit_process, and the handles
--                      of processes in kernel/vfs/handle.c. The message that reap_process sends is a result.
--   Proc/Space         refer_vmspace, deref_vmspace, alloc_stack, proc_entry_init, and kernel/mem/heap.c:
--                      create_heap, heap_alloc, heap_free, pf_commitmem
--   Proc/Vmarea        insert_vmarea, delete_vmarea, find_vmarea
--   Vfs/Handle         kernel/vfs/handle.c: the table and the handles of files and mutexes
--   Vfs/File           open_node, read, write and lseek of kernel/vfs/vfs.c, and the operations that
--                      kernel/vfs/initfs.c sets for the files of the archive
--   Vfs/Tree           kernel/vfs/vfs.c: add_node_child, del_node_child, create_subnode, create_subdir,
--                      mount_on_node, unmount_from_node, find_node_in, find_node_from, path_walk. Nodes are
--                      a function from pointers.
--   Vfs/Names          kernel/vfs/vfs.c: path_stringify, getcwd, chdir, nosb_getdents, getdents
--   Vfs/Fork           kernel/mp/fork.c: fork_setstdfp, fork_dupall, fork_dupstdfp
--   Vfs/Archive        kernel/vfs/initfs.c: oct2bin, initfs_lookup, initfs_iterate. A tar archive is the
--                      function from its sectors to headers.
--   Exec               kernel/mp/exec.c with the headers exec.h and pe.h. A file is the function from
--                      offsets to bytes and a size; a seek behind the end is refused and a read is cut there. Image has the headers, Section the contents of a section, Library
--                      the loaded libraries, Export GetProcAddrByOrd and GetProcAddrByName, Relocation
--                      ePeFixRelocation, and Run the loops of RunPe64, LoadPedll64, MapPedll and MapDriver.
--   Archive/Keyboard   archive/ps2kbd.c: getkbdchar, dkbd_decode, commit_char, the loop of dkbd_entry, irq1.
--                      The loop can stop in commit_char.
--   Archive/Sprintf    archive/sprintf.c: number, eaddr, iaddr, and in Format vsprintf and sprintf. What is
--                      written at `str` is a list, and an argument says of which kind it is.
--   Archive/Terminal   archive/ttyio.c: tty_gets, tty_gets_nowb. The characters that are typed are a list.
--   A module named Tests holds runs of the code and the theorems at concrete states.
--
-- How C is modelled
--   A word is a native number, and an operation that can wrap says so (u8 to u64). A loop over an array
--   is recursion on the list, or on the number of turns left. Where the code has no such number the
--   model has a bound: 64 digits of a 64-bit number, the characters of a format, the scan codes in the
--   buffer of the keyboard, and fuel for the children of a node, for the headers of an archive and for
--   the blocks of a relocation table, which is enough where it is as large as their number. The climb
--   of path_stringify has fuel, enough where it is larger than the depth. A function that holds a spin
--   lock from its first to its last access is one step. An access outside an array, or through a null
--   pointer, is `none` or a result of its own where the code can reach it.
--
-- Not modelled
--   Assembly (boot, context switch, spin locks), descriptor tables and device registers, which are
--   hardware state; the debug output of failed assertions; of the folder archive the disk, bus and pseudo
--   terminal drivers and the user programs.
--   The lists of file systems and superblocks, the import tables of programs and what a process
--   frees at its end have no model here.
pub mod Prelude
pub mod Misc
pub mod Mem
pub mod Sync
pub mod Ipc
pub mod Proc
pub mod Vfs
pub mod Archive
pub mod Exec
