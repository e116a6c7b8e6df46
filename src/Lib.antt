-- ===== src/Lib.antt =====
-- ElephantOS, a small 32-bit kernel, as functions on explicit states. C addresses and unsigned
-- integers are natural numbers; where code wraps around, the model writes the remainder. A failed
-- `ASSERT` and `PANIC` (kernel/debug.h) stop the kernel for ever, which is the outcome `panic`.
--
-- The parts, from the bottom up:
--
-- * Bitmap models lib/kernel/bitmap.c. A map is its length and the memory at its address; the
--   loops of `bitmap_scan` are recursions bounded by the map's length.
-- * LinkedList models lib/kernel/list.c. The store is the two functions `prev` and `next` on
--   addresses. A walk has fuel, one unit for an element, and a fuel larger than the list is
--   enough.
-- * Thread models the scheduler: `schedule`, `thread_block`, `thread_unblock`, `thread_yield`,
--   `thread_start` (thread/thread.c), `process_activate` (userprog/process.c), `update_tss_esp`
--   (userprog/tss.c) and `intr_timer_handler` (device/timer.c). The queues are sequences of task
--   addresses, as the theorems of LinkedList justify. The address translation of `addr_v2p` is a
--   parameter. The code of a thread, its stack, and the assembly `switch_to` are not modelled.
-- * Sync models thread/sync.c. Each part of the code that runs with interrupts off is one
--   function; Sync/System interleaves the parts for any number of threads.
-- * IoQueue models device/ioqueue.c, one round of a call at a time: a call that blocks is made
--   again when its thread is woken.
-- * Keyboard models the interrupt handler of device/keyboard.c with its key map.
-- * Memory models the pools, virtual address maps and page tables of kernel/memory.c (whole
--   allocations in Memory/Alloc, `mem_pool_init` in Memory/Setup), with `words` the memory that
--   the running address space sees; Memory/Heap models `sys_malloc` and `sys_free`, with the heads
--   of arenas in a map and the free lists as sequences.
-- * CString models lib/string.c and `itoa` (lib/stdio.c) over a memory of bytes; a loop that ends
--   at a NUL has fuel, and more fuel than the string has characters is enough. CString/Printing
--   models `vsprintf`, `sprintf`, `printf` (lib/stdio.c) and `printk` (lib/kernel/stdio-kernel.c)
--   up to the output of the buffer, with the arguments as words of the stack and fuel as for
--   strings.
-- * Files models descriptors, closing and seeking (fs/file.c, fs/fs.c), `inode_locate` and
--   `inode_close` (fs/inode.c), and the splitting of paths (fs/fs.c), where the fuel of the loop
--   exceeds the path's length.
-- * Disk models a partition and the bytes of its disk: `inode_sync`, `inode_delete`, `inode_init`
--   and the reading part of `inode_open` (fs/inode.c), `bitmap_sync`, `inode_bitmap_alloc` and
--   `block_bitmap_alloc` (fs/file.c). A sector is transferred by `read_sectors` and
--   `write_sectors`, which is the promise of the driver.
-- * Opening models `inode_open` (fs/inode.c) and `file_open` (fs/file.c) on the state of Files and
--   the partition of Disk, with the address of a new inode as an argument; Opening/Release models
--   `inode_release` (fs/inode.c).
-- * Driver models `ide_read`, `ide_write` and what they call (device/ide.c). The controller is a
--   parameter with the standard meaning of its registers as hypotheses; the fuel of the loops is
--   the number of sectors, of which each round transfers one at least. Driver/Setup models
--   `intr_hd_handler`, `identify_disk` and the channels of `ide_init`.
-- * FileData models `file_write` and `file_read` (fs/file.c) with their plans of blocks; the
--   results of `sys_malloc` are arguments, and the fuel of the data loops is the number of bytes.
-- * Directory models `search_dir_entry`, `create_dir_entry`, `dir_read` and `dir_is_empty`
--   (fs/dir.c), Directory/Update models `sync_dir_entry`, and Directory/Delete `delete_dir_entry`,
--   which has fuel because one of its loops does not end.
-- * Lookup models `dir_open` and `dir_close` (fs/dir.c) and `search_file` (fs/fs.c), with more
--   fuel than the path has names, and `file_create` (fs/file.c). The n-th answer of `sys_malloc`
--   is part of the state.
-- * PathCalls models the system calls that take a path, from `sys_open` to `sys_stat` (fs/fs.c),
--   and `dir_remove` (fs/dir.c); Cwd models `sys_getcwd` (fs/fs.c), whose way up to the root has
--   fuel because the disk says which directory is the parent.
-- * Format models `partition_format` and `mount_partition` (fs/fs.c), with the layout of a
--   partition and its super block.
-- * Partitions models `partition_scan` (device/ide.c), which has fuel because the disk says which
--   table is next, and the loops of `filesys_init` (fs/fs.c).
-- * Interrupt models the interrupt gates and the interrupt flag (kernel/interrupt.c), and the
--   segment descriptors (userprog/tss.c, kernel/global.h).
-- * Process models `create_page_dir`, `create_user_vaddr_bitmap`, `process_execute` and
--   `start_process` (userprog/process.c) on the states of Thread and Memory, up to the jump that
--   enters user mode.
-- * Transfer models `sys_write`, `sys_read` and `sys_readdir` (fs/fs.c), through the state of
--   Lookup.
--
-- Not modelled: the boot sector and loader (boot), the assembly (kernel/kernel.asm,
-- lib/kernel/print.asm, thread/switch.S), port input and output, the console, and the set-up
-- calls, which only order the other parts.
pub mod Base
pub mod Bitmap
pub mod LinkedList
pub mod Thread
pub mod Sync
pub mod IoQueue
pub mod Keyboard
pub mod Memory
pub mod CString
pub mod Files
pub mod Disk
pub mod Opening
pub mod Driver
pub mod FileData
pub mod Directory
pub mod Interrupt
pub mod Format
pub mod Partitions
pub mod Lookup
pub mod PathCalls
pub mod Cwd
pub mod Process
pub mod Transfer
