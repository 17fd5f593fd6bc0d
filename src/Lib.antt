-- ===== src/Lib.antt =====
-- minima: a 32-bit x86 kernel with its own memory management, scheduler and drivers.
--
-- Memory comes from two allocators: kernel/mm/pfa.c hands out physical page frames, and
-- kernel/mm/vma.c ranges of kernel address space, to which frames are mapped. kernel/mm/slab.c cuts
-- pages into chunks for kmalloc. Tasks wait for each other on the semaphores of kernel/sync.c, and
-- drivers pass bytes to tasks through the ring buffers of kernel/lib/ringbuf.c, which are built on
-- these semaphores. The intrusive list of kernel/include/lib/v.h holds most collections. Paths are
-- resolved by kernel/fs/vfs.c, which calls the file system of each node through its table of
-- operations: kernel/fs/mem.c in memory, kernel/fs/dev.c for devices, kernel/fs/ext2 on the block
-- devices that the latter gives access to.
--
-- Which file models what:
--   Base            shared names, lists over the native numbers, 32-bit addition, subtraction and
--                   multiplication (`add32`, `sub32`, `mul32`, with the wrap written out)
--   IList           kernel/include/lib/v.h, v_ilist_insert, on the sequence that a list holds
--   Vma             kernel/mm/vma.c: Vma, Space (vma_freelist, vma_list and defrag_queue), vma_init,
--                   vma_split, vma_merge, vma_cmp, find_space, do_defrag
--   Vma.Paging      the page directory and the page tables: get_physical_address, vm_map, mprotect
--   Vma.Alloc       the ranges and the page tables together: vmalloc, vm_unmap, vmfree
--   Pfa             kernel/mm/pfa.c: the regions, the free list that they fill, pf_alloc, pf_free
--   Pfa.Frames      the same two calls as steps on memory, each exchange atomic
--   Sync            kernel/sync.c: sem_pend and sem_post as step relations
--   Slab            kernel/mm/slab.c: round_up_pow2, size_idx, chunk_put and chunk_get, prepare_slab,
--                   do_slab_alloc, do_slab_free
--   Sched           kernel/sched.c: update_task_state and find_next_runnable
--   Sched.Stop      kernel/sched.c: sched, task_kill, wait_tid, reaper
--   Timer           kernel/timer.c: do_timer (its clock is tick), sleep
--   Print           kernel/kprintf.c: pru32, pri32, the hexadecimal printers, try_get_num;
--                   Print.Format: do_kprintf_internal, on a list of arguments
--   Utils           kernel/utils.c: strcmp, strncmp, memcmp, dirname, basename
--   Terminal        kernel/terminal.c: terminal_clear, terminal_scroll, terminal_putchar,
--                   terminal_write
--   Cli             kernel/x86.c: cli_push, cli_pop, sti_push, sti_pop
--   Tok             kernel/include/lib/v.h, v_tok: the tokenizer, and loops over it (`tok_loop`)
--   Vfs             kernel/fs/vfs.c, kernel/include/fs/vfs.h: nodes, file systems as tables of
--                   operations (VfsOps), vfs_lookup, vfs_readdir, vfs_create, vfs_mkdir
--   Vfs.Paths       vfs_traverse, vfs_chdir
--   Vfs.Mounts      vfs_mount, vfs_unmount
--   Vfs.Files       vfs_open, vfs_close, vfs_open_file, and the calls on files
--   Memfs           kernel/fs/mem.c: nodes and directories; Memfs.Data: memfs_read, memfs_write,
--                   memfs_seek, memfs_stat; Memfs.Ops: its tables of operations
--   Devfs           kernel/fs/dev.c, over the calls of a driver as a table (Driver)
--   Ext2            kernel/fs/ext2/ext2.c: read_block, read_i_block, get_inode; Ext2.Inodes: get_node;
--                   Ext2.Files: ext2_read, ext2_read_at, ext2_stat; Ext2.Dirs: iterate_dirents,
--                   ext2_lookup, ext2_readdir; Ext2.Mount: find_superblock, ext2_mount
--   Purge           kernel/mm/purge.c: purgeable_alloc, purgeable_get, purgeable_put,
--                   purgeable_purge, purgeable_free
--   Dma             kernel/dma.c, kernel/include/dma.h: dma_setup, as a list of ports and bytes
--   Exec            kernel/exec.c, kernel/include/lib/elf.h: elf_load, load_32, load_segment, exec
--   Drv             kernel/drv.c, kernel/include/drv.h: deps_loaded, driver_init
--   Idt             kernel/idt.c: do_irq, attach_irq, set_idt_entry, pic_mask_irq, pic_unmask_irq
--   Kbd             kernel/drivers/kbd.c: check_special, received_scancode, kbd_irq
--   Floppy          kernel/drivers/floppy.c: lba_to_head, lba_to_cyl, lba_to_sector, cyl_cache_read,
--                   flop_block_read, media_ejected, media_inserted; Floppy.Changes:
--                   check_media_changed; Floppy.Media: detect_media, check_error
--   Ringbuf         kernel/lib/ringbuf.c, on the counts of its semaphores
--   Tests           the theorems at concrete inputs
--
-- A pointer is a number, NULL is 0, and a pointer to an element of a list is its position there. A
-- failed assertion or a panic is `none`. VIRT_OFFSET and PFA_VIRT_OFFSET are set by the build and
-- are arguments here, and so is the purge of purgeable memory that pf_alloc falls back on. Loops
-- over a list recurse on it; the second loop of do_defrag, which also takes elements out, runs on
-- fuel, and the length of the list is enough because each round goes past one element or takes one
-- out. round_up_pow2 doubles 1 at most 31 times for arguments up to 2 ^ 31. find_next_runnable has a
-- second round only when the tasks that can run have no time left, and they all have after it.
-- A 32-bit number has at most ten digits. do_slab_alloc calls itself for the bookkeeping of a new
-- slab: its fuel is the depth allowed. A loop over the tokens of a string has one round more than
-- the string has characters, since each round takes out at least one. vfs_lookup of ".." calls
-- itself for each mount point that it climbs through: its fuel bounds their number. A loop of
-- ext2_read has a round for each block that it reads, and the entries of a directory block have as
-- many rounds as the block has bytes, since each round goes on by at least one. The loops of
-- vm_map and vm_unmap have one round more than the range has pages, and that of mprotect two more,
-- for an end within one. driver_init has one round more than n * (n + 1) for n drivers, since each
-- walk over those left starts at least one, if there is an order of dependencies. do_kprintf_internal
-- has one round more than the format has characters.
--
-- In the file systems a call returns a `Result`: its output, an error code without its sign, a
-- failed assertion, or the end of the fuel. Addresses that an allocation of a node returns have
-- never been given out before; the buffers that memfs_write asks kmalloc for are an argument, and so
-- are the reads of a device.
--
-- What a device answers is an argument: the byte of the keyboard, what the interrupt controllers
-- report, and what the floppy controller transfers. What is sent to the interrupt controllers is a list
-- of ports and bytes.
--
-- Not modelled: mmap and task_unmap, the shell, system calls, the commands of the floppy controller, the
-- clock, the serial port, the console, and the start of the machine; of the file systems, what only frees memory, and the
-- parts of ext2 that nothing calls or that are stubs. Whatever only prints is left out.
pub mod Base
pub mod IList
pub mod Vma
pub mod Pfa
pub mod Dma
pub mod Drv
pub mod Exec
pub mod Floppy
pub mod Idt
pub mod Kbd
pub mod Sync
pub mod Ringbuf
pub mod Sched
pub mod Slab
pub mod Print
pub mod Purge
pub mod Timer
pub mod Utils
pub mod Terminal
pub mod Cli
pub mod Ext2
pub mod Tok
pub mod Vfs
pub mod Memfs
pub mod Devfs
pub mod Tests
