-- ===== src/Lib.antt =====
-- trunix, a small kernel for 32-bit x86 with a C library: a model of its C code, and theorems on it.
--
-- At boot the kernel copies the boot loader's memory map (kernel/paging.c), takes its own pages out
-- of it, gives the rest to a page allocator (kernel/mem.c), which feeds a heap for small objects, and
-- then runs threads in turn (kernel/proc.c), from a queue that the timer interrupt turns. It prints on
-- a serial line (kernel/serial.c) and on a frame buffer (drivers/video/console). User programs are
-- linked with lib/libc.
--
-- The files, and the code that they model:
--   Round      include/trunix/vm.h: rounding to pages, physical and virtual addresses
--   Block      the blocks of memory of both allocators, and the addresses that they cover
--   Pages      kernel/mem.c: `alloc_pages` and `free_pages`, on the list `freelist`
--   KHeap      kernel/mem.c: `kmalloc` and `kfree`, on the list `heap`
--   Memmap     kernel/paging.c: `add_memmap` and `cut_memmap`, on `struct kinfo`
--   Sched      kernel/proc.c: `struct proc`, the run queue, `scheduler`, `yield`, `sys_exit`
--   Fs         kernel/fs.c: `file_open`, `sys_open`, `sys_read`, `sys_write`; Fs/Archive:
--              the archive, and `load_initrd`
--   Boot       kernel/init.c: `init_trunix` and its loop on the boot loader's table;
--              kernel/mem.c: `init_mem`; kernel/paging.c: `pg_identity`, `pg_clear_identity`
--   Vm         kernel/mem.c: page directories and tables, `alloc_pt` and `copykvm`
--   Machine    kernel/proc.c: what a system call sees: threads, files, memory, `memtab`
--   Mmap       kernel/mem.c: `sys_mmap`
--   Threads    kernel/proc.c: `alloc_thread`, `proc_create`, `kthread_create`, `init_pmm`,
--              `init_sched`, `free_uvm`, `proc_destroy`
--   Fork       kernel/proc.c: `sys_fork`
--   System     the processes side by side: sequences of the calls of Sched, Mmap and Fork
--   Elf        kernel/proc.c: the headers of a program file, and the first loop of `loadelf`
--   Exec       kernel/proc.c: `loadelf`, `sys_execve`, `initsys`
--   Itoa       kernel/serial.c and lib/libc/stdio/vfprintf.c: `itoa`
--   Printk     kernel/serial.c: `printk`
--   Stdio      lib/libc/stdio: the streams, `fputc`, `fflush` and `vfprintf`
--   Malloc     lib/libc/stdlib/malloc.c: `malloc` and `free` of user programs
--   Errno      include/errno.h and lib/libc/string/strerror.c: the error numbers and their messages
--   CharDev    drivers/char/mem.c and drivers/hid/keyboard.c: the memory files and the keyboard
--   Text       kernel/string.c and lib/libc/string: comparison and copy of strings
--   Font       drivers/video/console/misc-fixed-8x13B.c: the glyphs of the console
--   Console    drivers/video/console/console.c: the cursor and the cells of `fbcon_write`, the pixels
--              of `fbconchar`, and `fbcon_open`
--   Fbdev      drivers/video/fbdev/fbdev.c: the frame buffer as a file
--   Prelude    names, tests, lists and integers that the files share
--   Examples   the theorems at concrete inputs
--
-- State is passed explicitly: an operation takes a record and returns the new one. An address or a
-- u32 is a natural number, with the wrap-around written out where the code can wrap. A linked list is
-- a list, a buffer a function of the index. Where the code panics, fails an assertion or has no
-- defined behaviour, the model returns `none` (in Sched the outcome `panics`), and the comment of the
-- definition says which of these it is.
--
-- Fs uses the heap of KHeap and the threads of Sched; Boot uses Memmap, Pages and KHeap; Vm uses
-- Pages; Machine joins Sched, Fs and Vm, and the system calls of Mmap, Fork and Exec are functions
-- of it; System puts these calls in a row, with the timer interrupts and `sys_exit`. Console uses
-- Font; Printk and Stdio use Itoa. The functions of the device drivers are a parameter of Fs and
-- Mmap, since the code calls them through a table; the theorems there hold for all of them. The
-- system call `mmap`, and which memory of the program is mapped, are parameters of Malloc, where a
-- store to other memory is a fault. The bytes that programs and buffers use and the entries of page
-- tables are two maps of the same memory, which describe it while no page is used as both.
--
-- Loops are recursive on the list that they walk, or on a number of rounds. In `itoa` it is 32, as a
-- number below 2 ^ 32 has at most 32 digits in any base from 2 on; in `cut_memmap` 32, the entries of
-- the map; in `sys_open` 17, as the loop ends at `MAXFILES`; in `load_initrd` the blocks of the archive
-- and one more; in `alloc_pt` the pages of the length, and in `sys_fork` the descriptors. That these
-- rounds are enough is part of the theorems on these functions. In `init_trunix` it is a quarter of the
-- table's length and one more, as an entry takes at least 4 bytes unless its size wraps around, and in
-- `loadelf` the headers.
--
-- System takes of the calls those that its type Call lists: forks that copy more regions than the
-- image of the process holds, and mappings of files are not among them, and its invariant does not say
-- that user memory and pages of tables are apart.
--
-- Not modelled: the assembly (gates, interrupt entry, the switch of registers, ports); `kmain`, which
-- calls the parts in order; the system call stubs of the C library and the two small programs that only
-- call them; the font that is switched off; include/sys/queue.h, which is another project's.
pub mod Prelude
pub mod Round
pub mod Block
pub mod Pages
pub mod KHeap
pub mod Sched
pub mod Fs
pub mod Boot
pub mod Vm
pub mod Machine
pub mod Mmap
pub mod Threads
pub mod Fork
pub mod System
pub mod Elf
pub mod Exec
pub mod Font
pub mod Console
pub mod Fbdev
pub mod Text
pub mod Memmap
pub mod Itoa
pub mod Printk
pub mod Stdio
pub mod Malloc
pub mod Errno
pub mod CharDev
pub mod Examples
