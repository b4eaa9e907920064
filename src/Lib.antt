-- ===== src/Lib.antt =====
-- SolsticeOS: a model of the kernel's C++ code, and what is proved of it.
--
-- The parts, each with the code that it models:
--   Base      numbers, tests, lists, signed integers, bits and stores that the other parts share.
--   Memory    src/kernel/memory/memory.cpp: Memory.Pmm is the list of free page frames, which is kept
--             in the frames themselves (pmm_alloc, pmm_free, pmm_alloc_pages, init_pmm); Memory.Slab is
--             the allocator of objects in slabs on top of it (init_kmalloc, kmalloc, kfree).
--             Memory.Paging has the page tables, which take their frames from the allocator
--             (get_or_create_table, map_page, identity_map_range, init_paging).
--   Text      the string functions of src/kernel/utils/utils.cpp, the formatted output of
--             src/kernel/misc/printf.cpp and of klog, the serial port (Serial) and hex_dump (HexDump).
--   Util      memset, memcpy, memmove, memcmp and int_sqrt of src/kernel/utils/utils.cpp.
--   Ata       read_disk and write_disk of src/kernel/utils/utils.cpp at the ports of the drive.
--   Ext2      src/kernel/filesystem/ext2.cpp on src/include/ext2.h: Disk has the sectors and blocks,
--             Inode the inode table, Bitmap the allocation of blocks and inodes, Dir the entries of a
--             directory block, Path the traversal of a path, Commands the commands of the shell.
--   Shell     execute_command of src/kernel/utils/utils.cpp: which command a line asks for.
--   Tasks     src/kernel/tasks/task.cpp: the slots, a new task's stack, the round robin.
--   Io        the instructions on ports, which are a parameter of the code that uses them.
--   Input     src/kernel/idt/idt.cpp and src/kernel/gdt/gdt.cpp: the keyboard's and the mouse's part of
--             interrupt_handler, the set-up of the mouse (init_mouse), and the entries of the descriptor
--             tables.
--   Interrupts  interrupt_handler as a whole, on the state of the mouse, the keyboard and the scheduler,
--             with a step relation for interrupts in any order (Steps) and what each number touches
--             (Service). A command that the keyboard's part runs comes as an effect behind the
--             handler's own state; initIdt, initGdt and writeTSS (Tables); and src/kernel/idt/timer.cpp with
--             remap_pic (Timer).
--   Graphics  src/kernel/wm/gfx.cpp and src/kernel/wm/wm.cpp: drawing into the back buffer and its
--             copy to the screen, the windows with their layers, the dirty rectangle and dragging, the
--             order of drawing, and a round of the window manager's loop.
--   Console   src/kernel/misc/console.cpp: the text cursor, scrolling and the calls of the font renderer,
--             which is a parameter; and the colored output of src/kernel/utils/utils.cpp (Print).
--   Apps      src/kernel/applications: the buttons of calculator.cpp and where xeyes.cpp draws the pupils;
--             Canvas has the drawing into a window's pixels, on which stand what the calculator's window
--             shows and a round of the eyes.
--   Boot      kernel_entry of src/kernel/kernel.cpp, which runs the initialisations of the parts in turn.
--
-- How the code is translated. The globals of a file are a record, and a function of the file that
-- changes them takes and returns it. Memory, a disk and a buffer of pixels are functions from
-- addresses to cells. uint64_t, uint32_t and uint8_t arithmetic is written with its remainder where it
-- can wrap, and the calculator's int32_t in two's complement; an int of a coordinate is an unbounded
-- integer. What C++ leaves undefined is an outcome of its own where a theorem tells of it: in kmalloc and
-- kfree, and where ext2_cd would overrun the path. A C string is the list of its characters
-- before the terminator. What is printed on the way is left out where it is only a message, and is the
-- result of the function where it is what the function is for.
--
-- Bounds and fuel. kmalloc walks a cache's list of slabs with more fuel than the list has slabs, which
-- its theorem asks for. print_uint has the 64 bytes of its buffer. int_sqrt takes at most 15 steps to
-- the first power of 4 and 16 more. A walk over a directory block has 1025 rounds, one more than it has
-- bytes, and each round goes on by at least one; ext2_link_dir_entry has its own limit of 100 rounds.
-- ext2_traverse_path has one round more than the path has characters. schedule comes back to the
-- current task after 8 rounds. The polling of the disk has the 100000 polls of the source; the wait for
-- the end of a flush and the wait of _putchar, which the source does not bound, have a number of polls
-- as an argument. The loop
-- of gfx_draw_circle has one round more than its radius. sleep has a number of halts as an argument, and
-- its theorem gives as many as are enough.
--
-- Not modelled: the bootloader, which is a sequence of calls of the firmware; the assembly stubs, whose
-- addresses are parameters; the vendored font renderer src/include/ssfn.h, whose calls are parameters;
-- the messages and the banner of kernel_entry. Of the endless loops of the window manager and of the
-- applications one round is modelled.
pub mod Apps
pub mod Ata
pub mod Base
pub mod Boot
pub mod Console
pub mod Ext2
pub mod Graphics
pub mod Input
pub mod Interrupts
pub mod Io
pub mod Memory
pub mod Shell
pub mod Tasks
pub mod Text
pub mod Util
