-- ===== src/Lib.antt =====
-- IPO_OS, a small 32-bit x86 operating system: its heap, its string functions, its file system
-- from the sector transfers of the disk driver up to the calls that programs use, its keyboard,
-- timer and speaker, its formatted output, its terminal with its commands, its processes, and
-- the script that it runs at its start.
--
-- The programs and the terminal call the file system's API (lib/c/file_system/ipo_api.c), which
-- resolves paths (ipo_path.c), searches directories (ipo_dir.c), reads and writes inodes and
-- allocates blocks (ipo_inode.c) by two bitmaps (ipo_bitmap.c), all of them through the block
-- layer (ipo_block.c), which asks the disk driver (lib/c/driver/ata.c) for one sector at a time.
-- The heap (lib/c/memory/kmalloc.c) and the string functions (lib/c/string.c) stand by
-- themselves.
--
-- Common and its children: arithmetic on 32-bit words (`u32_mod`, `add32`, `sub32`), Boolean
-- tests, lists, and `Act`, functions on a state that may fail and keep the state that they
-- reached. Memory: bytes by address, little-endian words, `fill` and `blit` for memset and
-- memcpy; a C structure that the code casts from a buffer is such a memory with a function for
-- each field.
--
-- Kmalloc: `State`, `kmalloc_init`, `find_free_block`, `split_block`, `kmalloc`, `kfree` of
-- kmalloc.c, where `take_block`, `new_block` and `finish` are the branches of kmalloc.
-- Kmalloc.Blocks describes a heap as a list of blocks; Kmalloc.Scan, Reserve, Alloc and Free
-- relate the code to it, and Kmalloc.Overlap says what happens where it does not hold.
--
-- CString: string.c under its function names. CString.Copy and Compare hold the theorems.
--
-- Fs: the state of ipo_state.c and ipo_fs.h, and `Ata`, what the file system asks of the driver.
-- Fs.Block, Bitmap, Inode, DataBlock (the function get_data_block_for_inode), Dir and Path model
-- the files named alike; Fs.File (open, read, write), Fs.Tree (create, delete, stat, write_text,
-- rename) and Fs.Format (format, mount) model ipo_api.c; Fs.Listing is ipo_fs_list_dir of
-- ipo_dir.c. `IsDisk` (Fs.Block) says what a disk in order does: a number of sectors that it
-- has, which are read back as they were written last. Fs.Driven shows that the driver of
-- Driver.Ata, on the drive of Driver.Ata.Drive, is one; its 20480 sectors are those of the disk
-- that the makefiles build. `IsLaidOut` (Fs.Layout) says how the areas of a file system lie on a
-- disk; the theorems that need a disk in order take them as hypotheses, and the others hold for
-- every driver. Fs.Dir.Lookup describes a directory as a row of entries, Fs.Dir.Naming and
-- Filename the bytes of one entry and its name; Fs.Dir.Added, Grown, Growing, Search and Found
-- follow an entry that is added. Fs.Format.Layout, Room and Laid are about the areas that are
-- planned; Fs.Format.Blank, Fresh, Root, Entries, Progress, Complete and Made follow the writes
-- of ipo_fs_format on a disk in order, step by step; Fs.Format.Mount and Mounted are about
-- mounting, and Fs.Format.Kernel has the disk that the kernel asks for.
--
-- Driver: `Ports`, the port instructions, as a parameter; Driver.Ata the transfers of ata.c, and
-- Driver.Ata.Drive a drive behind the ports of its channel, Driver.Ata.Identify its drives,
-- Driver.Keymap the hot keys of lib/c/driver/input/keymaps/keymap.c, Driver.Vga the cells and
-- the cursor of lib/c/system/vga.c, Driver.Pit the timer (lib/c/system/pit.c), the speaker
-- (lib/c/driver/sound.c) and the keyboard controller (lib/c/driver/keyboard.c). `IsCrtc`
-- (Driver.Vga.Cursor) says what a display controller in order does.
--
-- Stdio: `itoa` and `itoa64` of lib/c/stdio/itoa.c. Stdio.Format: printf.c, serial_printf.c,
-- serial_putc.c and snprintf.c of lib/c/stdio, over a list of arguments in place of the variadic
-- ones; `printf` and `serial_printf` are one loop, `print_loop`, with another way to put a
-- character.
--
-- Process: lib/c/kernel/process.c under its function names, Process.Image the loading and
-- Process.Call the rest; `load_inode`, `read_image` and `checked` are the parts of
-- load_ipob_file behind its calls, and `execute`, `then_place`, `place_image`, `with_arguments`,
-- `begin_main` and `call_program` those of process_exec. It uses the heap through `Heap`
-- (Process.Allocator) and the file system through `Files`; `IsCounted` counts the calls of the
-- heap, and any heap can be counted (`counted`). Process.Parts fills both interfaces with
-- Kmalloc and Fs. `IsProgram` says what a program is trusted with.
--
-- Terminal: the screen, the two history buffers and the scrolling of lib/c/kernel/terminal.c;
-- Terminal.Putchar is lib/c/stdio/putchar.c and the prompt. Terminal.Timeline describes the
-- buffers and the screen as one row of lines. Terminal.Console is terminal_console, a poll of
-- the keyboard, with the run of a command as a parameter, and Terminal.Command is
-- resolve_command_path and try_execute_command over the heap and the files of Process.
--
-- Autorun: autorun_init of lib/c/kernel/autorun.c, from the file to the command lines
-- (`commands`) and their run. Boot: ensure_fs_mounted and the startup sound of
-- src/kernel/kernel32.c; Boot.Mounted is about the disks that the kernel may find at its start.
--
-- Loops with a bound in the code count down that bound (bitmap tries, inodes, entries, blocks,
-- waits). The scan of the heap takes one round of fuel more than the bytes in use, since each
-- round passes a block that is not empty; fs_canonicalize takes one round more than the path has
-- bytes and path_resolve as many, since each round takes one at least; the string functions that
-- stop only at a NUL, and the wait for the serial line, take fuel and say `none` without it. A
-- number is a natural number, reduced modulo 2^32 where the code may wrap. An address is a
-- natural number too: where the heap's memset would pass 2^32 and clear the kernel, `kmalloc`
-- has no result. A file descriptor, and a block number returned as an `int`, are read as
-- unsigned, and those from 2^31 on are negative ones.
--
-- Not modelled: the output of printf in the functions of the file system, the disk driver, the
-- processes and autorun; the sequence of kmain; the boot code in assembly; the tools that are
-- not part of the kernel.
pub mod Common
pub mod Memory
pub mod Kmalloc
pub mod Fs
pub mod CString
pub mod Driver
pub mod Stdio
pub mod Terminal
pub mod Process
pub mod Autorun
pub mod Boot
