-- ===== src/Lib.antt =====
-- Verification of the ppoOS kernel. The parts and the files that model them:
--
--   kernel/src/src/vmm.c, physical memory: Pmm (the bitmap and its operations), Pmm/Bitmap (the bits
--     as a table of flags), Pmm/Flags (the loops of `pmm_init`),
--     Pmm/Init (`pmm_init`), Pmm/Alloc (single calls), Pmm/Trace (sequences).
--   kernel/src/src/vmm.c, virtual memory: Vmm (page tables in a memory of 64-bit words), Vmm/Entry
--     and Vmm/Tree (entries and the tree of tables), Vmm/Walk, Vmm/Grow, Vmm/Leaf (walks, new tables,
--     last entries), Vmm/Map, Vmm/Unmap, Vmm/Translate and Vmm/Space (the operations).
--   kernel/src/src/fs.c: Fs and Fs/Dirs (the operations, over a byte memory with the pool, and the ext2
--     driver as a record of functions), Fs/Valid (the invariant), Fs/Lookup (which entry is found), Fs/Write, Fs/Read, Fs/Create,
--     Fs/Import and Fs/Spill (what the operations do).
--   kernel/src/src/syscall.c: Syscall and Syscall/Fork (the handlers and the dispatch, over Fs and Vmm),
--     Syscall/Safety (user addresses), Syscall/Descriptors (the table), Syscall/Decimal (`sys_exit`).
--   kernel/src/lib/string.c: CString (memcpy, memset, memmove, memcmp), CString/Str (comparing, measuring,
--     searching, copying), CString/Token (strtok_r), CString/Print (numbers), and for what they do
--     CString/Memmove, CString/Str/Held and CString/Str/Copies.
--   kernel/src/src/initramfs.c: Initramfs (the walk through the archive), Initramfs/Layout (where entries
--     lie), Initramfs/Archive (the format apart from the parser), Initramfs/Find (the search).
--   kernel/src/src/ext2.c: Ext2 (blocks, inodes, the data of an inode), Ext2/Path (the walk along a path),
--     Ext2/Files (the operations that fs.c calls), Ext2/Bytes, Ext2/Rounds and Ext2/Content (what a read
--     gives), Ext2/Halting (whether the walk ends).
--   kernel/src/src/exec.c: Exec (loading and running a program, over Vmm), Exec/Page (what a page holds),
--     Exec/Cover (which pages are mapped).
--   kernel/src/src/shell.c: Shell (octal numbers, redirection), Shell/Env (variables), Shell/Line (reading a
--     line and its arguments), Shell/Run (commands, over Fs and Exec), Shell/Update (the
--     variables as a map), Shell/Words and Shell/Export (what a line does).
--   kernel/src/src/keyboard.c: Keyboard and Keyboard/Modifiers (the flags after any scancodes).
--   kernel/src/src/mouse.c: Mouse and Mouse/Packets (the position after any bytes).
--   kernel/src/src/gdt.c, kernel/src/src/idt.c: Descriptors (tables and faults), Descriptors/Decode (what
--     the processor reads).
--   kernel/src/src/gui.c: Gui (drawing and clicks), Gui/Fill (which pixels a rectangle sets), Gui/Demo (the
--     demo, round by round).
--   kernel/src/src/elf.c, kernel/src/src/elf.h: Elf (the headers of a file), Elf/Names (the texts), Elf/Numbers (numbers to and from
--     text), Elf/Print (what is printed), Elf/RoundTrip and Elf/Hex (the numerals), Elf/Reads (the bytes that are
--     read), Elf/Returns (the end of the print).
--   kernel/src/src/serial.c: Serial and Serial/Numeral (what is sent). kernel/src/src/cpu.c: Cpu
--     (registers) and Cpu/Messages, with kernel/src/src/usermode_return.c.
--   kernel/src/main.c, kernel/src/src/kernel.c: Boot (from the entry to the shell), Boot/Suffix (endings of
--     names), Boot/Ends (when the test of endings accepts), Boot/Modules (the
--     search for the archive), Boot/Started (the state in which the shell
--     is entered).
--   programs/limine_libc.c: Libc (the library of the programs), Libc/Format (printf), Libc/Output (what the
--     terminal is given).
--   Common: lists for arrays and strings, bit operations, integers, fields of bytes and loops.
--
-- Functions keep the names of the C code. A record holds the static variables of a part, and an
-- operation takes and returns it. Integers are natural numbers with the wrap-around written out. A
-- NULL result is `none`. Where the kernel stops in an endless loop or
-- at a division by zero, and where it overruns an array or an int of the mouse overflows, the result is `none` as well.
-- An array that is not initialised is an argument, with any content.
-- Loops are structural, so no fuel is needed, but for the decimal digits of `sys_exit`: 20 rounds write
-- every number below 10^20, and so every 64-bit code; for the digits of `uitoa` and elf.c, of which a number of
-- 32 bits has at most 32; for loops over C strings, where fuel above the length is enough; and for
-- the directory entries and paths of ext2.c, where the block size and the length of the path are enough.
--
-- Not modelled: most messages on the serial port and the terminal, port and register access in assembly
-- (the TLB, interrupt entry), and the terminal emulator, which is a copy of flanterm.
--
-- Other parts without a model are the programs, which call their library.
pub mod Common
pub mod Pmm
pub mod Vmm
pub mod Fs
pub mod Syscall
pub mod CString
pub mod Keyboard
pub mod Initramfs
pub mod Ext2
pub mod Exec
pub mod Shell
pub mod Mouse
pub mod Descriptors
pub mod Gui
pub mod Elf
pub mod Serial
pub mod Cpu
pub mod Boot
pub mod Libc
